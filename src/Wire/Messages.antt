-- ===== src/Wire/Messages.antt =====
-- The lines that carry numbers and names, through printf on one side and sscanf on the other.
use study_and_development_of.Base.{
  ◌≡◌, refl, ap, ℤ, Bytes, [], ◌∷◌, ◌++◌, append_assoc, codes, some,
}
use study_and_development_of.Libc.Format.{fmt_d}
use study_and_development_of.Libc.Scan.{Scanned, skip_word}
use study_and_development_of.Libc.RoundTrip.{
  IsWord, IsBreak, scan_word-word, scan_d-fmt_d, scan_d-fmt_d_end,
}
use study_and_development_of.Common.Info.{TrInfo}
use study_and_development_of.Server.Transfer.{sending_text}
use study_and_development_of.Server.Transfer.Emits.{with_sizes}
use study_and_development_of.Server.Remove.{scan_remove_file}
use study_and_development_of.Client.Request.{scan_sizes}
use study_and_development_of.Client.Transmission.{scan_sending, remove_file_command}

skip_word-sending : (s : Bytes) → skip_word (some (codes "SENDING " ++ s)) ≡ some (32 ∷ s)
unfolding skip_word
skip_word-sending s = refl

skip_word-remove_file : (s : Bytes) → skip_word (some (codes "REMOVE_FILE " ++ s)) ≡ some (32 ∷ s)
unfolding skip_word
skip_word-remove_file s = refl

-- If the name of the directory is a word, the client reads from a SENDING line the directory, the
-- numbers and the two sizes that the server put there.
pub scan_sending-sending_text :
    (old tr : TrInfo) (a b : ℤ)
    → IsWord tr.d.first
    → scan_sending old (with_sizes (sending_text tr) a b) ≡ record {
      first = some tr.d.first;
      tr = record { f = tr.f; d = record (old.d) { first = tr.d.first; logger_n = tr.d.logger_n } };
      orig_len = some a;
      rec_len = some b;
    }
unfolding sending_text scan_sending
scan_sending-sending_text old tr a b h = simp append_assoc (
    rw skip_word-sending (
      rw (
        scan_word-word tr.d.first _ h refl,
        scan_d-fmt_d tr.d.logger_n _ refl,
        scan_d-fmt_d tr.f.first _ refl,
        scan_d-fmt_d tr.f.last _ refl,
        scan_d-fmt_d tr.f.count _ refl,
        scan_d-fmt_d a _ refl,
        scan_d-fmt_d_end b,
      )))

-- The line of a REMOVE_FILE command without its newline.
abbrev pub remove_file_line : TrInfo → Bytes
remove_file_line tr =
    codes "REMOVE_FILE " ++ (tr.d.first ++ (32 ∷ (fmt_d tr.d.logger_n ++ (32 ∷ fmt_d tr.f.first))))

pub remove_file_command-line :
    (tr : TrInfo) → remove_file_command tr ≡ remove_file_line tr ++ (b'\n' ∷ [])
unfolding remove_file_command
remove_file_command-line tr = simp append_assoc

pub scan_remove_file-line :
    (tr : TrInfo)
    → IsWord tr.d.first
    → scan_remove_file (remove_file_line tr) ≡ record {
      timestamp = some tr.d.first;
      logger_n = some tr.d.logger_n;
      file_number = some tr.f.first;
    }
unfolding scan_remove_file
scan_remove_file-line tr h = rw skip_word-remove_file (
    rw (
      scan_word-word tr.d.first _ h refl,
      scan_d-fmt_d tr.d.logger_n _ refl,
      scan_d-fmt_d_end tr.f.first,
    ))

-- If the name of the directory is a word, a REMOVE_FILE command of the client is one line, from
-- which the server reads the directory, the number of the logger and the number of the file that
-- the client put there.
pub scan_remove_file-remove_file_command :
    (tr : TrInfo)
    → IsWord tr.d.first
    → (line : Bytes) × (remove_file_command tr ≡ line ++ (b'\n' ∷ []))
      × (scan_remove_file line ≡ record {
        timestamp = some tr.d.first;
        logger_n = some tr.d.logger_n;
        file_number = some tr.f.first;
      })
scan_remove_file-remove_file_command tr h =
    (remove_file_line tr, remove_file_command-line tr, scan_remove_file-line tr h)

skip_word-requested :
    (s : Bytes)
    → skip_word (some (codes "SENDING REQUESTED " ++ s)) ≡ some (codes " REQUESTED " ++ s)
unfolding skip_word
skip_word-requested s = refl

skip_word-requested_next : (s : Bytes) → skip_word (some (codes " REQUESTED " ++ s)) ≡ some (32 ∷ s)
unfolding skip_word
skip_word-requested_next s = refl

skip_word-word :
    (word rest : Bytes)
    → IsWord word
    → IsBreak rest
    → skip_word (some (32 ∷ (word ++ rest))) ≡ some rest
unfolding skip_word
skip_word-word word rest h k = ap (λ (r : Scanned Bytes). r.1) (scan_word-word word rest h k)

-- If the path is a word, the client reads from the answer to SEND_FILE the two sizes that the
-- server put there.
pub scan_sizes-requested :
    (path : Bytes) (a b : ℤ)
    → IsWord path
    → scan_sizes (with_sizes (codes "SENDING REQUESTED " ++ path) a b) ≡ (some a, some b)
unfolding scan_sizes
scan_sizes-requested path a b h = rw (
  skip_word-requested,
  skip_word-requested_next,
  skip_word-word path _ h refl,
  scan_d-fmt_d a _ refl,
  scan_d-fmt_d_end b,
)
