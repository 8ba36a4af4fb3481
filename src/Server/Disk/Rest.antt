-- ===== src/Server/Disk/Rest.antt =====
-- The remaining files of the directory, and its removal.
use study_and_development_of.Base.{
  ℕ, ◌+◌, ◌/◌, ◌<◌, ◌≡◌, refl, ◌∙◌, ap, pos, Bytes, ◌∷◌, ◌++◌, codes, length, length-append, arith,
  some,
}
use study_and_development_of.Libc.Format.{fmt_d, snprintf, snprintf-fits}
use study_and_development_of.Libc.Scan.{skip_word}
use study_and_development_of.Libc.RoundTrip.{IsWord, scan_word-word_end}
use study_and_development_of.World.{World, done, bind-done}
use study_and_development_of.Common.Info.{timestamp_len, TrInfo}
use study_and_development_of.Server.Logger.{scan_argument}
use study_and_development_of.Server.Logger.Commands.{store_word-fits, proc_number-idle}
use study_and_development_of.Server.Scan.{max_path_len}
use study_and_development_of.Server.Scan.Next.{find_next_tr-no_dir}
use study_and_development_of.Server.Transfer.{
  bufsiz, data_dir, compress_and_send, decide_next, send_decided, send_next, send_file,
}
use study_and_development_of.Server.Transfer.Emits.{
  with_sizes, transfer, SendsAll, Compresses, compress_and_send-transfer,
}
use study_and_development_of.Server.Transfer.Next.{send_next-decides}
use study_and_development_of.Server.Remove.{unlink_cb, rmrf, remove_dir}
use study_and_development_of.Server.Disk.{Duplex, Named, Leftovers}
use study_and_development_of.Server.Frame.{send_next-Keeps}

-- The path of a file that is asked for by name.
abbrev pub asked_path : Bytes → Bytes
asked_path rel = snprintf max_path_len (data_dir ++ (b'/' ∷ rel))

abbrev pub dir_removed : Bytes → Bytes
dir_removed d = codes "DIR " ++ (d ++ codes " REMOVED\n")

skip_word-send_file : (s : Bytes) → skip_word (some (codes "SEND_FILE " ++ s)) ≡ some (32 ∷ s)
unfolding skip_word
skip_word-send_file s = refl

skip_word-remove_dir : (s : Bytes) → skip_word (some (codes "REMOVE_DIR " ++ s)) ≡ some (32 ∷ s)
unfolding skip_word
skip_word-remove_dir s = refl

module _ {S : Type 0} (w : World S) where
  scan_argument-send_file :
      (size : ℕ) (word : Bytes) (s : S)
      → IsWord word
      → length word < size
      → scan_argument w size (codes "SEND_FILE " ++ word) s ≡ done word s
  unfolding scan_argument
  scan_argument-send_file size word s h fits =
      rw skip_word-send_file (rw (scan_word-word_end word h) (store_word-fits w size word s fits))

  scan_argument-remove_dir :
      (size : ℕ) (word : Bytes) (s : S)
      → IsWord word
      → length word < size
      → scan_argument w size (codes "REMOVE_DIR " ++ word) s ≡ done word s
  unfolding scan_argument
  scan_argument-remove_dir size word s h fits =
      rw skip_word-remove_dir (rw (scan_word-word_end word h) (store_word-fits w size word s fits))

  module _ (sent : S → Bytes) (net : SendsAll w sent) where
    -- SEND_FILE for a file that can be read.
    pub send_file-transfer :
        (rel contents out : Bytes) (s : S)
        → IsWord rel
        → length rel < max_path_len / 2
        → Compresses w (asked_path rel) contents out s
        → length (
            with_sizes
              (codes "SENDING REQUESTED " ++ asked_path rel)
              (pos (length contents))
              (pos (length out)))
          < bufsiz
        → (t : S) × (send_file w (codes "SEND_FILE " ++ rel) s ≡ done (pos 0) t)
          × (compress_and_send w (asked_path rel) (codes "SENDING REQUESTED " ++ asked_path rel) s
              ≡ done (pos 0) t)
          × (sent t
              ≡ sent s
                ++ transfer (codes "SENDING REQUESTED " ++ asked_path rel) (length contents) out)
    unfolding send_file
    send_file-transfer rel contents out s word short readable fits =
        let header = codes "SENDING REQUESTED " ++ asked_path rel in
        let (t, run, went) =
          compress_and_send-transfer w sent net (asked_path rel) header contents out s readable
            fits in
        let whole : length header < bufsiz + 1 = omega (
          arith,
          length-append header
              (32 ∷ (fmt_d (pos (length contents)) ++ (32 ∷ fmt_d (pos (length out))))),
        ) in
        (
          t,
          bind-done (scan_argument w (max_path_len / 2) (codes "SEND_FILE " ++ rel)) _
                (scan_argument-send_file (max_path_len / 2) rel s word short)
              ∙ rw (snprintf-fits (bufsiz + 1) header whole)
                  (bind-done (compress_and_send w (asked_path rel) header) _ run),
          run,
          went,
        )

    -- REMOVE_DIR for a directory that nftw removes.
    pub remove_dir-removed :
        (d : Bytes) (s t : S)
        → IsWord d
        → length d < timestamp_len
        → w.nftw (asked_path d) (unlink_cb w) s ≡ done (pos 0) t
        → remove_dir w (codes "REMOVE_DIR " ++ d) data_dir s
          ≡ done (pos 0) (net.after (dir_removed d) t)
    unfolding remove_dir rmrf
    remove_dir-removed d s t word short removed =
        bind-done (scan_argument w timestamp_len (codes "REMOVE_DIR " ++ d)) _
          (scan_argument-remove_dir timestamp_len d s word short)
        ∙ bind-done (w.nftw (asked_path d) (unlink_cb w)) _ removed
        ∙ rw
            (snprintf-fits (bufsiz + 1) (dir_removed d)
              (omega (arith, length-append d (codes " REMOVED\n"))))
            (bind-done (w.tcp_send (dir_removed d)) _ (net.text (dir_removed d) t))

    -- SendNext on a disk with no directory.
    pub send_next-gone :
        (unread : S → Bytes) (logger_name path d : Bytes) (Stocked : S → Type 0)
        (left : Leftovers w unread sent logger_name data_dir path Stocked)
        → Named w d
        → Duplex w unread sent
        → (tr0 : TrInfo) (s : S) → left.Gone s
        → (t : S) × (send_next w tr0 logger_name data_dir s ≡ done (pos 0) t)
          × left.Gone t
          × (sent t ≡ sent s ++ codes "NO_TR\n")
          × (unread t ≡ unread s)
    unfolding send_decided decide_next
    send_next-gone unread logger_name path d Stocked left names duplex tr0 s gone =
        let (tops, top, none_left) = left.tops s gone in
        let (u, polled, sent1) = left.idle s gone in
        let (f, found) = find_next_tr-no_dir w tr0 data_dir s tops top none_left in
        let tr : TrInfo = record { f = f; d = record (tr0.d) { count = pos 0 } } in
        let text = codes "NO_TR\n" in
        let run : send_next w tr0 logger_name data_dir s ≡ done (pos 0) (net.after text u) =
          send_next-decides w tr0 tr logger_name data_dir w.junk_int (pos 0) s u found names.no_dir
            names.no_file (proc_number-idle w logger_name s u polled) refl
          ∙ bind-done (w.tcp_send text) _ (net.text text u) in
        (
          net.after text u,
          run,
          (send_next-Keeps w left.Gone left.quiet tr0 logger_name data_dir).keeps s (pos 0)
              (net.after text u) gone run,
          net.sent-after text u ∙ ap (λ b. b ++ text) sent1,
          (send_next-Keeps w (λ v. unread v ≡ unread s) (duplex.sending (unread s)) tr0 logger_name
                data_dir).keeps
              s (pos 0) (net.after text u) refl run,
        )
