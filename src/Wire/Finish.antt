-- ===== src/Wire/Finish.antt =====
-- The end of a directory: EMPTY, the remaining files, REMOVE_DIR, and the new name of the local
-- directory.
use study_and_development_of.Base.{
  ℕ, ◌<◌, ◌≡◌, ◌≢◌, refl, ◌∙◌, Bytes, List, [], ◌∷◌, ◌++◌, append_assoc, codes, starts_with, c_str,
  length, Option, some, All, true, false, arith,
}
use study_and_development_of.Libc.Format.{fmt_d, snprintf}
use study_and_development_of.Libc.Scan.{scan_word, skip_word}
use study_and_development_of.Libc.RoundTrip.{IsWord, scan_word-word}
use study_and_development_of.World.{World, pure, ◌>>=◌, bind-done}
use study_and_development_of.Common.Info.{timestamp_len, TrInfo}
use study_and_development_of.Common.Stream.{IsStream, Pending}
use study_and_development_of.Common.Stream.Lines.{IsText}
use study_and_development_of.Server.Transfer.{empty_text}
use study_and_development_of.Client.Receive.Stored.{StoresFiles}
use study_and_development_of.Client.Request.{max_rel_path_len, request_all_remaining_files}
use study_and_development_of.Client.Transmission.{
  data_dir, Shared, Local, stored_word, exchange, finish_dir, on_empty,
}
use study_and_development_of.Client.Transmission.Waits.{Sending, exchange_reply}
use study_and_development_of.Wire.Text.{All-IsText-append}
use study_and_development_of.Wire.Fetch.{sprintf-fits}
use study_and_development_of.Wire.Said.{Says, exchange-Tells}
use study_and_development_of.Wire.Remaining.Stored.{request_all_remaining_files-stored}
use study_and_development_of.Wire.Frame.{Untouched, Unmoved}
use study_and_development_of.Wire.Apart.{exchange-Keeps}
use study_and_development_of.Wire.Remaining.{
  Asked, asked_file, asked_answers, asked_commands, rels, remaining_list, AskedFits, AskedApart,
}

-- "EMPTY dir n", "DIR dir REMOVED"
abbrev pub empty_line : TrInfo → Bytes
empty_line tr = codes "EMPTY " ++ (tr.d.first ++ (32 ∷ fmt_d tr.d.logger_n))

abbrev pub dir_removed_line : Bytes → Bytes
dir_removed_line folder = codes "DIR " ++ (folder ++ codes " REMOVED")

-- "rec_data/dir", the directory of the files that are complete.
abbrev pub complete_dir : Bytes → Bytes
complete_dir folder = snprintf max_rel_path_len (data_dir ++ (b'/' ∷ folder))

pub empty_line-text : (tr : TrInfo) → empty_text tr ≡ empty_line tr ++ b'\n' ∷ []
unfolding empty_text
empty_line-text tr = simp append_assoc

empty_line-begins : (tr : TrInfo) → starts_with (codes "EMPTY") (empty_line tr) ≡ true
unfolding starts_with
empty_line-begins tr = refl

skip_word-empty : (s : Bytes) → skip_word (some (codes "EMPTY " ++ s)) ≡ some (32 ∷ s)
unfolding skip_word
skip_word-empty s = refl

removed-error : (folder : Bytes) → starts_with (codes "ERROR") (dir_removed_line folder) ≡ false
unfolding starts_with
removed-error folder = refl

removed-IsText : (folder : Bytes) → All IsText folder → All IsText (dir_removed_line folder)
removed-IsText folder h =
    All-IsText-append (codes "DIR ") _ (omega arith) (All-IsText-append folder _ h (omega arith))

scan_empty :
    (tr : TrInfo)
    → IsWord tr.d.first
    → (scan_word (skip_word (some (empty_line tr)))).0 ≡ some tr.d.first
scan_empty tr word = rw skip_word-empty (rw (scan_word-word tr.d.first _ word refl) refl)

All-kept :
    {A : Type 0} {P Q : A → Type 0} (xs : List A) → ((x : A) → P x → Q x) → All P xs → All Q xs
All-kept [] f h = tt
All-kept (x ∷ xs) f h = (f x h.0, All-kept xs f h.1)

-- The request to remove the directory.
abbrev pub remove_dir_command : Bytes → Bytes
remove_dir_command folder =
    snprintf max_rel_path_len (codes "REMOVE_DIR " ++ (folder ++ (b'\n' ∷ [])))

module _ {S : Type 0} (w : World S) (t : Shared S) (unread : S → Bytes)
    (file : S → Bytes → Option Bytes) (stream : IsStream w unread) (net : Sending w unread)
    (files : StoresFiles w unread file)
    (apart : (name bytes : Bytes) → Untouched w (λ s. file s name ≡ some bytes) name)
    (memory : (n : ℕ) (u : S) → w.malloc n u ≡ true) where
  -- The run, with what it leaves in the array and of the other files.
  pub on_empty_run :
      (tr : TrInfo) (xs : List Asked) (scratch rest : Bytes) (l : Local) (s : S)
      → c_str l.rec ≡ empty_line tr
      → IsWord tr.d.first
      → All IsText tr.d.first
      → length tr.d.first < timestamp_len
      → length (dir_removed_line tr.d.first) < length l.rec
      → rels xs ≡ remaining_list (t.get_tr s).d
      → All (AskedFits w scratch l.transmission_dir) xs
      → AskedApart l.transmission_dir xs
      → All (λ x. files.can_write s (asked_file l.transmission_dir x) ≡ true) xs
      → Pending unread l.b s (asked_answers xs (dir_removed_line tr.d.first ++ b'\n' ∷ rest))
      → (l' : Local) × (u : S) × (on_empty w t scratch l s
          ≡ (w.rename l.transmission_dir (complete_dir tr.d.first) >>= λ _. pure l') u)
        × All (λ x. file u (asked_file l.transmission_dir x) ≡ some x.contents) xs
        × (c_str l'.rec ≡ dir_removed_line tr.d.first)
        × (length l'.rec ≡ length l.rec)
        × ((name bytes : Bytes)
            → All (λ x. asked_file l.transmission_dir x ≢ name) xs
            → file s name ≡ some bytes
            → file u name ≡ some bytes)
        × Says w s u (asked_commands (rels xs) [] ++ remove_dir_command tr.d.first)
        × Unmoved w s u
        × Pending unread l'.b u rest
  unfolding on_empty finish_dir
  on_empty_run tr xs scratch rest l s holds word text short reply order fits differ room p =
      let folder = tr.d.first in
      let dir = l.transmission_dir in
      let d = (t.get_tr s).d in
      let (b1, u1, asked, stored, kept, told, still, p1) =
        request_all_remaining_files-stored w unread file stream net files apart memory d xs scratch
          dir (dir_removed_line folder ++ b'\n' ∷ rest) l.b s order fits differ room p in
      let l1 : Local = record l { b = b1; folder = folder } in
      let cmd = remove_dir_command folder in
      let (b2, array, u2, removed, said, size, p2) =
        exchange_reply w t unread stream net cmd (dir_removed_line folder) rest l1 u1
          (removed-IsText folder text) (omega arith) reply (removed-error folder) p1 in
      (
        record l1 { b = b2; rec = array },
        u2,
        rw holds (
            rw (empty_line-begins tr, scan_empty tr word)
              (bind-done (stored_word w t timestamp_len (some folder) l.folder) _
                  (sprintf-fits w timestamp_len folder s short)
                ∙ bind-done (request_all_remaining_files w scratch l.b d dir) _ asked
                ∙ bind-done (exchange w t cmd l1) _ removed)),
        All-kept xs
            (λ x at_first.
              (exchange-Keeps w t (λ v. file v (asked_file dir x) ≡ some x.contents)
                  (asked_file dir x) (apart (asked_file dir x) x.contents) cmd l1).keeps
                u1 _ u2 at_first removed)
            stored,
        said,
        size,
        (λ name bytes other before.
            (exchange-Keeps w t (λ v. file v name ≡ some bytes) name (apart name bytes) cmd
                l1).keeps
              u1 _ u2 (kept name bytes other before) removed),
        (λ said speaks.
            exchange-Tells w said speaks t cmd l1 (record l1 { b = b2; rec = array }) u1 u2 removed
            ∙ rw (told said speaks) (append_assoc (said s) (asked_commands (rels xs) []) cmd)),
        (λ P h before. (exchange-Keeps w t P [] h cmd l1).keeps u1 _ u2 (still P h before) removed),
        p2,
      )

  -- If the answer is EMPTY with the name and the number of a directory, the connection holds the
  -- transfers of the four remaining files in the order of the requests, the answer to REMOVE_DIR
  -- and any bytes behind it, in packets of any size, the sends succeed, the four files can be
  -- written at the start, only a rename could change that, and files are kept, memory is given,
  -- and names, lines and sizes are within the bounds of the client, the local names being
  -- different, then the branch of EMPTY comes to the renaming of the local directory to its final
  -- name, as its last call, in a state where the four files hold their contents, to which zlib
  -- uncompresses what was sent of them, with the connection behind the answers.
  pub on_empty-finished :
      (tr : TrInfo) (xs : List Asked) (scratch rest : Bytes) (l : Local) (s : S)
      → c_str l.rec ≡ empty_line tr
      → IsWord tr.d.first
      → All IsText tr.d.first
      → length tr.d.first < timestamp_len
      → length (dir_removed_line tr.d.first) < length l.rec
      → rels xs ≡ remaining_list (t.get_tr s).d
      → All (AskedFits w scratch l.transmission_dir) xs
      → AskedApart l.transmission_dir xs
      → All (λ x. files.can_write s (asked_file l.transmission_dir x) ≡ true) xs
      → Pending unread l.b s (asked_answers xs (dir_removed_line tr.d.first ++ b'\n' ∷ rest))
      → (l' : Local) × (u : S) × (on_empty w t scratch l s
          ≡ (w.rename l.transmission_dir (complete_dir tr.d.first) >>= λ _. pure l') u)
        × All (λ x. file u (asked_file l.transmission_dir x) ≡ some x.contents) xs
        × Pending unread l'.b u rest
  on_empty-finished tr xs scratch rest l s holds word text short reply order fits differ room p =
      let (l', u, run, stored, said, size, kept, told, still, p') =
        on_empty_run tr xs scratch rest l s holds word text short reply order fits differ room p in
      (l', u, run, stored, p')
