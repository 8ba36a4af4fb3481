-- ===== src/Wire/Removal.antt =====
-- REMOVE_FILE after SENDING: RemoveFile removes the file that SendNext has sent.
use study_and_development_of.Base.{
  ℕ, ◌<◌, ◌≡◌, refl, ◌∙◌, pos, Bytes, [], ◌∷◌, ◌++◌, some, length, lt→ltb,
}
use study_and_development_of.Libc.Format.{snprintf}
use study_and_development_of.Libc.RoundTrip.{IsWord}
use study_and_development_of.World.{done, World, bind-done}
use study_and_development_of.Common.Info.{timestamp_len, TrInfo}
use study_and_development_of.Server.Logger.{reply, store_word}
use study_and_development_of.Server.Scan.{max_path_len}
use study_and_development_of.Server.Transfer.{data_file}
use study_and_development_of.Server.Remove.{scan_remove_file, removed_text, remove_file}
use study_and_development_of.Client.Transmission.{remove_file_command}
use study_and_development_of.Wire.Messages.{scan_remove_file-remove_file_command}

module _ {S : Type 0} (w : World S) where
  store_word-fits_array :
      (size : ℕ) (word : Bytes) (s : S)
      → length word < size
      → store_word w size (some word) s ≡ done word s
  unfolding store_word
  store_word-fits_array size word s h = rw (lt→ltb (length word) size h) refl

  -- With the arguments scanned, the file of these numbers is removed, and the answer says so.
  pub remove_file-scanned :
      (line dir : Bytes) (tr : TrInfo) (s t : S)
      → length tr.d.first < timestamp_len
      → scan_remove_file line ≡ record {
        timestamp = some tr.d.first;
        logger_n = some tr.d.logger_n;
        file_number = some tr.f.first;
      }
      → w.remove (snprintf max_path_len (data_file dir tr.d.first tr.d.logger_n tr.f.first)) s
        ≡ done (pos 0) t
      → remove_file w line dir s ≡ reply w (removed_text tr.f.first tr.d.first) (pos 0) t
  unfolding remove_file
  remove_file-scanned line dir tr s t fits scanned removed = rw scanned (
      bind-done (store_word w timestamp_len (some tr.d.first)) _
        (store_word-fits_array timestamp_len tr.d.first s fits)
      ∙ bind-done
          (w.remove (snprintf max_path_len (data_file dir tr.d.first tr.d.logger_n tr.f.first))) _
          removed)

  -- If the name of the directory is a word that fits its array, and the path of the file that
  -- SendNext reads for these numbers can be removed, the line of the client's REMOVE_FILE command
  -- makes RemoveFile remove that path, and the answer names the number of the file and the
  -- directory.
  pub remove_file-sent_file :
      (tr : TrInfo) (dir : Bytes) (s t : S)
      → IsWord tr.d.first
      → length tr.d.first < timestamp_len
      → w.remove (snprintf max_path_len (data_file dir tr.d.first tr.d.logger_n tr.f.first)) s
        ≡ done (pos 0) t
      → (line : Bytes) × (remove_file_command tr ≡ line ++ (b'\n' ∷ []))
        × (remove_file w line dir s ≡ reply w (removed_text tr.f.first tr.d.first) (pos 0) t)
  remove_file-sent_file tr dir s t word fits removed =
      let (line, is_line, scanned) = scan_remove_file-remove_file_command tr word in
      (line, is_line, remove_file-scanned line dir tr s t fits scanned removed)
