-- ===== src/Server/Remove.antt =====
-- Removing what the client has received, in app/server/server_lib.c.
use study_and_development_of.Base.{
  ◌+◌, ℤ, pos, negsuc, is_pos, is_neg, Bytes, ◌∷◌, [], ◌++◌, codes, Option, some, if◌then◌else◌,
}
use study_and_development_of.Libc.Format.{fmt_d, snprintf}
use study_and_development_of.Libc.Scan.{scan_word, skip_word, scan_d, assigned}
use study_and_development_of.World.{Prog, ◌>>=◌, World}
use study_and_development_of.Common.Info.{timestamp_len}
use study_and_development_of.Server.Logger.{store_word, reply, scan_argument}
use study_and_development_of.Server.Scan.{max_path_len}
use study_and_development_of.Server.Transfer.{bufsiz, data_file}

-- The conversions of sscanf(cmd, "%*s %s %d %d", timestamp, &logger_n, &file_number).
pub record RemoveArgs : Type 0 where
  pub timestamp : Option Bytes
  pub logger_n : Option ℤ
  pub file_number : Option ℤ

unfoldable pub scan_remove_file : Bytes → RemoveArgs
scan_remove_file cmd =
    let (timestamp, s1) = scan_word (skip_word (some cmd)) in
    let (logger_n, s2) = scan_d s1 in
    let (file_number, s3) = scan_d s2 in
    record { timestamp = timestamp; logger_n = logger_n; file_number = file_number }

-- "FILE %d, %s REMOVED\n"
unfoldable pub removed_text : ℤ → Bytes → Bytes
removed_text n timestamp =
    codes "FILE " ++ (fmt_d n ++ (codes ", " ++ (timestamp ++ codes " REMOVED\n")))

module _ {S : Type 0} (w : World S) where
  unfoldable pub remove_file : Bytes → Bytes → Prog S ℤ
  unfolding store_word
  remove_file cmd dir_name =
      let args = scan_remove_file cmd in
      store_word w timestamp_len args.timestamp >>= λ timestamp.
      let logger_n = assigned args.logger_n w.junk_int in
      let file_number = assigned args.file_number w.junk_int in
      w.remove (snprintf max_path_len (data_file dir_name timestamp logger_n file_number)) >>= λ rv.
      if is_pos rv 0
      then reply w (removed_text file_number timestamp) (pos 0)
      else reply w (codes "ERROR DELETING FILE\n") (negsuc 0)

  unfoldable pub unlink_cb : Bytes → Prog S ℤ
  unlink_cb fpath = w.remove fpath

  -- Depth first and without following links, by nftw.
  unfoldable pub rmrf : Bytes → Prog S ℤ
  unfolding unlink_cb
  rmrf path = w.nftw path unlink_cb

  unfoldable pub remove_dir : Bytes → Bytes → Prog S ℤ
  unfolding scan_argument rmrf
  remove_dir cmd dir_name = scan_argument w timestamp_len cmd >>= λ timestamp.
      rmrf (snprintf max_path_len (dir_name ++ (b'/' ∷ timestamp))) >>= λ rv.
      if is_neg rv
      then reply w
          (snprintf (bufsiz + 1) (codes "ERROR REMOVING DIR " ++ (timestamp ++ (b'\n' ∷ []))))
          (negsuc 0)
      else reply w (snprintf (bufsiz + 1) (codes "DIR " ++ (timestamp ++ codes " REMOVED\n")))
          (pos 0)
