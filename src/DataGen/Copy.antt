-- ===== src/DataGen/Copy.antt =====
-- data_generation/voxl-logger_lib.c: copying files line by line.
pub mod Copies
use study_and_development_of.Base.{
  ℕ, ◌-◌, ℤ, pos, negsuc, is_pos, is_neg, Bytes, List, [], ◌∷◌, ◌++◌, codes, c_str, not, Option,
  none, some, if◌then◌else◌,
}
use study_and_development_of.Libc.Format.{fmt_04d, snprintf}
use study_and_development_of.Libc.Fgets.{fgets_all}
use study_and_development_of.World.{Prog, ◌>>=◌, ◌>>◌, pure, gets, World}

abbrev pub max_line_len : ℕ
max_line_len = 512

abbrev pub max_path_len : ℕ
max_path_len = 512

abbrev pub source_dir : Bytes
source_dir = codes "reference_data"

abbrev pub out_dir : Bytes
out_dir = codes "generated_data"

-- "%s/%s/voxl-logger/log%04d", with OUT_DIR
unfoldable pub out_log_dir : Bytes → ℤ → Bytes
unfolding fmt_04d
out_log_dir timestamp n = out_dir ++ (b'/' ∷ (timestamp ++ (codes "/voxl-logger/log" ++ fmt_04d n)))

unfoldable pub other_n : ℤ → ℤ
other_n logger_n = if is_pos logger_n 0 then pos 1 else pos 0

module _ {S : Type 0} (w : World S) where
  -- fputs writes a string, so what follows a NUL in the line is lost.
  unfoldable pub put_lines : Bytes → List Bytes → Prog S ℤ
  put_lines out [] = pure (pos 0)
  put_lines out (line ∷ lines) = w.fputs out (c_str line) >> put_lines out lines

  -- What fgets reads of the source once both files are open: opening the copy truncates it, so a file
  -- that is copied to itself has nothing left to read.
  abbrev pub source_bytes : Option Bytes → Bytes
  source_bytes none = []
  source_bytes (some contents) = contents

  -- The source file has been opened, or not.
  abbrev pub copy_opened : Bytes → Bytes → Option Bytes → Prog S ℤ
  copy_opened input out none = pure (negsuc 0)
  copy_opened input out (some _) = w.fopen_write out >>= λ opened.
      if opened
      then (gets (w.fopen_read input) >>= λ now.
          put_lines out (fgets_all (max_line_len - 1) (source_bytes now)))
      else pure (negsuc 1)

  unfoldable pub copy_file : Bytes → Bytes → Prog S ℤ
  unfolding put_lines
  copy_file input out = gets (w.fopen_read input) >>= copy_opened input out

  -- One of the four copies of CopyOtherFiles.
  abbrev pub copy_then : Bytes → Bytes → Prog S ℤ → Prog S ℤ
  copy_then input out next =
      copy_file (snprintf max_path_len (source_dir ++ input)) (snprintf max_path_len out) >>= λ ret.
      if is_neg ret then pure (negsuc 0) else next

  unfoldable pub copy_other_files : Bytes → ℤ → Prog S ℤ
  unfolding copy_file out_log_dir other_n
  copy_other_files timestamp logger_n =
      let log = out_log_dir timestamp logger_n in
      let other = out_log_dir timestamp (other_n logger_n) in
      copy_then (codes "/pcd_data/data.csv") (log ++ codes "/run/mpa/tof/data.csv") (
        copy_then (codes "/pcd_data/info.json") (log ++ codes "/info.json") (
          copy_then (codes "/other_data/data.csv")
            (other ++ codes "/run/mpa/vvpx4_body_wrt_local/data.csv")
            (copy_then (codes "/other_data/info.json") (other ++ codes "/info.json")
              (pure (pos 0)))))
