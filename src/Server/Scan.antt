-- ===== src/Server/Scan.antt =====
-- What to send next, in app/server/server_lib.c: the oldest directory and its lowest file.
pub mod Files
pub mod Orders
pub mod Numbers
pub mod Next
pub mod Dirs
use study_and_development_of.Base.{
  ℕ, ◌^◌, ◌-◌, ◌||◌, ℤ, pos, negsuc, ltb_ℤ, is_pos, is_neg, inc, Bytes, List, [], ◌∷◌, ◌++◌, codes,
  Bool, true, false, ◌&&◌, not, Option, none, some, equal, starts_with, take, if◌then◌else◌,
}
use study_and_development_of.Libc.Format.{fmt_04d, snprintf}
use study_and_development_of.Libc.Scan.{scan_d, skip_until, literal, assigned}
use study_and_development_of.World.{World, Tm, Opened, entries, enoent, unreadable}
use study_and_development_of.Common.Paths.{dir_exists}
use study_and_development_of.Common.Info.{timestamp_len, NextFile, NextDir, TrInfo}

abbrev pub max_path_len : ℕ
max_path_len = 256

-- "%s/%s/voxl-logger/log%04d"
unfoldable pub log_dir : Bytes → Bytes → ℤ → Bytes
unfolding fmt_04d
log_dir dir_name timestamp n =
    dir_name ++ (b'/' ∷ (timestamp ++ (codes "/voxl-logger/log" ++ fmt_04d n)))

-- "%s/%s/voxl-logger/log%04d/run/mpa/tof"
unfoldable pub tof_dir : Bytes → Bytes → ℤ → Bytes
unfolding log_dir
tof_dir dir_name timestamp n = log_dir dir_name timestamp n ++ codes "/run/mpa/tof"

-- strncpy(nd->first, name, TIMESTAMP_LEN): a name of sixteen bytes or more is cut, with no NUL.
abbrev pub copy_name : Bytes → Bytes
copy_name name = take timestamp_len name

-- The two tests on "." cover ".." as well.
abbrev pub is_hidden : Bytes → Bool
is_hidden name = starts_with (codes ".") name

-- The files that FindNextFile counts.
abbrev pub is_data_name : Bytes → Bool
is_data_name name =
    not (equal name (codes "data.csv"))
    && (not (is_hidden name) && not (starts_with (codes "..") name))

-- The entries that FindFirstDir counts: it does not test whether they are directories.
abbrev pub is_dir_name : Bytes → Bool
is_dir_name name = not (is_hidden name) && not (starts_with (codes "..") name)

-- The variables of the loop of FindFirstDir.
pub record DirScan : Type 0 where
  pub nd : NextDir
  pub ts_first : ℤ
  pub ts_last : ℤ

-- What %d stores, where it converts: a number that is no `int` is undefined.
abbrev pub as_int : Option ℤ → Option ℤ
as_int none = none
as_int (some z) =
    if ltb_ℤ z (negsuc (2 ^ 31 - 1)) || not (ltb_ℤ z (pos (2 ^ 31))) then none else some z

-- sscanf(filename, "%*[^_]_%d.%*s", &n)
unfoldable pub file_number : Bytes → Option ℤ
file_number filename = as_int (scan_d (literal b'_' (skip_until b'_' (some filename)))).0

-- `junk` is what `n` holds before.
unfoldable pub extract_file_number : ℤ → Bytes → ℤ
unfolding file_number
extract_file_number junk filename = assigned (file_number filename) junk

module _ {S : Type 0} (w : World S) where
  -- The body of the loop over the entries.
  unfoldable pub file_step : NextFile → Bytes → NextFile
  file_step f name =
      let tmp = extract_file_number (w.junk_number f.count name) name in
      if not (is_data_name name)
      then f
      else if is_pos f.count 0
      then record { first = tmp; last = tmp; count = inc f.count }
      else record {
        first = if ltb_ℤ tmp f.first then tmp else f.first;
        last = if ltb_ℤ f.last tmp then tmp else f.last;
        count = inc f.count;
      }

  unfoldable pub file_loop : NextFile → List Bytes → NextFile
  unfolding file_step
  file_loop f [] = f
  file_loop f (name ∷ names) = file_loop (file_step f name) names

  -- If the directory does not open the structure is left as it was.
  unfoldable pub scan_files : NextFile → Opened → NextFile
  unfolding file_loop
  scan_files f (entries names) = file_loop (record f { count = pos 0 }) names
  scan_files f _ = f

  unfoldable pub find_next_file : NextFile → Bytes → S → NextFile
  unfolding scan_files
  find_next_file f path s = scan_files f (w.opendir path s)

  abbrev pub made_time : Option Tm → ℤ → ℤ
  made_time (some tm) isdst = w.mktime tm isdst
  made_time none isdst = negsuc 0

  unfoldable pub string_to_time : Bytes → ℤ
  string_to_time text = made_time (w.strptime text) (w.junk_isdst text)

  unfoldable pub dir_step : DirScan → Bytes → DirScan
  dir_step l name =
      let ts_tmp = string_to_time name in
      if not (is_dir_name name)
      then l
      else if is_pos l.nd.count 0
      then record {
        nd = record (l.nd) {
          first = copy_name name;
          last = copy_name name;
          count = inc l.nd.count;
        };
        ts_first = ts_tmp;
        ts_last = ts_tmp;
      }
      else record {
        nd = record (l.nd) {
          first = if ltb_ℤ ts_tmp l.ts_first then copy_name name else l.nd.first;
          last = if ltb_ℤ l.ts_last ts_tmp then copy_name name else l.nd.last;
          count = inc l.nd.count;
        };
        ts_first = if ltb_ℤ ts_tmp l.ts_first then ts_tmp else l.ts_first;
        ts_last = if ltb_ℤ l.ts_last ts_tmp then ts_tmp else l.ts_last;
      }

  unfoldable pub dir_loop : DirScan → List Bytes → DirScan
  unfolding dir_step
  dir_loop l [] = l
  dir_loop l (name ∷ names) = dir_loop (dir_step l name) names

  unfoldable pub scan_dirs : NextDir → Opened → NextDir
  unfolding dir_loop
  scan_dirs nd (entries names) =
      (dir_loop
        (record { nd = record nd { count = pos 0 }; ts_first = w.junk_int; ts_last = w.junk_int })
        names).nd
  scan_dirs nd _ = nd

  unfoldable pub find_first_dir : NextDir → Bytes → S → NextDir
  unfolding scan_dirs
  find_first_dir nd dir_name s = scan_dirs nd (w.opendir dir_name s)

  -- The value, and the structure afterwards.
  unfoldable pub find_lidar_data_info : NextDir → Bytes → S → ℤ × NextDir
  unfolding find_first_dir dir_exists tof_dir
  find_lidar_data_info nd0 dir_name s =
      let nd = find_first_dir nd0 dir_name s in
      if is_pos nd.count 0
      then (pos 0, nd)
      else if is_pos (dir_exists w (snprintf max_path_len (tof_dir dir_name nd.first (pos 0))) s) 1
      then (pos 0, record nd { logger_n = pos 0 })
      else if is_pos (dir_exists w (snprintf max_path_len (tof_dir dir_name nd.first (pos 1))) s) 1
      then (pos 0, record nd { logger_n = pos 1 })
      else (negsuc 0, nd)

  unfoldable pub with_next_file : TrInfo → Bytes → ℤ × NextDir → S → ℤ × TrInfo
  unfolding find_next_file
  with_next_file tr dir_name (ret, d) s =
      if is_neg ret
      then (negsuc 0, record tr { d = d })
      else let path = snprintf max_path_len (tof_dir dir_name d.first d.logger_n) in
        (w.junk_int, record { d = d; f = find_next_file tr.f path s })

  -- On success control reaches the end of the function with no `return`, so that its caller sees
  -- an unspecified value. The branch that returns -2 is dead: FindNextFile returns 0 on every path.
  unfoldable pub find_next_tr : TrInfo → Bytes → S → ℤ × TrInfo
  unfolding with_next_file find_lidar_data_info
  find_next_tr tr dir_name s = with_next_file tr dir_name (find_lidar_data_info tr.d dir_name s) s
