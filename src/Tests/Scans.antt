-- ===== src/Tests/Scans.antt =====
-- The scans of a directory at concrete inputs.
use mathlib.Core.List.{Perm, perm_middle}
use mathlib.Core.List.Perm
use study_and_development_of.Base.{
  ◌≡◌, refl, pos, ◌≤ℤ◌, ap, pos_part, ◌≢◌, Bytes, List, [], ◌∷◌, All, codes, arith, starts_with,
  equal,
}
use study_and_development_of.Libc.Scan.{scan_d, skip_until, literal}
use study_and_development_of.World.{entries}
use study_and_development_of.Common.Info.{NextFile, NextDir, TrInfo}
use study_and_development_of.Server.Scan.{
  find_next_file, find_first_dir, file_number, file_loop, file_step, scan_files,
}
use study_and_development_of.Server.Scan.Files.{
  number_of, Carries, data_names, Summary, find_next_file-Scanned,
}
use study_and_development_of.Server.Scan.Orders.{find_next_file-order}
use study_and_development_of.Server.Scan.Dirs.{find_first_dir-Scanned}
use study_and_development_of.Server.Transfer.{decide_next}
use study_and_development_of.Server.Transfer.Choice.{sending-lt-last}
use study_and_development_of.Tests.Demo.{Env, demo, idle}

abbrev file_names : List Bytes
file_names = codes "." ∷ codes "data_12.pcd" ∷ codes "data.csv" ∷ codes "data_7.pcd" ∷ []

abbrev with_files : Env
with_files = record idle { dirs = λ path. entries file_names }

abbrev with_dirs : Env
with_dirs = record idle { dirs = λ path. entries (codes "2024" ∷ codes ".." ∷ codes "2023" ∷ []) }

abbrev no_files : NextFile
no_files = record { first = pos 0; last = pos 0; count = pos 0 }

abbrev no_dirs : NextDir
no_dirs = record { first = []; last = []; count = pos 0; logger_n = pos 0 }

-- The names that are counted have numbers.
All-carry : All Carries file_names
unfolding number_of file_number scan_d skip_until literal starts_with equal
All-carry = ((λ e. cc), ((λ e. refl), ((λ e. cc), ((λ e. refl), tt))))

find_next_file-Scanned_example :
    study_and_development_of.Server.Scan.Files.Scanned demo no_files
      (find_next_file demo no_files (codes "tof") with_files)
      (entries file_names)
find_next_file-Scanned_example =
    find_next_file-Scanned demo no_files (codes "tof") with_files All-carry

find_first_dir-Scanned_example :
    study_and_development_of.Server.Scan.Dirs.Scanned demo no_dirs
      (find_first_dir demo no_dirs (codes "data") with_dirs)
      (with_dirs.dirs (codes "data"))
find_first_dir-Scanned_example = find_first_dir-Scanned demo no_dirs (codes "data") with_dirs

-- Files 7 and 12 in the only directory.
abbrev two_files : TrInfo
two_files = record {
  f = find_next_file demo no_files (codes "tof") with_files;
  d = record {
    first = codes "20230405-101112";
    last = codes "20230405-101112";
    count = pos 1;
    logger_n = pos 0;
  };
}

numbers_differ : number_of (codes "data_12.pcd") ≢ number_of (codes "data_7.pcd")
unfolding number_of file_number scan_d skip_until literal
numbers_differ e = omega (arith, ap pos_part e)

sending-lt-last_example : ¬ (two_files.f.last ≤ℤ two_files.f.first)
sending-lt-last_example =
    sending-lt-last demo (pos 1) two_files (data_names file_names)
      (unfold decide_next find_next_file file_loop file_step starts_with equal in refl) refl refl
      (find_next_file-Scanned demo no_files (codes "tof") with_files All-carry)
      (unfold data_names starts_with equal in (((λ e. numbers_differ e), tt), (tt, tt)))

-- The same entries, the first of them last.
abbrev turned_names : List Bytes
turned_names = codes "data_12.pcd" ∷ codes "data.csv" ∷ codes "data_7.pcd" ∷ codes "." ∷ []

abbrev with_turned : Env
with_turned = record idle { dirs = λ path. entries turned_names }

turned : Perm file_names turned_names
turned =
    Perm.symm (perm_middle (codes "data_12.pcd" ∷ codes "data.csv" ∷ codes "data_7.pcd" ∷ []) [])

find_next_file-order_example :
    find_next_file demo no_files (codes "tof") with_files
    ≡ find_next_file demo no_files (codes "tof") with_turned
find_next_file-order_example =
    find_next_file-order demo no_files (codes "tof") with_files with_turned file_names turned_names
      refl refl All-carry turned
