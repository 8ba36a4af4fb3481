-- ===== src/Server/Scan/Next.antt =====
-- FindNextTr on a disk with one directory, and on a disk with none.
use mathlib.Core.List.{Perm}
use study_and_development_of.Base.{
  ℕ, suc, All, ◌^◌, subst, ◌≡◌, ◌<◌, refl, sym, ◌∙◌, ap, ◌⊎◌, inl, inr, ℤ, pos, is_pos, Bytes, List,
  [], ◌∷◌, length, true, false, arith, take-length_le, Bool-cases,
}
use study_and_development_of.Libc.Format.{snprintf}
use study_and_development_of.World.{World, entries}
use study_and_development_of.Common.Info.{timestamp_len, NextFile, NextDir, TrInfo}
use study_and_development_of.Common.Paths.{dir_exists}
use study_and_development_of.Server.Scan.{
  max_path_len, tof_dir, is_dir_name, DirScan, dir_step, dir_loop, scan_dirs, find_first_dir,
  find_lidar_data_info, find_next_file, with_next_file, find_next_tr,
}
use study_and_development_of.Server.Scan.Files.{data_names}
use study_and_development_of.Server.Scan.Dirs.{
  dir_names, dir_names-dir, dir_names-other, dir_loop-other,
}
use study_and_development_of.Server.Scan.Numbers.{
  named, Ascends, last_of, found_files, find_next_file-Ascends, find_next_file-none,
}

-- The directory where the data of the logger lies, for log0000 and log0001.
abbrev pub tof_path : Bytes → Bytes → ℤ → Bytes
tof_path dir_name d n = snprintf max_path_len (tof_dir dir_name d n)

-- The data of the directory `d` lies in the one of the two that FindLidarDataInfo looks for first.
abbrev pub Lies : {S : Type 0} → World S → Bytes → Bytes → ℤ → S → Type 0
Lies w dir_name d n s =
    (n ≡ pos 0) ⊎ ((n ≡ pos 1) × (is_pos (dir_exists w (tof_path dir_name d (pos 0)) s) 1 ≡ false))

-- What FindNextTr leaves in the structure if `d` is the only directory.
abbrev pub next_tr : Bytes → ℤ → NextFile → TrInfo
next_tr d n f = record { f = f; d = record { first = d; last = d; count = pos 1; logger_n = n } }

module _ {S : Type 0} (w : World S) where
  dir_loop-cons :
      (l : DirScan) (name : Bytes) (names : List Bytes)
      → dir_loop w l (name ∷ names) ≡ dir_loop w (dir_step w l name) names
  unfolding dir_loop
  dir_loop-cons l name names = refl

  dir_loop-dir_names :
      (l : DirScan) (names : List Bytes) → dir_loop w l names ≡ dir_loop w l (dir_names names)
  dir_loop-dir_names l [] = unfold dir_names in refl
  dir_loop-dir_names l (name ∷ names) = elim (Bool-cases (is_dir_name name)) [
    | inl counts ↦ rw (dir_names-dir name names counts) (
        dir_loop-cons l name names
        ∙ dir_loop-dir_names (dir_step w l name) names
        ∙ sym (dir_loop-cons l name (dir_names names)))
    | inr other ↦
        rw (dir_names-other name names other, dir_loop-other w l name names other)
          (dir_loop-dir_names l names)
  ]

  -- What FindFirstDir makes of the structure.
  abbrev only_dir : NextDir → Bytes → NextDir
  only_dir nd d = record nd { first = d; last = d; count = pos 1 }

  find_first_dir-one :
      (nd : NextDir) (dir_name d : Bytes) (s : S) (tops : List Bytes)
      → w.opendir dir_name s ≡ entries tops
      → dir_names tops ≡ d ∷ []
      → is_dir_name d ≡ true
      → length d < timestamp_len
      → find_first_dir w nd dir_name s ≡ only_dir nd d
  unfolding find_first_dir scan_dirs dir_loop dir_step
  find_first_dir-one nd dir_name d s tops opened one counts short = rw opened (
      ap (λ (l : DirScan). l.nd) (dir_loop-dir_names _ tops)
      ∙ rw one (rw counts (rw (take-length_le d timestamp_len (omega arith)) refl)))

  find_first_dir-none :
      (nd : NextDir) (dir_name : Bytes) (s : S) (tops : List Bytes)
      → w.opendir dir_name s ≡ entries tops
      → dir_names tops ≡ []
      → find_first_dir w nd dir_name s ≡ record nd { count = pos 0 }
  unfolding find_first_dir scan_dirs dir_loop
  find_first_dir-none nd dir_name s tops opened none_left =
      rw opened (ap (λ (l : DirScan). l.nd) (dir_loop-dir_names _ tops) ∙ rw none_left refl)

  lidar_data : NextDir → Bytes → ℤ → NextDir
  lidar_data nd d n = record nd { first = d; last = d; count = pos 1; logger_n = n }

  dir_exists-entries :
      (path : Bytes) (s : S) (xs : List Bytes)
      → w.opendir path s ≡ entries xs
      → dir_exists w path s ≡ pos 1
  unfolding dir_exists
  dir_exists-entries path s xs opened = rw (opened, dir_exists) refl

  find_lidar_data_info-one :
      (nd : NextDir) (dir_name d : Bytes) (n : ℤ) (s : S) (xs : List Bytes)
      → find_first_dir w nd dir_name s ≡ only_dir nd d
      → Lies w dir_name d n s
      → w.opendir (tof_path dir_name d n) s ≡ entries xs
      → find_lidar_data_info w nd dir_name s ≡ (pos 0, lidar_data nd d n)
  unfolding find_lidar_data_info lidar_data
  find_lidar_data_info-one nd dir_name d n s xs found (inl first) opened =
      let there =
        dir_exists-entries (tof_path dir_name d (pos 0)) s xs
          (subst (λ m. w.opendir (tof_path dir_name d m) s ≡ entries xs) first opened) in
      rw found (rw there (rw first refl))
  find_lidar_data_info-one nd dir_name d n s xs found (inr (second, missing)) opened =
      let there =
        dir_exists-entries (tof_path dir_name d (pos 1)) s xs
          (subst (λ m. w.opendir (tof_path dir_name d m) s ≡ entries xs) second opened) in
      rw found (rw (missing, there) (rw second refl))

  -- One directory is there, with files.
  pub find_next_tr-files :
      (tr0 : TrInfo) (dir_name d : Bytes) (n : ℤ) (s : S) (tops xs : List Bytes) (i : ℕ)
      (is : List ℕ)
      → w.opendir dir_name s ≡ entries tops
      → dir_names tops ≡ d ∷ []
      → is_dir_name d ≡ true
      → length d < timestamp_len
      → Lies w dir_name d n s
      → w.opendir (tof_path dir_name d n) s ≡ entries xs
      → Perm (data_names xs) (named (i ∷ is))
      → Ascends i is
      → All (λ j. j < 2 ^ 31) (i ∷ is)
      → find_next_tr w tr0 dir_name s
        ≡ (w.junk_int, next_tr d n (found_files i (last_of i is) (suc (length is))))
  unfolding find_next_tr with_next_file lidar_data
  find_next_tr-files tr0 dir_name d n s tops xs i is top one counts short lies opened same up
        small =
      rw
        (find_lidar_data_info-one tr0.d dir_name d n s xs
          (find_first_dir-one tr0.d dir_name d s tops top one counts short) lies opened)
        (ap (λ f. (w.junk_int, next_tr d n f))
          (find_next_file-Ascends w tr0.f (tof_path dir_name d n) s xs i is opened same up small))

  -- One directory is there, with no files.
  pub find_next_tr-none :
      (tr0 : TrInfo) (dir_name d : Bytes) (n : ℤ) (s : S) (tops xs : List Bytes)
      → w.opendir dir_name s ≡ entries tops
      → dir_names tops ≡ d ∷ []
      → is_dir_name d ≡ true
      → length d < timestamp_len
      → Lies w dir_name d n s
      → w.opendir (tof_path dir_name d n) s ≡ entries xs
      → data_names xs ≡ []
      → find_next_tr w tr0 dir_name s ≡ (w.junk_int, next_tr d n (record (tr0.f) { count = pos 0 }))
  unfolding find_next_tr with_next_file lidar_data
  find_next_tr-none tr0 dir_name d n s tops xs top one counts short lies opened none_left =
      rw
        (find_lidar_data_info-one tr0.d dir_name d n s xs
          (find_first_dir-one tr0.d dir_name d s tops top one counts short) lies opened)
        (ap (λ f. (w.junk_int, next_tr d n f))
          (find_next_file-none w tr0.f (tof_path dir_name d n) s xs opened none_left))

  -- No directory is there: what is found of files does not matter.
  pub find_next_tr-no_dir :
      (tr0 : TrInfo) (dir_name : Bytes) (s : S) (tops : List Bytes)
      → w.opendir dir_name s ≡ entries tops
      → dir_names tops ≡ []
      → (f : NextFile) × (find_next_tr w tr0 dir_name s
          ≡ (w.junk_int, record { f = f; d = record (tr0.d) { count = pos 0 } }))
  unfolding find_next_tr with_next_file find_lidar_data_info
  find_next_tr-no_dir tr0 dir_name s tops top none_left = (
    find_next_file w tr0.f (tof_path dir_name tr0.d.first tr0.d.logger_n) s,
    rw (find_first_dir-none tr0.d dir_name s tops top none_left) refl,
  )
