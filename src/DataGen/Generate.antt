-- ===== src/DataGen/Generate.antt =====
-- data_generation/voxl-logger.c: the program that plays the logger. The options and the handler of
-- the signals are not modelled: `running` tells whether a signal has come.
use study_and_development_of.Base.{
  ℕ, zero, suc, ◌+◌, ◌%◌, ℤ, pos, is_pos, is_neg, Bytes, ◌++◌, codes, Bool, not, Option, none, some,
  ltb, if◌then◌else◌,
}
use study_and_development_of.Libc.Format.{fmt_d, snprintf}
use study_and_development_of.World.{Prog, ◌>>=◌, pure, gets, leave, World}
use study_and_development_of.Common.Paths.{make_path}
use study_and_development_of.DataGen.Copy.{
  max_path_len, source_dir, out_log_dir, copy_file, copy_other_files,
}

-- The directory of the PCD data, from `rand()`, and the other one.
unfoldable pub choose_dirs : ℕ → ℤ × ℤ
choose_dirs rand = if ltb 50 (rand % 100) then (pos 1, pos 0) else (pos 0, pos 1)

module _ {S : Type 0} (w : World S) (running : S → Bool) where
  -- The generation: the number of files written, or `none` if the rounds given were too few.
  unfoldable pub generate : ℕ → Bytes → ℤ → ℕ → Prog S (Option ℕ)
  generate zero timestamp pcd_data_n cnt = pure none
  generate (suc rounds) timestamp pcd_data_n cnt = gets running >>= λ go.
      let in_path =
        snprintf max_path_len
          (source_dir ++ (codes "/pcd_data/data_" ++ (fmt_d (pos cnt) ++ codes ".pcd"))) in
      let out_path = snprintf max_path_len (
        out_log_dir timestamp pcd_data_n
        ++ (codes "/run/mpa/tof/data_" ++ (fmt_d (pos cnt) ++ codes ".pcd"))) in
      let same = generate rounds timestamp pcd_data_n cnt in
      let next = generate rounds timestamp pcd_data_n (cnt + 1) in
      if not go
      then pure (some cnt)
      else (gets (w.access in_path) >>= λ there.
          if not there
          then same
          else (copy_file w in_path out_path >>= λ ret. if is_neg ret then leave (pos 1) else next))

  abbrev pub make_out : Bytes → Prog S (Option ℤ) → Prog S (Option ℤ)
  make_out path next = make_path w max_path_len (snprintf max_path_len path) >>= λ ret.
      if is_pos ret 0 then next else pure (some (pos 1))

  -- main, behind the options: the exit status, or `none` if the rounds given were too few.
  unfoldable pub run_logger : ℕ → Bytes → ℕ → Prog S (Option ℤ)
  unfolding choose_dirs generate copy_other_files make_path
  run_logger rounds timestamp rand =
      let (pcd_data_n, other_data_n) = choose_dirs rand in
      make_out (out_log_dir timestamp pcd_data_n ++ codes "/run/mpa/tof") (
        make_out (out_log_dir timestamp other_data_n ++ codes "/run/mpa/vvpx4_body_wrt_local") (
          generate rounds timestamp pcd_data_n 0 >>= λ cnt. elim cnt [
            | none ↦ pure none
            | some n ↦ copy_other_files w timestamp pcd_data_n >>= λ ret.
                pure (some (if is_neg ret then pos 1 else pos 0))
          ]))
