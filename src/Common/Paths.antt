-- ===== src/Common/Paths.antt =====
-- MakePath and DirExists, which app/client/client_lib.c and data_generation/voxl-logger_lib.c (and,
-- for DirExists, app/server/server_lib.c) define alike.
pub mod Makes
use study_and_development_of.Base.{
  ℕ, ◌+◌, ℤ, pos, negsuc, Bytes, [], ◌∷◌, ◌++◌, length, leb, ◌==◌, if◌then◌else◌,
}
use study_and_development_of.World.{
  Prog, overflow, ◌>>=◌, pure, World, created, exists, failed, entries, enoent, unreadable,
}

module _ {S : Type 0} (w : World S) where
  -- mkdir(tmp, perm), where a directory that exists is no error. The NULs behind `tmp` are at the
  -- indices up to `last_nul`, in an array of `size` bytes.
  unfoldable pub try_mkdir : ℕ → ℕ → Bytes → Prog S ℤ → Prog S ℤ
  try_mkdir size last_nul tmp next =
      if leb size last_nul
      then (λ _. overflow)
      else (w.mkdir tmp >>= λ made. elim made [
        | created ↦ next
        | exists ↦ next
        | failed ↦ pure (negsuc 0)
      ])

  -- The two loops: `tmp` has been copied, and the second text is what follows in `path`.
  unfoldable pub make_path_loop : ℕ → Bytes → Bytes → Prog S ℤ
  unfolding try_mkdir
  make_path_loop size tmp [] = pure (pos 0)
  make_path_loop size tmp (c ∷ []) =
      let copied = tmp ++ (c ∷ []) in
      if leb size (length tmp)
      then (λ _. overflow)
      else if c == b'/'
      then try_mkdir size (length copied) copied (pure (pos 0))
      else try_mkdir size (length copied + 1) copied (pure (pos 0))
  make_path_loop size tmp (c ∷ d ∷ rest) =
      let copied = tmp ++ (c ∷ []) in
      let next = make_path_loop size copied (d ∷ rest) in
      if leb size (length tmp)
      then (λ _. overflow)
      else if c == b'/'
      then try_mkdir size (length copied) copied next
      else next

  -- `size` is MAX_PATH_LEN.
  unfoldable pub make_path : ℕ → Bytes → Prog S ℤ
  unfolding make_path_loop
  make_path size path = make_path_loop size [] path

  unfoldable pub dir_exists : Bytes → S → ℤ
  dir_exists dir s = elim (w.opendir dir s) [
    | entries _ ↦ pos 1
    | enoent ↦ pos 0
    | unreadable ↦ negsuc 0
  ]
