-- ===== src/Common/Paths/Makes.antt =====
-- MakePath makes the directories on the way to a path, the path itself last.
use study_and_development_of.Base.{
  ℕ, ◌+◌, ◌<◌, ◌≡◌, refl, sym, ◌∙◌, ap, if◌then◌else◌, ◌⊎◌, inl, inr, ℤ, pos, Bytes, List, [], ◌∷◌,
  ◌++◌, append_assoc, length, length-append, leb, ◌==◌, Bool-cases, false, arith,
}
use study_and_development_of.World.{done, Prog, World, created, exists, pure, bind-done}
use study_and_development_of.Common.Paths.{try_mkdir, make_path_loop, make_path}

-- No mkdir fails: a directory is made, or it is there already. `asked` lists the paths that mkdir has
-- been called with, the last one first.
pub record MakesDirs {S : Type 0} (w : World S) (asked : S → List Bytes) : Type 0 where
  pub after : Bytes → S → S
  pub made :
      (path : Bytes) (s : S)
      → (w.mkdir path s ≡ done created (after path s))
        ⊎ (w.mkdir path s ≡ done exists (after path s))
  pub asked-after : (path : Bytes) (s : S) → asked (after path s) ≡ path ∷ asked s

-- The paths below `tmp`.
abbrev pub below : Bytes → List Bytes → List Bytes
below tmp [] = []
below tmp (path ∷ paths) = (tmp ++ path) ∷ below tmp paths

-- The directories on the way to a path: every part of it that ends in a slash, and the whole path.
unfoldable pub way : Bytes → List Bytes
way [] = []
way (c ∷ []) = (c ∷ []) ∷ []
way (c ∷ d ∷ rest) =
    let further = below (c ∷ []) (way (d ∷ rest)) in
    if c == b'/' then (c ∷ []) ∷ further else further

-- The paths are asked for one after the other.
abbrev pub onto : List Bytes → List Bytes → List Bytes
onto [] earlier = earlier
onto (path ∷ paths) earlier = onto paths (path ∷ earlier)

below-below :
    (tmp : Bytes) (c : ℕ) (paths : List Bytes)
    → below tmp (below (c ∷ []) paths) ≡ below (tmp ++ (c ∷ [])) paths
below-below tmp c [] = refl
below-below tmp c (path ∷ paths) = let ih = below-below tmp c paths in simp (append_assoc, ih) refl

below-nil : (paths : List Bytes) → below [] paths ≡ paths
below-nil [] = refl
below-nil (path ∷ paths) = ap (λ ps. path ∷ ps) (below-nil paths)

more : (a b : ℕ) → b < a → leb a b ≡ false
more a b h = ground arith

module _ {S : Type 0} (w : World S) (asked : S → List Bytes) (dirs : MakesDirs w asked) where
  try_mkdir-made :
      (size last_nul : ℕ) (tmp : Bytes) (next : Prog S ℤ) (s : S)
      → last_nul < size
      → try_mkdir w size last_nul tmp next s ≡ next (dirs.after tmp s)
  unfolding try_mkdir
  try_mkdir-made size last_nul tmp next s h = rw (more size last_nul h) (elim (dirs.made tmp s) [
    | inl new ↦ bind-done (w.mkdir tmp) _ new
    | inr there ↦ bind-done (w.mkdir tmp) _ there
  ])

  append_length : (tmp : Bytes) (c : ℕ) → length (tmp ++ (c ∷ [])) ≡ length tmp + 1
  append_length tmp c = length-append tmp (c ∷ [])

  -- What is left of the path is copied, and its directories are made on the way.
  make_path_loop-made :
      (size : ℕ) (tmp : Bytes) (c : ℕ) (rest : Bytes) (s : S)
      → length tmp + length (c ∷ rest) + 1 < size
      → (t : S) × (make_path_loop w size tmp (c ∷ rest) s ≡ done (pos 0) t)
        × (asked t ≡ onto (below tmp (way (c ∷ rest))) (asked s))
  unfolding make_path_loop way
  make_path_loop-made size tmp c [] s h =
      let copied = tmp ++ (c ∷ []) in
      (
        dirs.after copied s,
        rw (more size (length tmp) (omega arith)) (elim (Bool-cases (c == b'/')) [
          | inl slash ↦ rw slash (
              try_mkdir-made size (length copied) copied (pure (pos 0)) s
                (omega (arith, append_length tmp c)))
          | inr other ↦ rw other (
              try_mkdir-made size (length copied + 1) copied (pure (pos 0)) s
                (omega (arith, append_length tmp c)))
        ]),
        dirs.asked-after copied s,
      )
  make_path_loop-made size tmp c (d ∷ rest) s h =
      let copied = tmp ++ (c ∷ []) in
      let fits : length copied + length (d ∷ rest) + 1 < size =
        omega (arith, append_length tmp c) in
      elim (Bool-cases (c == b'/')) [
        | inl slash ↦
            let s1 = dirs.after copied s in
            let (t, run, asks) = make_path_loop-made size copied d rest s1 fits in
            (
              t,
              rw (more size (length tmp) (omega arith), slash)
                  (try_mkdir-made size (length copied) copied _ s
                      (omega (arith, append_length tmp c))
                    ∙ run),
              asks
                  ∙ ap (onto (below copied (way (d ∷ rest)))) (dirs.asked-after copied s)
                  ∙ rw slash (
                      ap (λ ps. onto ps (copied ∷ asked s))
                        (sym (below-below tmp c (way (d ∷ rest))))),
            )
        | inr other ↦
            let (t, run, asks) = make_path_loop-made size copied d rest s fits in
            (
              t,
              rw (more size (length tmp) (omega arith), other) run,
              asks
                  ∙ rw other
                      (ap (λ ps. onto ps (asked s)) (sym (below-below tmp c (way (d ∷ rest))))),
            )
      ]

  -- If no mkdir fails and a path that is not empty has room for itself and two more bytes in the
  -- array, MakePath returns 0, and mkdir has been called, in this order and with nothing else,
  -- with every part of the path that ends in a slash and at last with the whole path.
  pub make_path-made :
      (size : ℕ) (c : ℕ) (path : Bytes) (s : S)
      → length (c ∷ path) + 1 < size
      → (t : S) × (make_path w size (c ∷ path) s ≡ done (pos 0) t)
        × (asked t ≡ onto (way (c ∷ path)) (asked s))
  unfolding make_path
  make_path-made size c path s h =
      let (t, run, asks) = make_path_loop-made size [] c path s (omega arith) in
      (t, run, asks ∙ ap (λ ps. onto ps (asked s)) (below-nil (way (c ∷ path))))
