-- ===== src/Libc/Fgets/Laws.antt =====
-- fgets cuts a stream into pieces and loses nothing.
use study_and_development_of.Base.{
  ℕ, zero, suc, ◌-◌, ◌≤◌, ◌≡◌, refl, ◌∙◌, ap, List, [], ◌∷◌, ◌++◌, Bytes, length, length-append,
  All, arith, ◌==◌, Bool-cases, inl, inr,
}
use study_and_development_of.Libc.Fgets.{fgets_one, fgets_loop, fgets_all}

abbrev pub flatten : List Bytes → Bytes
flatten [] = []
flatten (line ∷ lines) = line ++ flatten lines

-- One call splits the stream, stores at most `room` bytes, and takes one at least.
fgets_one-split : (room : ℕ) (s : Bytes) → (fgets_one room s).0 ++ (fgets_one room s).1 ≡ s
unfolding fgets_one
fgets_one-split zero s = refl
fgets_one-split (suc room) [] = refl
fgets_one-split (suc room) (c ∷ cs) = ground (arith, fgets_one-split room cs)

fgets_one-le : (room : ℕ) (s : Bytes) → length (fgets_one room s).0 ≤ room
unfolding fgets_one
fgets_one-le zero s = omega arith
fgets_one-le (suc room) [] = omega arith
fgets_one-le (suc room) (c ∷ cs) = ground (arith, fgets_one-le room cs)

fgets_one-takes : (room c : ℕ) (cs : Bytes) → length (fgets_one (suc room) (c ∷ cs)).1 ≤ length cs
unfolding fgets_one
fgets_one-takes room c cs = elim (Bool-cases (c == b'\n')) [
  | inl newline ↦ rw newline (omega arith)
  | inr other ↦ rw other (omega (arith, rest_le room cs))
]
  where
    rest_le : (room : ℕ) (s : Bytes) → length (fgets_one room s).1 ≤ length s
    rest_le room s = omega (
      arith,
      ap length (fgets_one-split room s),
      length-append (fgets_one room s).0 (fgets_one room s).1,
    )

fgets_loop-flatten :
    (fuel n : ℕ) (s : Bytes) → 2 ≤ n → length s ≤ fuel → flatten (fgets_loop fuel n s) ≡ s
unfolding fgets_loop
fgets_loop-flatten zero n [] h k = refl
fgets_loop-flatten zero n (c ∷ cs) h k = elim k [ ]
fgets_loop-flatten (suc fuel) n [] h k = refl
fgets_loop-flatten (suc fuel) n (c ∷ cs) h k =
    let r = fgets_one (n - 1) (c ∷ cs) in
    ap (λ l. r.0 ++ l) (fgets_loop-flatten fuel n r.1 h (rest_fits n h))
    ∙ fgets_one-split (n - 1) (c ∷ cs)
  where
    rest_fits : (n : ℕ) → 2 ≤ n → length (fgets_one (n - 1) (c ∷ cs)).1 ≤ fuel
    rest_fits n h =
        let e : n - 1 ≡ suc (n - 2) = omega arith in
        rw e (omega (arith, fgets_one-takes (n - 2) c cs))

fgets_loop-le : (fuel n : ℕ) (s : Bytes) → All (λ line. length line ≤ n - 1) (fgets_loop fuel n s)
unfolding fgets_loop
fgets_loop-le zero n s = tt
fgets_loop-le (suc fuel) n [] = tt
fgets_loop-le (suc fuel) n (c ∷ cs) =
    (fgets_one-le (n - 1) (c ∷ cs), fgets_loop-le fuel n (fgets_one (n - 1) (c ∷ cs)).1)

-- The pieces of all calls, put together, are the stream, and each fits its array with its NUL.
pub fgets_all-flatten :
    (n : ℕ) (s : Bytes)
    → 2 ≤ n
    → (flatten (fgets_all n s) ≡ s) × All (λ line. length line ≤ n - 1) (fgets_all n s)
unfolding fgets_all
fgets_all-flatten n s h =
    (fgets_loop-flatten (length s) n s h (omega arith), fgets_loop-le (length s) n s)
