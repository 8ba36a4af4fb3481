-- ===== src/Base/Lists.antt =====
-- Lists measured and indexed by native numbers, under the library's names.
use Prim.Native.Nat.{ℕ, zero, suc, ◌+◌, ◌<◌, ◌≤◌}
use mathlib.Core.Path.{◌≡◌, refl, ap}
use mathlib.Core.Logic.{◌⊎◌}
use mathlib.Core.List.{List, [], ◌∷◌, ◌++◌}
use native.Mathlib.Omega.{arith}

module _ {ℓ} {A : Type ℓ} where
  abbrev pub length : List A → ℕ
  length [] = 0
  length (x ∷ xs) = suc (length xs)

  -- A write out of bounds changes nothing: the callers test the bound first.
  abbrev pub set : List A → ℕ → A → List A
  set [] i v = []
  set (x ∷ xs) zero v = v ∷ xs
  set (x ∷ xs) (suc i) v = x ∷ set xs i v

  abbrev pub get_or : List A → ℕ → A → A
  get_or [] i d = d
  get_or (x ∷ xs) zero d = x
  get_or (x ∷ xs) (suc i) d = get_or xs i d

  abbrev pub take : ℕ → List A → List A
  take zero xs = []
  take (suc n) [] = []
  take (suc n) (x ∷ xs) = x ∷ take n xs

  abbrev pub drop : ℕ → List A → List A
  drop zero xs = xs
  drop (suc n) [] = []
  drop (suc n) (x ∷ xs) = drop n xs

  abbrev pub All {κ} : (A → Type κ) → List A → Type κ
  All P [] = Unit
  All P (x ∷ xs) = P x × All P xs

  -- Some element has the property; which one is kept.
  abbrev pub Any : (A → Type 0) → List A → Type 0
  Any P [] = ⊥
  Any P (x ∷ xs) = P x ⊎ Any P xs

module _ {ℓ} {A : Type ℓ} where
  pub length-append : (xs ys : List A) → length (xs ++ ys) ≡ length xs + length ys
  length-append [] ys = omega arith
  length-append (x ∷ xs) ys = omega (arith, length-append xs ys)

  pub length-set : (xs : List A) (i : ℕ) (v : A) → length (set xs i v) ≡ length xs
  length-set [] i v = refl
  length-set (x ∷ xs) zero v = refl
  length-set (x ∷ xs) (suc i) v = ap suc (length-set xs i v)

  -- A write extends the part of the array that is filled so far.
  pub take-set-suc :
      (xs : List A) (i : ℕ) (v : A)
      → i < length xs
      → take (suc i) (set xs i v) ≡ take i xs ++ v ∷ []
  take-set-suc [] i v h = elim h [ ]
  take-set-suc (x ∷ xs) zero v h = refl
  take-set-suc (x ∷ xs) (suc i) v h = ap (λ l. x ∷ l) (take-set-suc xs i v (omega arith))

  pub take-length_le : (xs : List A) (n : ℕ) → length xs ≤ n → take n xs ≡ xs
  take-length_le [] zero h = refl
  take-length_le [] (suc n) h = refl
  take-length_le (x ∷ xs) zero h = elim h [ ]
  take-length_le (x ∷ xs) (suc n) h = ap (λ l. x ∷ l) (take-length_le xs n (omega arith))

  -- The element at `i` heads what is left after dropping `i`.
  pub get_or-drop :
      (xs : List A) (i : ℕ) (d c : A) {cs : List A} → drop i xs ≡ c ∷ cs → get_or xs i d ≡ c
  get_or-drop [] zero d c h = ground arith
  get_or-drop [] (suc i) d c h = ground arith
  get_or-drop (x ∷ xs) zero d c h = ground arith
  get_or-drop (x ∷ xs) (suc i) d c h = get_or-drop xs i d c h

  pub drop-suc :
      (xs : List A) (i : ℕ) (c : A) {cs : List A} → drop i xs ≡ c ∷ cs → drop (suc i) xs ≡ cs
  drop-suc [] zero c h = ground arith
  drop-suc [] (suc i) c h = ground arith
  drop-suc (x ∷ xs) zero c h = ground arith
  drop-suc (x ∷ xs) (suc i) c h = drop-suc xs i c h

  pub length-take_le : (xs : List A) (n : ℕ) → n ≤ length xs → length (take n xs) ≡ n
  length-take_le xs zero h = refl
  length-take_le [] (suc n) h = elim h [ ]
  length-take_le (x ∷ xs) (suc n) h = ap suc (length-take_le xs n (omega arith))

  pub take-append_length : (xs ys : List A) → take (length xs) (xs ++ ys) ≡ xs
  take-append_length [] ys = refl
  take-append_length (x ∷ xs) ys = ap (λ l. x ∷ l) (take-append_length xs ys)

  pub drop-append_length : (xs ys : List A) → drop (length xs) (xs ++ ys) ≡ ys
  drop-append_length [] ys = refl
  drop-append_length (x ∷ xs) ys = drop-append_length xs ys

  -- A write in bounds, as the two parts that it leaves alone.
  pub set-split :
      (xs : List A) (i : ℕ) (v : A) → i < length xs → set xs i v ≡ take i xs ++ v ∷ drop (suc i) xs
  set-split [] i v h = elim h [ ]
  set-split (x ∷ xs) zero v h = refl
  set-split (x ∷ xs) (suc i) v h = ap (λ l. x ∷ l) (set-split xs i v (omega arith))
