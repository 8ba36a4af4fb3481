-- ===== src/Wire/Text.antt =====
-- Printed numbers and the texts around them can stand in a line.
use study_and_development_of.Base.{
  ℕ, zero, suc, ◌+◌, ◌/◌, ◌%◌, ◌<◌, ℤ, pos, negsuc, Bytes, [], ◌∷◌, ◌++◌, All, arith, ltb,
  Bool-cases, inl, inr,
}
use study_and_development_of.Libc.Format.{digits_onto, digits, fmt_d}
use study_and_development_of.Common.Stream.Lines.{IsText}

pub All-IsText-append : (a b : Bytes) → All IsText a → All IsText b → All IsText (a ++ b)
All-IsText-append [] b h k = k
All-IsText-append (c ∷ a) b h k = (h.0, All-IsText-append a b h.1 k)

digit-IsText : (n : ℕ) → n < 10 → IsText (48 + n)
digit-IsText n h = omega arith

digits_onto-IsText : (f n : ℕ) (acc : Bytes) → All IsText acc → All IsText (digits_onto f n acc)
unfolding digits_onto
digits_onto-IsText zero n acc h = h
digits_onto-IsText (suc f) n acc h = elim (Bool-cases (ltb n 10)) [
  | inl small ↦ rw small (digit-IsText n (ground arith), h)
  | inr large ↦
      rw large (
        digits_onto-IsText f (n / 10) ((48 + n % 10) ∷ acc)
          (digit-IsText (n % 10) (omega arith), h))
]

pub fmt_d-IsText : (z : ℤ) → All IsText (fmt_d z)
unfolding fmt_d digits
fmt_d-IsText (pos n) = digits_onto-IsText (suc n) n [] tt
fmt_d-IsText (negsuc n) = (omega arith, digits_onto-IsText (suc (suc n)) (suc n) [] tt)
