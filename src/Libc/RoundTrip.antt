-- ===== src/Libc/RoundTrip.antt =====
-- What printf writes, sscanf reads back.
use study_and_development_of.Base.{
  ℕ, zero, suc, ◌+◌, ◌/◌, ◌%◌, ◌<◌, ◌≡◌, refl, ◌∙◌, ap, ℤ, pos, negsuc, [], ◌∷◌, ◌++◌, append-nil,
  Bytes, true, false, inl, inr, ltb, ◌≢◌, some, arith, Bool-cases, All,
}
use study_and_development_of.Libc.Format.{digits_onto, digits, fmt_d}
use study_and_development_of.Libc.Scan.{
  is_space, is_digit, skip_space, span, not_space, nonempty, scan_word, digits_value, scan_digits,
  with_sign, negate, scan_d,
}

-- Reading the digits of `n` gives `n`, whatever number was read before them is zero.
digits_value-digits_onto :
    (f n : ℕ) (acc rest : Bytes)
    → n < f
    → digits_value 0 (digits_onto f n acc ++ rest) ≡ digits_value n (acc ++ rest)
unfolding digits_onto digits_value
digits_value-digits_onto zero n acc rest h = elim h [ ]
digits_value-digits_onto (suc f) n acc rest h = elim (Bool-cases (ltb n 10)) [
  | inl small ↦ rw small (ground arith)
  | inr large ↦
      rw large (
        digits_value-digits_onto f (n / 10) ((48 + n % 10) ∷ acc) rest (ground arith)
        ∙ ground arith)
]

abbrev StartsDigit : Bytes → Type 0
StartsDigit [] = ⊥
StartsDigit (c ∷ cs) = is_digit c ≡ true

digits_onto-StartsDigit : (f n : ℕ) (acc : Bytes) → n < f → StartsDigit (digits_onto f n acc)
unfolding digits_onto
digits_onto-StartsDigit zero n acc h = elim h [ ]
digits_onto-StartsDigit (suc f) n acc h = elim (Bool-cases (ltb n 10)) [
  | inl small ↦ rw small (ground arith)
  | inr large ↦ rw large (digits_onto-StartsDigit f (n / 10) ((48 + n % 10) ∷ acc) (ground arith))
]

StartsDigit-append : (s rest : Bytes) → StartsDigit s → StartsDigit (s ++ rest)
StartsDigit-append [] rest h = absurd h
StartsDigit-append (c ∷ cs) rest h = h

scan_digits_lem : (s : Bytes) → StartsDigit s → scan_digits s ≡ some (digits_value 0 s)
unfolding scan_digits
scan_digits_lem [] h = absurd h
scan_digits_lem (c ∷ cs) h = rw h refl

-- A text that starts with a digit has no sign, and no white space in front.
scan_d_lem : (s : Bytes) → StartsDigit s → scan_d (some s) ≡ with_sign pos (scan_digits s)
unfolding scan_d
scan_d_lem [] h = absurd h
scan_d_lem (c ∷ cs) h = ground arith

-- What may stand behind a number, and behind a word: nothing, or white space.
abbrev pub IsBreak : Bytes → Type 0
IsBreak [] = Unit
IsBreak (c ∷ cs) = is_space c ≡ true

digits_value_break : (n : ℕ) (rest : Bytes) → IsBreak rest → digits_value n rest ≡ (n, rest)
unfolding digits_value
digits_value_break n [] h = refl
digits_value_break n (c ∷ cs) h = ground arith

digits-StartsDigit : (n : ℕ) (rest : Bytes) → StartsDigit (digits n ++ rest)
unfolding digits
digits-StartsDigit n rest =
    StartsDigit-append (digits_onto (suc n) n []) rest
      (digits_onto-StartsDigit (suc n) n [] (omega arith))

scan_digits-digits :
    (n : ℕ) (rest : Bytes) → IsBreak rest → scan_digits (digits n ++ rest) ≡ some (n, rest)
unfolding digits
scan_digits-digits n rest h =
    scan_digits_lem (digits n ++ rest) (digits-StartsDigit n rest)
    ∙ ap some
        (digits_value-digits_onto (suc n) n [] rest (omega arith) ∙ digits_value_break n rest h)

skip_space_one : (s : Bytes) → scan_d (some (32 ∷ s)) ≡ scan_d (some s)
unfolding scan_d
skip_space_one s = refl

scan_d-minus : (s : Bytes) → scan_d (some (b'-' ∷ s)) ≡ with_sign negate (scan_digits s)
unfolding scan_d
scan_d-minus s = refl

-- What `%d` prints, `%d` reads back behind a space, up to white space or the end.
pub scan_d-fmt_d :
    (z : ℤ) (rest : Bytes)
    → IsBreak rest
    → scan_d (some (32 ∷ (fmt_d z ++ rest))) ≡ (some z, some rest)
unfolding fmt_d
scan_d-fmt_d (pos n) rest h =
    skip_space_one (digits n ++ rest)
    ∙ scan_d_lem (digits n ++ rest) (digits-StartsDigit n rest)
    ∙ ap (with_sign pos) (scan_digits-digits n rest h)
scan_d-fmt_d (negsuc n) rest h =
    skip_space_one (b'-' ∷ (digits (suc n) ++ rest))
    ∙ scan_d-minus (digits (suc n) ++ rest)
    ∙ ap (with_sign negate) (scan_digits-digits (suc n) rest h)

-- A word: at least one byte, and no white space.
abbrev pub IsWord : Bytes → Type 0
IsWord w = (w ≢ []) × All (λ c. is_space c ≡ false) w

span-word :
    (w rest : Bytes)
    → All (λ c. is_space c ≡ false) w
    → IsBreak rest
    → span not_space (w ++ rest) ≡ (w, rest)
unfolding span
span-word [] [] h k = refl
span-word [] (c ∷ cs) h k = rw k refl
span-word (x ∷ w) rest h k = rw (span-word w rest h.1 k) (rw h.0 refl)

skip_space-one : (c : ℕ) (cs : Bytes) → is_space c ≡ false → skip_space (32 ∷ (c ∷ cs)) ≡ c ∷ cs
unfolding skip_space
skip_space-one c cs h = rw h refl

scan_word-some : (s : Bytes) → scan_word (some s) ≡ nonempty (span not_space (skip_space s))
unfolding scan_word
scan_word-some s = refl

scan_word_lem :
    (c : ℕ) (cs : Bytes)
    → is_space c ≡ false
    → scan_word (some (32 ∷ (c ∷ cs))) ≡ nonempty (span not_space (c ∷ cs))
scan_word_lem c cs h =
    scan_word-some (32 ∷ (c ∷ cs)) ∙ ap (λ s. nonempty (span not_space s)) (skip_space-one c cs h)

-- A word is read back behind a space, up to white space or the end.
pub scan_word-word :
    (w rest : Bytes)
    → IsWord w
    → IsBreak rest
    → scan_word (some (32 ∷ (w ++ rest))) ≡ (some w, some rest)
unfolding nonempty
scan_word-word [] rest h k = absurd (h.0 refl)
scan_word-word (c ∷ w) rest h k =
    scan_word_lem c (w ++ rest) h.1.0 ∙ ap nonempty (span-word (c ∷ w) rest h.1 k)

-- The last conversion of a text.
pub scan_d-fmt_d_end : (z : ℤ) → scan_d (some (32 ∷ fmt_d z)) ≡ (some z, some [])
scan_d-fmt_d_end z = rw (append-nil (fmt_d z)) at (scan_d-fmt_d z [] tt)

-- The last word of a text.
pub scan_word-word_end : (w : Bytes) → IsWord w → scan_word (some (32 ∷ w)) ≡ (some w, some [])
scan_word-word_end w h = rw (append-nil w) at (scan_word-word w [] h tt)

-- What ends the digits of a number: nothing, or another byte.
abbrev pub NoDigit : Bytes → Type 0
NoDigit [] = Unit
NoDigit (c ∷ cs) = is_digit c ≡ false

digits_value_stop : (n : ℕ) (rest : Bytes) → NoDigit rest → digits_value n rest ≡ (n, rest)
unfolding digits_value
digits_value_stop n [] h = refl
digits_value_stop n (c ∷ cs) h = rw h refl

-- A number that is not negative, with no white space in front.
pub scan_d-fmt_d_pos :
    (n : ℕ) (rest : Bytes)
    → NoDigit rest
    → scan_d (some (fmt_d (pos n) ++ rest)) ≡ (some (pos n), some rest)
unfolding fmt_d digits
scan_d-fmt_d_pos n rest h =
    scan_d_lem (digits n ++ rest) (digits-StartsDigit n rest)
    ∙ ap (with_sign pos) (
        scan_digits_lem (digits n ++ rest) (digits-StartsDigit n rest)
        ∙ ap some
            (digits_value-digits_onto (suc n) n [] rest (omega arith) ∙ digits_value_stop n rest h))
