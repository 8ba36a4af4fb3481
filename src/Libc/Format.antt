-- ===== src/Libc/Format.antt =====
-- The printf conversions of the program: `%s`, `%d`, `%ld` and `%04d`, snprintf and sprintf.
use study_and_development_of.Base.{
  ℕ, zero, suc, ◌+◌, ◌-◌, ◌/◌, ◌%◌, ℤ, pos, negsuc, [], ◌∷◌, ◌++◌, Bytes, length, take, ltb, ◌<◌,
  ◌≡◌, arith, take-length_le, if◌then◌else◌,
}

-- The decimal digits of `n` in front of `acc`.
unfoldable pub digits_onto : ℕ → ℕ → Bytes → Bytes
digits_onto zero n acc = acc
digits_onto (suc f) n acc =
    let more = digits_onto f (n / 10) ((48 + n % 10) ∷ acc) in
    if ltb n 10 then (48 + n) ∷ acc else more

-- The fuel is enough, since each digit divides by ten (`Libc.RoundTrip`).
unfoldable pub digits : ℕ → Bytes
unfolding digits_onto
digits n = digits_onto (suc n) n []

-- "%d" and "%ld"
unfoldable pub fmt_d : ℤ → Bytes
unfolding digits
fmt_d (pos n) = digits n
fmt_d (negsuc n) = b'-' ∷ digits (suc n)

unfoldable pub zeros : ℕ → Bytes
zeros zero = []
zeros (suc n) = b'0' ∷ zeros n

unfoldable pub pad : ℕ → Bytes → Bytes
unfolding zeros
pad width s = zeros (width - length s) ++ s

-- "%04d"
unfoldable pub fmt_04d : ℤ → Bytes
unfolding digits pad
fmt_04d (pos n) = pad 4 (digits n)
fmt_04d (negsuc n) = b'-' ∷ pad 3 (digits (suc n))

-- snprintf(buf, n, ...): at most n - 1 bytes of the text are kept.
unfoldable pub snprintf : ℕ → Bytes → Bytes
snprintf n s = take (n - 1) s

-- A text that fits, with its NUL, is kept whole.
pub snprintf-fits : (n : ℕ) (s : Bytes) → length s < n → snprintf n s ≡ s
unfolding snprintf
snprintf-fits n s h = take-length_le s (n - 1) (omega arith)
