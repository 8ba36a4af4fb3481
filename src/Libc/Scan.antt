-- ===== src/Libc/Scan.antt =====
-- The sscanf conversions of the program. `none` as the input means that the matching has
-- stopped: later conversions assign nothing, and the variables keep what they hold.
use study_and_development_of.Base.{
  ℕ, suc, ◌+◌, ◌-◌, ◌*◌, ℤ, pos, negsuc, [], ◌∷◌, Bytes, Bool, true, false, ◌&&◌, ◌||◌, Option,
  none, some, leb, ◌==◌, if◌then◌else◌,
}

-- isspace(c)
abbrev pub is_space : ℕ → Bool
is_space c = c == 32 || (leb 9 c && leb c 13)

abbrev pub is_digit : ℕ → Bool
is_digit c = leb 48 c && leb c 57

unfoldable pub skip_space : Bytes → Bytes
skip_space [] = []
skip_space (c ∷ cs) = if is_space c then skip_space cs else c ∷ cs

-- The longest prefix whose bytes pass the test, and what follows it.
unfoldable pub span : (ℕ → Bool) → Bytes → Bytes × Bytes
span p [] = ([], [])
span p (c ∷ cs) = let (w, rest) = span p cs in if p c then (c ∷ w, rest) else ([], c ∷ cs)

abbrev pub not_space : ℕ → Bool
not_space c = if is_space c then false else true

-- A conversion gives the value, if it matched, and the input for the next one.
abbrev pub Scanned : Type 0 → Type 0
Scanned A = Option A × Option Bytes

unfoldable pub nonempty : Bytes × Bytes → Scanned Bytes
nonempty ([], rest) = (none, none)
nonempty (c ∷ w, rest) = (some (c ∷ w), some rest)

-- "%s": white space is skipped, then at least one other byte is read.
unfoldable pub scan_word : Option Bytes → Scanned Bytes
unfolding skip_space span nonempty
scan_word none = (none, none)
scan_word (some s) = nonempty (span not_space (skip_space s))

-- "%*s"
unfoldable pub skip_word : Option Bytes → Option Bytes
unfolding scan_word
skip_word s = (scan_word s).1

-- "%*[^c]"
unfoldable pub skip_until : ℕ → Option Bytes → Option Bytes
unfolding span nonempty
skip_until c none = none
skip_until c (some s) = (nonempty (span (λ x. if x == c then false else true) s)).1

-- A byte of the format that is no white space.
unfoldable pub literal : ℕ → Option Bytes → Option Bytes
literal c none = none
literal c (some []) = none
literal c (some (x ∷ s)) = if x == c then some s else none

unfoldable pub digits_value : ℕ → Bytes → ℕ × Bytes
digits_value n [] = (n, [])
digits_value n (c ∷ cs) =
    let more = digits_value (n * 10 + (c - 48)) cs in if is_digit c then more else (n, c ∷ cs)

-- The digits of a number, at least one.
unfoldable pub scan_digits : Bytes → Option (ℕ × Bytes)
unfolding digits_value
scan_digits [] = none
scan_digits (c ∷ cs) = if is_digit c then some (digits_value 0 (c ∷ cs)) else none

abbrev pub negate : ℕ → ℤ
negate ℕ.zero = pos 0
negate (suc n) = negsuc n

abbrev pub with_sign : (ℕ → ℤ) → Option (ℕ × Bytes) → Scanned ℤ
with_sign f none = (none, none)
with_sign f (some (n, rest)) = (some (f n), some rest)

unfoldable pub scan_signed : Bytes → Scanned ℤ
unfolding scan_digits
scan_signed [] = (none, none)
scan_signed (c ∷ cs) =
    if c == b'-'
    then with_sign negate (scan_digits cs)
    else if c == b'+'
    then with_sign pos (scan_digits cs)
    else with_sign pos (scan_digits (c ∷ cs))

-- "%d" and "%ld". Values that do not fit are undefined in C; here numbers are unbounded.
unfoldable pub scan_d : Option Bytes → Scanned ℤ
unfolding skip_space scan_signed
scan_d none = (none, none)
scan_d (some s) = scan_signed (skip_space s)

-- The value of a variable after sscanf: the converted one, or what it held.
abbrev pub assigned {ℓ} : {A : Type ℓ} → Option A → A → A
assigned none old = old
assigned (some a) old = a
