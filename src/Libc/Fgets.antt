-- ===== src/Libc/Fgets.antt =====
-- fgets over the bytes that a stream has left.
pub mod Laws
use study_and_development_of.Base.{
  ℕ, zero, suc, ◌-◌, List, [], ◌∷◌, Bytes, length, ◌==◌, if◌then◌else◌,
}

-- One call that may store `room` bytes: a line with its newline, or what fits of it.
unfoldable pub fgets_one : ℕ → Bytes → Bytes × Bytes
fgets_one zero s = ([], s)
fgets_one (suc room) [] = ([], [])
fgets_one (suc room) (c ∷ cs) =
    let (line, rest) = fgets_one room cs in if c == b'\n' then (c ∷ [], cs) else (c ∷ line, rest)

-- while (fgets(buf, n, f) != NULL): the strings that the calls store, one after the other.
unfoldable pub fgets_loop : ℕ → ℕ → Bytes → List Bytes
unfolding fgets_one
fgets_loop zero n s = []
fgets_loop (suc fuel) n [] = []
fgets_loop (suc fuel) n (c ∷ cs) =
    let (line, rest) = fgets_one (n - 1) (c ∷ cs) in line ∷ fgets_loop fuel n rest

-- Every call takes at least one byte, so the length of the stream is enough fuel.
unfoldable pub fgets_all : ℕ → Bytes → List Bytes
unfolding fgets_loop
fgets_all n s = fgets_loop (length s) n s
