-- ===== src/Common/Stream/Lines.antt =====
-- tcp_readline takes one line off the stream, however it was cut into packets.
use native.Mathlib.Numerals.{add-one}
use study_and_development_of.Base.{
  ℕ, suc, zero, ◌+◌, ◌<◌, ◌≡◌, ◌≢◌, ◌∙◌, ap, [], ◌∷◌, ◌++◌, append_assoc, Bytes, ℤ, pos, length,
  take, drop, set, set-split, take-set-suc, length-set, NoNul, c_str, c_str-append, All, arith,
  ◌==◌, ◌||◌, if◌then◌else◌,
}
use study_and_development_of.World.{done, Prog, World, bind-done}
use study_and_development_of.Common.TcpBuffer.{
  TcpBuffer, tcp_getchar_bs, readline_loop, tcp_readline,
}
use study_and_development_of.Common.Stream.{IsStream, Pending}
use study_and_development_of.Common.Stream.Chars.{tcp_getchar_bs-Reads}

-- A byte that can stand in a line: no newline, no NUL, and not 0xFF, which reads as EOF.
abbrev pub IsText : ℕ → Type 0
IsText c = (c ≢ b'\n') × (c ≢ 0) × (c ≢ 255)

pub NoNul-IsText : (s : Bytes) → All IsText s → NoNul s
NoNul-IsText [] h = tt
NoNul-IsText (c ∷ s) h = (h.0.1, NoNul-IsText s h.1)

-- The tests of the loop let such a byte through.
pub IsText-branch :
    {A : Type 0} (c : ℕ) (x y z : A)
    → IsText c
    → (if c == b'\n' || c == 0 then x else if c == 255 then y else z) ≡ z
IsText-branch c x y z h = ground arith

module _ {S : Type 0} (w : World S) (unread : S → Bytes) where
  -- The line has been stored behind the first `i` bytes of `buf`, with a NUL after it.
  pub record Stores (p : Prog S (ℤ × TcpBuffer × Bytes)) (s : S) (i : ℕ) (buf line rest : Bytes)
      : Type 0 where
    pub buffer : TcpBuffer
    pub after : S
    pub array : Bytes
    pub tail : Bytes
    pub result : p s ≡ done (pos (i + length line), buffer, array) after
    pub stored : array ≡ take i buf ++ (line ++ 0 ∷ tail)
    pub size : length array ≡ length buf
    pub pending : Pending unread buffer after rest

module _ {S : Type 0} (w : World S) (unread : S → Bytes) (stream : IsStream w unread) where
  readline_loop-Stores :
      (line rest : Bytes) (room : ℕ) (b : TcpBuffer) (i : ℕ) (buf : Bytes) (s : S)
      → All IsText line
      → length line < room
      → i + room ≡ length buf
      → Pending unread b s (line ++ b'\n' ∷ rest)
      → Stores w unread (readline_loop w room b i buf) s i buf line rest
  unfolding readline_loop
  readline_loop-Stores line rest zero b i buf s t h e p = elim h [ ]
  readline_loop-Stores [] rest (suc room) b i buf s t h e p =
      let r = tcp_getchar_bs-Reads w unread stream b s b'\n' rest (omega arith) p in
      record {
        buffer = r.buffer;
        after = r.after;
        array = set buf i 0;
        tail = drop (suc i) buf;
        result =
            bind-done (tcp_getchar_bs w b) _ r.result
            ∙ ap (λ n. done (pos n, r.buffer, set buf i 0) r.after) (omega arith);
        stored = set-split buf i 0 (omega arith);
        size = length-set buf i 0;
        pending = r.pending;
      }
  readline_loop-Stores (c ∷ line) rest (suc room) b i buf s t h e p =
      let r = tcp_getchar_bs-Reads w unread stream b s c (line ++ b'\n' ∷ rest) t.0.1 p in
      let m =
        readline_loop-Stores line rest room r.buffer (i + 1) (set buf i c) r.after t.1 (omega arith)
          (omega (arith, length-set buf i c)) r.pending in
      record {
        buffer = m.buffer;
        after = m.after;
        array = m.array;
        tail = m.tail;
        result =
            bind-done (tcp_getchar_bs w b) _ r.result
            ∙ ap (λ (f : Prog S (ℤ × TcpBuffer × Bytes)). f r.after) (IsText-branch c _ _ _ t.0)
            ∙ m.result
            ∙ ap (λ n. done (pos n, m.buffer, m.array) m.after) (omega arith);
        stored =
            m.stored
            ∙ ap (λ l. l ++ (line ++ 0 ∷ m.tail)) (rw add-one (take-set-suc buf i c (omega arith)))
            ∙ append_assoc (take i buf) (c ∷ []) (line ++ 0 ∷ m.tail);
        size = omega (arith, m.size, length-set buf i c);
        pending = m.pending;
      }

  -- If a line of text with no 0xFF byte, shorter than the array of the caller, is next on a
  -- connection that delivers its bytes in order, tcp_readline returns its length, the array holds
  -- it as a C string and keeps its size, and the connection goes on behind the newline, whatever
  -- the sizes of the packets.
  pub tcp_readline-line :
      (line rest : Bytes) (b : TcpBuffer) (buf : Bytes) (s : S)
      → All IsText line
      → length line < length buf
      → Pending unread b s (line ++ b'\n' ∷ rest)
      → (b' : TcpBuffer) × (array : Bytes) × (t : S) × (tcp_readline w b buf s
          ≡ done (pos (length line), b', array) t)
        × (c_str array ≡ line)
        × (length array ≡ length buf)
        × Pending unread b' t rest
  unfolding tcp_readline
  tcp_readline-line line rest b buf s h fits p =
      let m = readline_loop-Stores line rest (length buf) b 0 buf s h fits (omega arith) p in
      (
        m.buffer,
        m.array,
        m.after,
        m.result ∙ ap (λ n. done (pos n, m.buffer, m.array) m.after) (omega arith),
        ap c_str m.stored ∙ c_str-append line m.tail (NoNul-IsText line h),
        m.size,
        m.pending,
      )
