-- ===== src/Common/TcpBuffer.antt =====
-- app/common/common_lib.c: the receive buffer, reading a byte and a line from it; and
-- tcp_binary_getchar_bs of app/client/client_lib.c, which reads the same buffer.
use study_and_development_of.Base.{
  ℕ, zero, suc, ◌+◌, ℤ, pos, negsuc, minus_one, at_least, not, Bytes, Bool, false, ◌||◌, length,
  set, get_or, ◌==◌, if◌then◌else◌,
}
use study_and_development_of.World.{Prog, overflow, ◌>>=◌, pure, World}

-- struct buffer_tcp
pub record TcpBuffer : Type 0 where
  pub dim : ℤ
  pub i : ℕ
  pub buffer : Bytes

-- The array is not initialised: it holds whatever was there.
unfoldable pub init_buffer_tcp : Bytes → TcpBuffer
init_buffer_tcp array = record { dim = pos 0; i = 0; buffer = array }

-- b->i >= b->dim
abbrev pub at_end : TcpBuffer → Bool
at_end b = not (at_least (b.i + 1) b.dim)

-- EOF, as the `char` that the callers store it in: a `char` is signed, so this is the byte 0xFF.
abbrev pub eof_char : ℕ
eof_char = 255

abbrev pub is_eof : ℤ → Bool
is_eof (pos n) = false
is_eof (negsuc n) = n == 0

module _ {S : Type 0} (w : World S) where
  -- The tail of the reload: the value of tcp_receive, and the array after it.
  unfoldable pub reloaded : TcpBuffer → ℤ × Bytes → Prog S (ℕ × TcpBuffer)
  reloaded b (dim, array) =
      if is_eof dim
      then pure (eof_char, record b { dim = dim; buffer = array })
      else pure (get_or array 0 0, record { dim = dim; i = 1; buffer = array })

  unfoldable pub tcp_getchar_bs : TcpBuffer → Prog S (ℕ × TcpBuffer)
  unfolding reloaded
  tcp_getchar_bs b =
      if at_end b || get_or b.buffer b.i 0 == 0
      then w.tcp_receive b.buffer >>= reloaded b
      else pure (get_or b.buffer b.i 0, record b { i = b.i + 1 })

  -- The loop of tcp_readline, with the room that `buf` has left: the source tests no bound.
  unfoldable pub readline_loop : ℕ → TcpBuffer → ℕ → Bytes → Prog S (ℤ × TcpBuffer × Bytes)
  readline_loop zero b i buf = tcp_getchar_bs b >>= λ (ch, b').
      if ch == b'\n' || ch == 0
      then (λ _. overflow)
      else if ch == eof_char
      then pure (minus_one, b', buf)
      else (λ _. overflow)
  readline_loop (suc room) b i buf = tcp_getchar_bs b >>= λ (ch, b').
      let more = readline_loop room b' (i + 1) (set buf i ch) in
      if ch == b'\n' || ch == 0
      then pure (pos i, b', set buf i 0)
      else if ch == eof_char
      then pure (minus_one, b', buf)
      else more

  -- The value returned, the receive buffer and the array `buf`.
  unfoldable pub tcp_readline : TcpBuffer → Bytes → Prog S (ℤ × TcpBuffer × Bytes)
  unfolding readline_loop
  tcp_readline b buf = readline_loop (length buf) b 0 buf
