-- ===== src/Common/Stream/Limits.antt =====
-- The limits of tcp_readline: a line that is too long, the byte 0xFF, and a closed connection.
use study_and_development_of.Base.{
  ℕ, suc, zero, ◌+◌, ◌≤◌, ◌≡◌, ◌∙◌, ap, [], ◌∷◌, ◌++◌, Bytes, ℤ, pos, minus_one, length, set, All,
  arith, true,
}
use study_and_development_of.World.{done, overflow, Prog, World, bind-done}
use study_and_development_of.Common.TcpBuffer.{
  TcpBuffer, at_end, tcp_getchar_bs, reloaded, readline_loop, tcp_readline,
}
use study_and_development_of.Common.Stream.{IsStream, Pending}
use study_and_development_of.Common.Stream.Chars.{tcp_getchar_bs-Reads}
use study_and_development_of.Common.Stream.Lines.{IsText, IsText-branch}

module _ {S : Type 0} (w : World S) (unread : S → Bytes) (stream : IsStream w unread) where
  readline_loop-overflow :
      (line rest : Bytes) (room : ℕ) (b : TcpBuffer) (i : ℕ) (buf : Bytes) (s : S)
      → All IsText line
      → room ≤ length line
      → Pending unread b s (line ++ b'\n' ∷ rest)
      → readline_loop w room b i buf s ≡ overflow
  unfolding readline_loop
  readline_loop-overflow [] rest zero b i buf s t h p =
      let r = tcp_getchar_bs-Reads w unread stream b s b'\n' rest (omega arith) p in
      bind-done (tcp_getchar_bs w b) _ r.result
  readline_loop-overflow [] rest (suc room) b i buf s t h p = elim h [ ]
  readline_loop-overflow (c ∷ line) rest zero b i buf s t h p =
      let r = tcp_getchar_bs-Reads w unread stream b s c (line ++ b'\n' ∷ rest) t.0.1 p in
      bind-done (tcp_getchar_bs w b) _ r.result
      ∙ ap (λ (f : Prog S (ℤ × TcpBuffer × Bytes)). f r.after) (IsText-branch c _ _ _ t.0)
  readline_loop-overflow (c ∷ line) rest (suc room) b i buf s t h p =
      let r = tcp_getchar_bs-Reads w unread stream b s c (line ++ b'\n' ∷ rest) t.0.1 p in
      bind-done (tcp_getchar_bs w b) _ r.result
      ∙ ap (λ (f : Prog S (ℤ × TcpBuffer × Bytes)). f r.after) (IsText-branch c _ _ _ t.0)
      ∙ readline_loop-overflow line rest room r.buffer (i + 1) (set buf i c) r.after t.1
          (omega arith) r.pending

  -- If the next line of a connection that delivers its bytes in order is text that is as long as
  -- the array of the caller, or longer, tcp_readline writes past the end of that array.
  pub tcp_readline-overflow :
      (line rest : Bytes) (b : TcpBuffer) (buf : Bytes) (s : S)
      → All IsText line
      → length buf ≤ length line
      → Pending unread b s (line ++ b'\n' ∷ rest)
      → tcp_readline w b buf s ≡ overflow
  unfolding tcp_readline
  tcp_readline-overflow line rest b buf s h long p =
      readline_loop-overflow line rest (length buf) b 0 buf s h long p

  readline_loop-eof :
      (rest : Bytes) (room : ℕ) (b : TcpBuffer) (buf : Bytes) (s : S)
      → Pending unread b s (255 ∷ rest)
      → (b' : TcpBuffer) × (t : S) × (readline_loop w room b 0 buf s ≡ done (minus_one, b', buf) t)
        × Pending unread b' t rest
  unfolding readline_loop
  readline_loop-eof rest zero b buf s p =
      let r = tcp_getchar_bs-Reads w unread stream b s 255 rest (omega arith) p in
      (r.buffer, r.after, bind-done (tcp_getchar_bs w b) _ r.result, r.pending)
  readline_loop-eof rest (suc room) b buf s p =
      let r = tcp_getchar_bs-Reads w unread stream b s 255 rest (omega arith) p in
      (r.buffer, r.after, bind-done (tcp_getchar_bs w b) _ r.result, r.pending)

  -- A line that begins with the byte 0xFF reads as the end of the connection: -1 is returned at once,
  -- the array keeps what it held, and the rest of the line is still to be read.
  pub tcp_readline-eof :
      (rest : Bytes) (b : TcpBuffer) (buf : Bytes) (s : S)
      → Pending unread b s (255 ∷ rest)
      → (b' : TcpBuffer) × (t : S) × (tcp_readline w b buf s ≡ done (minus_one, b', buf) t)
        × Pending unread b' t rest
  unfolding tcp_readline
  tcp_readline-eof rest b buf s p = readline_loop-eof rest (length buf) b buf s p

module _ {S : Type 0} (w : World S) where
  -- read() has returned 0, and the library has put a NUL at the front of the array.
  closed_char :
      (b : TcpBuffer) (s t : S) (tail : Bytes)
      → at_end b ≡ true
      → w.tcp_receive b.buffer s ≡ done (pos 0, 0 ∷ tail) t
      → tcp_getchar_bs w b s ≡ done (0, record { dim = pos 0; i = 1; buffer = 0 ∷ tail }) t
  unfolding tcp_getchar_bs
  closed_char b s t tail empty closed =
      rw empty (bind-done (w.tcp_receive b.buffer) (reloaded w b) closed)

  readline_loop-closed :
      (room : ℕ) (b : TcpBuffer) (buf : Bytes) (s t : S) (tail : Bytes)
      → at_end b ≡ true
      → w.tcp_receive b.buffer s ≡ done (pos 0, 0 ∷ tail) t
      → readline_loop w (suc room) b 0 buf s
        ≡ done (pos 0, record { dim = pos 0; i = 1; buffer = 0 ∷ tail }, set buf 0 0) t
  unfolding readline_loop
  readline_loop-closed room b buf s t tail empty closed =
      bind-done (tcp_getchar_bs w b) _ (closed_char b s t tail empty closed)

  -- If the buffer is used up and the peer has closed the connection, an empty line is returned.
  pub tcp_readline-closed :
      (b : TcpBuffer) (c : ℕ) (cs : Bytes) (s t : S) (tail : Bytes)
      → at_end b ≡ true
      → w.tcp_receive b.buffer s ≡ done (pos 0, 0 ∷ tail) t
      → tcp_readline w b (c ∷ cs) s
        ≡ done (pos 0, record { dim = pos 0; i = 1; buffer = 0 ∷ tail }, 0 ∷ cs) t
  unfolding tcp_readline
  tcp_readline-closed b c cs s t tail empty closed =
      readline_loop-closed (length cs) b (c ∷ cs) s t tail empty closed
