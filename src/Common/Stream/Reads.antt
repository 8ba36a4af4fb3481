-- ===== src/Common/Stream/Reads.antt =====
-- What reading a line leaves as it is, if receiving does.
use study_and_development_of.Base.{
  ℕ, zero, suc, ◌+◌, ℤ, pos, Bytes, length, set, ◌||◌, ◌==◌, minus_one,
}
use study_and_development_of.World.{World}
use study_and_development_of.World.Keeps.{Keeps, pure-Keeps, overflow-Keeps, bind-Keeps, if-Keeps}
use study_and_development_of.Common.TcpBuffer.{
  TcpBuffer, eof_char, tcp_getchar_bs, readline_loop, tcp_readline, reloaded,
}

module _ {S : Type 0} (w : World S) (P : S → Type 0)
    (h : (array : Bytes) → Keeps P (w.tcp_receive array)) where
  reloaded-Keeps : (b : TcpBuffer) (r : ℤ × Bytes) → Keeps P (reloaded w b r)
  unfolding reloaded
  reloaded-Keeps b (dim, array) = if-Keeps P _ _ _ (pure-Keeps P _) (pure-Keeps P _)

  tcp_getchar_bs-Keeps : (b : TcpBuffer) → Keeps P (tcp_getchar_bs w b)
  unfolding tcp_getchar_bs
  tcp_getchar_bs-Keeps b =
      if-Keeps P _ _ _ (bind-Keeps P _ _ (h b.buffer) (reloaded-Keeps b)) (pure-Keeps P _)

  readline_loop-Keeps :
      (room : ℕ) (b : TcpBuffer) (i : ℕ) (buf : Bytes) → Keeps P (readline_loop w room b i buf)
  unfolding readline_loop
  readline_loop-Keeps zero b i buf = bind-Keeps P _ _ (tcp_getchar_bs-Keeps b) λ (ch, b').
      if-Keeps P _ _ _ (overflow-Keeps P) (if-Keeps P _ _ _ (pure-Keeps P _) (overflow-Keeps P))
  readline_loop-Keeps (suc room) b i buf = bind-Keeps P _ _ (tcp_getchar_bs-Keeps b) λ (ch, b').
      if-Keeps P (ch == b'\n' || ch == 0) _ _ (pure-Keeps P (pos i, b', set buf i 0)) (
        if-Keeps P (ch == eof_char) _ _ (pure-Keeps P (minus_one, b', buf))
          (readline_loop-Keeps room b' (i + 1) (set buf i ch)))

  pub tcp_readline-Keeps : (b : TcpBuffer) (buf : Bytes) → Keeps P (tcp_readline w b buf)
  unfolding tcp_readline
  tcp_readline-Keeps b buf = readline_loop-Keeps (length buf) b 0 buf
