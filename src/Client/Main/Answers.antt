-- ===== src/Client/Main/Answers.antt =====
-- What TcpSendReceiveMT makes of an answer of one line.
use study_and_development_of.Base.{
  ℕ, ◌<◌, ◌≡◌, ◌∙◌, ap, ℤ, pos, is_pos, is_negsuc, Bytes, ◌∷◌, ◌++◌, codes, length, starts_with,
  c_str, All, true, false, ◌||◌, if◌then◌else◌, arith,
}
use study_and_development_of.World.{done, Prog, World, bind-done}
use study_and_development_of.Common.TcpBuffer.{TcpBuffer, tcp_readline}
use study_and_development_of.Common.Stream.{IsStream, Pending}
use study_and_development_of.Common.Stream.Lines.{IsText, tcp_readline-line}
use study_and_development_of.Client.Console.{Console}
use study_and_development_of.Client.Main.{
  Threads, Local, exit_main_thread, tcp_send_receive_mt, control,
}

nonempty_branch :
    {A : Type 0} (n : ℕ) (x y : A)
    → 0 < n
    → (if is_negsuc (pos n) 0 || is_pos (pos n) 0 then x else y) ≡ y
nonempty_branch n x y h = ground arith

module _ {S : Type 0} (w : World S) (c : Console S) (t : Threads S) (unread : S → Bytes)
    (stream : IsStream w unread) where
  -- A line that is no error is the answer.
  pub tcp_send_receive_mt-line :
      (line rest send rec : Bytes) (b : TcpBuffer) (s s1 : S)
      → w.tcp_send send s ≡ done (pos 1) s1
      → All IsText line
      → 0 < length line
      → length line < length rec
      → starts_with (codes "ERROR") line ≡ false
      → Pending unread b s1 (line ++ b'\n' ∷ rest)
      → (b' : TcpBuffer) × (array : Bytes) × (u : S) × (tcp_send_receive_mt w c t b send rec s
          ≡ done (pos 0, b', array) u)
        × (c_str array ≡ line)
        × (length array ≡ length rec)
        × Pending unread b' u rest
  unfolding tcp_send_receive_mt
  tcp_send_receive_mt-line line rest send rec b s s1 went text some_byte fits fine p =
      let (b', array, u, read, holds, size, p') =
        tcp_readline-line w unread stream line rest b rec s1 text fits p in
      (
        b',
        array,
        u,
        bind-done (w.tcp_send send) _ went
            ∙ bind-done (tcp_readline w b rec) _ read
            ∙ ap (λ (f : Prog S (ℤ × TcpBuffer × Bytes)). f u)
                (nonempty_branch (length line) _ _ some_byte)
            ∙ rw (holds, fine),
        holds,
        size,
        p',
      )

  -- If a command of the main thread can be sent, and the next line of the connection is text that
  -- fits the array and begins with ERROR, TcpSendReceiveMT goes no further than ExitMainThread
  -- with the status of a failure.
  tcp_send_receive_mt-error :
      (line rest send rec : Bytes) (b : TcpBuffer) (s s1 : S)
      → w.tcp_send send s ≡ done (pos 1) s1
      → All IsText line
      → 0 < length line
      → length line < length rec
      → starts_with (codes "ERROR") line ≡ true
      → Pending unread b s1 (line ++ b'\n' ∷ rest)
      → (u : S) × (b' : TcpBuffer) × (tcp_send_receive_mt w c t b send rec s
          ≡ exit_main_thread w c t (pos 1) u)
        × Pending unread b' u rest
  unfolding tcp_send_receive_mt
  tcp_send_receive_mt-error line rest send rec b s s1 went text some_byte fits bad p =
      let (b', array, u, read, holds, size, p') =
        tcp_readline-line w unread stream line rest b rec s1 text fits p in
      (
        u,
        b',
        bind-done (w.tcp_send send) _ went
            ∙ bind-done (tcp_readline w b rec) _ read
            ∙ ap (λ (f : Prog S (ℤ × TcpBuffer × Bytes)). f u)
                (nonempty_branch (length line) _ _ some_byte)
            ∙ rw (holds, bad),
        p',
      )

  -- The round goes on with the answer in the array.
  pub control-line :
      (line rest send : Bytes) (l : Local) (s s1 : S)
      → w.tcp_send send s ≡ done (pos 1) s1
      → All IsText line
      → 0 < length line
      → length line < length l.rec
      → starts_with (codes "ERROR") line ≡ false
      → Pending unread l.control_buffer s1 (line ++ b'\n' ∷ rest)
      → (b : TcpBuffer) × (array : Bytes) × (u : S) × (control w c t send l s
          ≡ done (true, record l { control_buffer = b; rec = array }) u)
        × (c_str array ≡ line)
        × Pending unread b u rest
  unfolding control
  control-line line rest send l s s1 went text some_byte fits fine p =
      let (b, array, u, run, holds, size, p') =
        tcp_send_receive_mt-line line rest send l.rec l.control_buffer s s1 went text some_byte fits
          fine p in
      (
        b,
        array,
        u,
        bind-done (tcp_send_receive_mt w c t l.control_buffer send l.rec) _ run,
        holds,
        p',
      )
