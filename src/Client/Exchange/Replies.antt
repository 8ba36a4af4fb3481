-- ===== src/Client/Exchange/Replies.antt =====
-- What TcpSendReceiveTT makes of the reply.
use study_and_development_of.Base.{
  ℕ, ◌<◌, ◌≡◌, ◌⊎◌, inl, inr, refl, ◌∙◌, ap, ℤ, pos, negsuc, Bytes, ◌∷◌, ◌++◌, codes, starts_with,
  c_str, length, All, arith, true, false, is_pos, is_negsuc, ◌||◌, if◌then◌else◌, Bool-cases,
}
use study_and_development_of.World.{done, Prog, World, bind-done}
use study_and_development_of.Common.TcpBuffer.{TcpBuffer, at_end, tcp_readline}
use study_and_development_of.Common.Stream.{IsStream, Pending}
use study_and_development_of.Common.Stream.Lines.{IsText, tcp_readline-line}
use study_and_development_of.Common.Stream.Limits.{tcp_readline-closed}
use study_and_development_of.Client.Exchange.{
  exit_transmission_thread, check_reply, tcp_send_receive_tt,
}

-- The value of tcp_readline on a line that is not empty passes the two tests.
nonempty-branch :
    {A : Type 0} (n : ℕ) (x y : A)
    → 0 < n
    → (if is_negsuc (pos n) 0 || is_pos (pos n) 0 then x else y) ≡ y
nonempty-branch n x y h = ground arith

module _ {S : Type 0} (w : World S) where
  check_reply-line :
      (line : Bytes) (b : TcpBuffer) (array : Bytes) (s : S)
      → 0 < length line
      → c_str array ≡ line
      → starts_with (codes "ERROR") line ≡ false
      → check_reply w (pos (length line), b, array) s ≡ done (b, array) s
  check_reply-line line b array s some_byte holds fine =
      ap (λ (f : Prog S (TcpBuffer × Bytes)). f s) (nonempty-branch (length line) _ _ some_byte)
      ∙ rw (holds, fine)

  check_reply-error :
      (line : Bytes) (b : TcpBuffer) (array : Bytes) (s : S)
      → 0 < length line
      → c_str array ≡ line
      → starts_with (codes "ERROR") line ≡ true
      → check_reply w (pos (length line), b, array) s ≡ exit_transmission_thread w (negsuc 0) s
  check_reply-error line b array s some_byte holds bad =
      ap (λ (f : Prog S (TcpBuffer × Bytes)). f s) (nonempty-branch (length line) _ _ some_byte)
      ∙ rw (holds, bad)

module _ {S : Type 0} (w : World S) (unread : S → Bytes) (stream : IsStream w unread) where
  -- A reply of one line that is no error is returned, and the stream goes on behind it.
  pub tcp_send_receive_tt-line :
      (line rest send rec : Bytes) (b : TcpBuffer) (s s1 : S)
      → w.tcp_send send s ≡ done (pos 1) s1
      → All IsText line
      → 0 < length line
      → length line < length rec
      → starts_with (codes "ERROR") line ≡ false
      → Pending unread b s1 (line ++ b'\n' ∷ rest)
      → (b' : TcpBuffer) × (array : Bytes) × (t : S) × (tcp_send_receive_tt w b send rec s
          ≡ done (b', array) t)
        × (c_str array ≡ line)
        × (length array ≡ length rec)
        × Pending unread b' t rest
  unfolding tcp_send_receive_tt
  tcp_send_receive_tt-line line rest send rec b s s1 went text some_byte fits fine p =
      let (b', array, t, read, holds, size, p') =
        tcp_readline-line w unread stream line rest b rec s1 text fits p in
      (
        b',
        array,
        t,
        bind-done (w.tcp_send send) _ went
            ∙ bind-done (tcp_readline w b rec) _ read
            ∙ check_reply-line w line b' array t some_byte holds fine,
        holds,
        size,
        p',
      )

  -- If the command can be sent, and the next line of the connection is text that fits the array
  -- and begins with ERROR, the transmission thread goes no further than ExitTransmissionThread
  -- with the status -1, and the rest of the connection is not read.
  pub tcp_send_receive_tt-error :
      (line rest send rec : Bytes) (b : TcpBuffer) (s s1 : S)
      → w.tcp_send send s ≡ done (pos 1) s1
      → All IsText line
      → 0 < length line
      → length line < length rec
      → starts_with (codes "ERROR") line ≡ true
      → Pending unread b s1 (line ++ b'\n' ∷ rest)
      → (t : S) × (b' : TcpBuffer) × (tcp_send_receive_tt w b send rec s
          ≡ exit_transmission_thread w (negsuc 0) t)
        × Pending unread b' t rest
  unfolding tcp_send_receive_tt
  tcp_send_receive_tt-error line rest send rec b s s1 went text some_byte fits bad p =
      let (b', array, t, read, holds, size, p') =
        tcp_readline-line w unread stream line rest b rec s1 text fits p in
      (
        t,
        b',
        bind-done (w.tcp_send send) _ went
            ∙ bind-done (tcp_readline w b rec) _ read
            ∙ check_reply-error w line b' array t some_byte holds bad,
        p',
      )

module _ {S : Type 0} (w : World S) where
  -- If the receive buffer is used up, and the command cannot be sent or the peer has closed the
  -- connection so that a receive gives 0 bytes and a NUL, the transmission thread goes no further
  -- than ExitTransmissionThread with the status -2.
  pub tcp_send_receive_tt-lost :
      (send : Bytes) (c : ℕ) (cs : Bytes) (b : TcpBuffer) (s s1 s2 : S) (sent : ℤ) (tail : Bytes)
      → at_end b ≡ true
      → w.tcp_send send s ≡ done sent s1
      → (sent ≡ pos 0) ⊎ (w.tcp_receive b.buffer s1 ≡ done (pos 0, 0 ∷ tail) s2)
      → (t : S) × (tcp_send_receive_tt w b send (c ∷ cs) s
          ≡ exit_transmission_thread w (negsuc 1) t)
  unfolding tcp_send_receive_tt
  tcp_send_receive_tt-lost send c cs b s s1 s2 sent tail empty went (inl failed) =
      (s1, bind-done (w.tcp_send send) _ went ∙ rw failed refl)
  tcp_send_receive_tt-lost send c cs b s s1 s2 sent tail empty went (inr closed) =
      elim (Bool-cases (is_pos sent 0)) [
        | inl failed ↦ (s1, bind-done (w.tcp_send send) _ went ∙ rw failed refl)
        | inr ok ↦ (
          s2,
          bind-done (w.tcp_send send) _ went
              ∙ rw ok (
                  bind-done (tcp_readline w b (c ∷ cs)) _
                    (tcp_readline-closed w b c cs s1 s2 tail empty closed)),
        )
      ]
