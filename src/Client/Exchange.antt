-- ===== src/Client/Exchange.antt =====
-- Commands and replies of the transmission thread, in app/client/client_lib.c. Its log lines are
-- not modelled.
pub mod Replies
use study_and_development_of.Base.{
  ℕ, ℤ, pos, negsuc, is_pos, is_negsuc, Bytes, codes, starts_with, c_str, ◌||◌, if◌then◌else◌,
}
use study_and_development_of.World.{Prog, ◌>>=◌, ◌>>◌, pure, leave, World}
use study_and_development_of.Common.TcpBuffer.{TcpBuffer, tcp_readline}

module _ {S : Type 0} (w : World S) where
  -- ExitTransmissionThread: the code is stored as the thread's status.
  unfoldable pub exit_transmission_thread : {A : Type 0} → ℤ → Prog S A
  exit_transmission_thread code = w.tcp_send (codes "CLOSE\n") >> leave code

  abbrev pub check_reply : ℤ × TcpBuffer × Bytes → Prog S (TcpBuffer × Bytes)
  check_reply (ret, b, rec) =
      if is_negsuc ret 0 || is_pos ret 0
      then exit_transmission_thread (negsuc 1)
      else if starts_with (codes "ERROR") (c_str rec)
      then exit_transmission_thread (negsuc 0)
      else pure (b, rec)

  -- TcpSendReceiveTT, which returns 0 or ends the thread: the receive buffer and the array `rec`.
  unfoldable pub tcp_send_receive_tt : TcpBuffer → Bytes → Bytes → Prog S (TcpBuffer × Bytes)
  unfolding exit_transmission_thread
  tcp_send_receive_tt b send rec = w.tcp_send send >>= λ sent.
      if is_pos sent 0
      then exit_transmission_thread (negsuc 1)
      else (tcp_readline w b rec >>= check_reply)
