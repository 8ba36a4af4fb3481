-- ===== src/Tests/Streams.antt =====
-- tcp_readline and the child loop on concrete bytes.
use study_and_development_of.Base.{
  ◌≡◌, refl, inr, pos, negsuc, Bytes, [], ◌∷◌, ◌++◌, codes, length, c_str, some, arith, starts_with,
  equal,
}
use study_and_development_of.World.{done, overflow}
use study_and_development_of.Common.Info.{TrInfo}
use study_and_development_of.Common.TcpBuffer.{TcpBuffer, tcp_readline}
use study_and_development_of.Common.Stream.{Pending}
use study_and_development_of.Common.Stream.Lines.{tcp_readline-line}
use study_and_development_of.Common.Stream.Limits.{tcp_readline-overflow}
use study_and_development_of.Server.Handler.{Child, round, child_loop, execute, command}
use study_and_development_of.Server.Handler.Rounds.{
  executes, round-line, round-stale, child_loop-close, Serves,
}
use study_and_development_of.Client.Exchange.{exit_transmission_thread, tcp_send_receive_tt}
use study_and_development_of.Client.Exchange.Replies.{
  tcp_send_receive_tt-error, tcp_send_receive_tt-lost,
}
use study_and_development_of.Tests.Demo.{
  Env, demo, unread, idle, fresh, fresh-Pending, demo-IsStream,
}

abbrev array : Bytes
array = 1 ∷ 2 ∷ 3 ∷ 4 ∷ 5 ∷ 6 ∷ 7 ∷ 8 ∷ []

abbrev holding : Bytes → Env
holding bytes = record idle { unread = bytes }

abbrev no_tr_info : TrInfo
no_tr_info = record {
  f = record { first = pos 0; last = pos 0; count = pos 0 };
  d = record { first = []; last = []; count = pos 0; logger_n = pos 0 };
}

abbrev child : Bytes → Child
child cmd = record { b = fresh array; cmd = cmd }

tcp_readline-line_example :
    (b' : TcpBuffer) × (stored : Bytes) × (t : Env) × (tcp_readline demo
        (fresh array)
        array
        (holding (codes "STOP\nX"))
      ≡ done (pos 4, b', stored) t)
    × (c_str stored ≡ codes "STOP")
    × (length stored ≡ 8)
    × Pending unread b' t (codes "X")
tcp_readline-line_example =
    tcp_readline-line demo unread demo-IsStream (codes "STOP") (codes "X") (fresh array) array
      (holding (codes "STOP\nX")) (omega arith) (omega arith)
      (fresh-Pending array (holding (codes "STOP\nX")))

tcp_readline-overflow_example :
    tcp_readline demo (fresh array) array (holding (codes "SEND_NEXT\n")) ≡ overflow
tcp_readline-overflow_example =
    tcp_readline-overflow demo unread demo-IsStream (codes "SEND_NEXT") [] (fresh array) array
      (holding (codes "SEND_NEXT\n")) (omega arith) (omega arith)
      (fresh-Pending array (holding (codes "SEND_NEXT\n")))

round-line_example :
    (c' : Child) × (t : Env) × (round demo no_tr_info (child array) (holding (codes "STATUS\n"))
      ≡ executes demo no_tr_info (codes "STATUS") c' t)
    × (c_str c'.cmd ≡ codes "STATUS")
    × (length c'.cmd ≡ 8)
    × Pending unread c'.b t []
round-line_example =
    round-line demo no_tr_info unread demo-IsStream (codes "STATUS") [] (child array)
      (holding (codes "STATUS\n")) (omega arith) (omega arith)
      (fresh-Pending array (holding (codes "STATUS\n")))

-- "STOP" is still in the array.
abbrev stale : Bytes
stale = codes "STOP" ++ (0 ∷ [])

round-stale_example :
    (c' : Child) × (t : Env) × (round demo no_tr_info (child stale) (holding (255 ∷ []))
      ≡ executes demo no_tr_info (c_str stale) c' t)
    × (c'.cmd ≡ stale)
    × Pending unread c'.b t []
round-stale_example =
    round-stale demo no_tr_info unread demo-IsStream [] (child stale) (holding (255 ∷ []))
      (fresh-Pending array (holding (255 ∷ [])))

bogus-Serves : Serves demo no_tr_info unread 8 (codes "BOGUS")
bogus-Serves = record {
  text = omega arith;
  fits = omega arith;
  returns = λ s. unfold execute command equal starts_with in (_, refl, refl);
}

child_loop-close_example :
    (c' : Child) × (t : Env) × (child_loop demo no_tr_info 2
        (child array)
        (holding (codes "BOGUS\nCLOSE\nSTOP\n"))
      ≡ done (some c') t)
    × Pending unread c'.b t (codes "STOP\n")
child_loop-close_example =
    child_loop-close demo no_tr_info unread demo-IsStream (codes "BOGUS" ∷ []) (codes "STOP\n")
      (child array) (holding (codes "BOGUS\nCLOSE\nSTOP\n")) (omega arith) (bogus-Serves, tt)
      (fresh-Pending array (holding (codes "BOGUS\nCLOSE\nSTOP\n")))

tcp_send_receive_tt-error_example :
    (t : Env) × (b' : TcpBuffer) × (tcp_send_receive_tt demo
        (fresh array)
        (codes "STOP\n")
        array
        (holding (codes "ERROR\n"))
      ≡ exit_transmission_thread demo (negsuc 0) t)
    × Pending unread b' t []
tcp_send_receive_tt-error_example =
    tcp_send_receive_tt-error demo unread demo-IsStream (codes "ERROR") [] (codes "STOP\n") array
      (fresh array) (holding (codes "ERROR\n"))
      (record (holding (codes "ERROR\n")) { sent = codes "STOP\n" }) refl (omega arith)
      (omega arith) (omega arith) (unfold starts_with in refl)
      (fresh-Pending array (record (holding (codes "ERROR\n")) { sent = codes "STOP\n" }))

tcp_send_receive_tt-lost_example :
    (t : Env) × (tcp_send_receive_tt demo (fresh array) (codes "STOP\n") array idle
      ≡ exit_transmission_thread demo (negsuc 1) t)
tcp_send_receive_tt-lost_example =
    tcp_send_receive_tt-lost demo (codes "STOP\n") 1 (2 ∷ 3 ∷ 4 ∷ 5 ∷ 6 ∷ 7 ∷ 8 ∷ []) (fresh array)
      idle (record idle { sent = codes "STOP\n" }) (record idle { sent = codes "STOP\n" }) (pos 1)
      (0 ∷ []) refl refl (inr refl)
