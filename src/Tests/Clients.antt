-- ===== src/Tests/Clients.antt =====
-- The main thread of the client at concrete inputs.
use study_and_development_of.Base.{
  ◌≡◌, refl, ℤ, pos, negsuc, Bytes, [], ◌∷◌, codes, true, false, some, arith,
}
use study_and_development_of.World.{World, Outcome, done}
use study_and_development_of.Common.Info.{TrInfo}
use study_and_development_of.Common.TcpBuffer.{TcpBuffer}
use study_and_development_of.Common.Stream.{Pending}
use study_and_development_of.Server.Logger.{proc_number, line_count, status}
use study_and_development_of.Client.Console.{Console, get_user_input}
use study_and_development_of.Client.Main.{
  Threads, Local, connect, control_loop, main_round, serve_user,
}
use study_and_development_of.Client.Main.Connects.{no_more, once_more, connect-accepted}
use study_and_development_of.Client.Main.Rounds.{unsent, control_loop-lost}
use study_and_development_of.Wire.Status.{main_round-status}
use study_and_development_of.Tests.Demo.{
  Env, demo, unread, sent, idle, emit, fresh, fresh-Pending, demo-IsStream, demo-SendsAll, zeros,
}

-- No key is pressed, and no thread runs.
abbrev console : Console Env
console = record {
  getch = λ s. done (negsuc 0) s;
  screen = λ d s. done tt s;
  strftime = λ format s. done (codes "20230405-101112") s;
}

abbrev nothing_yet : TrInfo
nothing_yet = record {
  f = record { first = pos 0; last = pos 0; count = pos 0 };
  d = record { first = []; last = []; count = pos 0; logger_n = pos 0 };
}

abbrev no_threads : Threads Env
no_threads = record {
  shared = record {
    running = λ s. false;
    set_status = λ z s. done tt s;
    get_tr = λ s. nothing_yet;
    set_tr = λ tr s. done tt s;
  };
  status = λ s. pos 0;
  set_running = λ b s. done tt s;
  create = λ s. done true s;
  join = λ s. done true s;
  mutex_init = λ s. done true s;
}

abbrev connected : Local
connected = record {
  control_buffer = fresh [];
  rec = zeros 16;
  active_connection = true;
  end_client = false;
  logger_status = pos 0;
}

-- Each process stands for an attempt that is refused.
abbrev refuse : Bytes → Env → Outcome Env ℤ
refuse [] s = done (pos 3) s
refuse (x ∷ xs) s = done (negsuc 0) (record s { processes = xs })

abbrev away : World Env
away = record demo { connect = λ s. refuse s.processes s }

connect-accepted_example :
    connect away console no_threads 2 false false (record idle { processes = 1 ∷ [] })
    ≡ done (some (true, false)) idle
connect-accepted_example =
    connect-accepted away console no_threads 1 2 false 3 (record idle { processes = 1 ∷ [] }) idle
      idle
      (once_more {u = idle}
        (record {
          sk = negsuc 0;
          key = negsuc 0;
          s1 = idle;
          s2 = idle;
          s3 = idle;
          refused = refl;
          is_refused = refl;
          told = refl;
          shown = refl;
          pressed = unfold get_user_input in refl;
          goes_on = refl;
        })
        no_more)
      (omega arith) refl

abbrev broken : World Env
broken = record demo { tcp_send = λ m s. done (pos 0) s }

control_loop-lost_example :
    (b : TcpBuffer) × (rec : Bytes) × (control_loop broken console no_threads 2 connected idle
      ≡ done
          (some (record connected { control_buffer = b; rec = rec; active_connection = false }))
          idle)
control_loop-lost_example =
    control_loop-lost broken console no_threads 0 connected idle idle refl refl (unsent refl)

abbrev logging : Env
logging = record idle { processes = codes "812 voxl-logger\n" }

abbrev told : Env
told = record idle { unread = codes "STATUS: 1\nX" }

main_round-status_example :
    (b : TcpBuffer) × (array : Bytes) × (u : Env) × (main_round demo console no_threads connected
        told
      ≡ serve_user demo console no_threads
          (record connected { control_buffer = b; rec = array; logger_status = pos 1 })
          u)
    × Pending unread b u (codes "X")
main_round-status_example =
    main_round-status demo sent demo console no_threads unread demo-SendsAll demo-IsStream
      (codes "voxl-logger") (codes "812 voxl-logger\n") (codes "STATUS: 1\n") logging logging
      (emit (codes "STATUS: 1\n") logging) refl (unfold status proc_number line_count in refl) refl
      (codes "X") connected told (emit (codes "STATUS\n") told) (omega arith) refl
      (fresh-Pending [] (emit (codes "STATUS\n") told))
