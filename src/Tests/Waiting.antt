-- ===== src/Tests/Waiting.antt =====
-- Two WAIT answers and then NO_TR.
use study_and_development_of.Base.{
  ◌≡◌, refl, pos, [], ◌∷◌, ◌++◌, codes, some, c_str, starts_with, true, arith,
}
use study_and_development_of.World.{done}
use study_and_development_of.Common.Info.{TrInfo}
use study_and_development_of.Common.Stream.{Pending}
use study_and_development_of.Client.Transmission.{Shared, Local, request_next}
use study_and_development_of.Client.Transmission.Waits.{Sending, waits, request_next-waits}
use study_and_development_of.Tests.Demo.{
  Env, demo, unread, idle, emit, fresh, fresh-Pending, demo-IsStream, zeros,
}

abbrev unknown : TrInfo
unknown = record {
  f = record { first = pos 0; last = pos 0; count = pos 0 };
  d = record { first = []; last = []; count = pos 0; logger_n = pos 0 };
}

abbrev never_stopped : Shared Env
never_stopped = record {
  running = λ s. true;
  set_status = λ z s. done tt s;
  get_tr = λ s. unknown;
  set_tr = λ tr s. done tt s;
}

abbrev waiting_local : Local
waiting_local = record {
  b = fresh [];
  rec = zeros 16;
  transmission_dir = [];
  folder = [];
  tr = unknown;
  orig_len = pos 0;
  rec_len = pos 0;
}

abbrev twice : Env
twice = record idle { unread = waits 2 (codes "NO_TR" ++ b'\n' ∷ codes "X") }

demo-Sending : Sending demo unread
demo-Sending = record { after = emit; text = λ m s. refl; unread-after = λ m s. refl }

request_next-waits_example :
    (l' : Local) × (u : Env) × (request_next demo never_stopped 3 waiting_local twice
      ≡ done (some l') u)
    × (c_str l'.rec ≡ codes "NO_TR")
    × Pending unread l'.b u (codes "X")
request_next-waits_example =
    request_next-waits demo never_stopped unread demo-IsStream demo-Sending 2 (codes "NO_TR")
      (codes "X") waiting_local twice (λ u. refl) (omega arith) (omega arith) (omega arith)
      (omega arith) (unfold starts_with in refl) (unfold starts_with in refl)
      (fresh-Pending [] twice)
