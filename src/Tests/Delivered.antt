-- ===== src/Tests/Delivered.antt =====
-- What the small drone sends arrives at a client.
use study_and_development_of.Base.{
  ℕ, ◌<◌, ◌≡◌, refl, sym, ap, ℤ, subst, ◌++◌, pos, Bytes, [], ◌∷◌, codes, length, length-append,
  All, some, true, false, arith, equal,
}
use study_and_development_of.Libc.Format.{fmt_d, fmt_04d, snprintf}
use study_and_development_of.Libc.Scan.{scan_word, skip_until}
use study_and_development_of.World.{Opened, done, exited, entries, enoent, unreadable}
use study_and_development_of.Common.Info.{TrInfo}
use study_and_development_of.Common.TcpBuffer.{init_buffer_tcp}
use study_and_development_of.Common.Stream.{init_buffer_tcp-Pending}
use study_and_development_of.Common.Stream.Lines.{IsText}
use study_and_development_of.Server.Scan.{tof_dir, log_dir}
use study_and_development_of.Server.Transfer.{sending_text, data_file}
use study_and_development_of.Server.Disk.{file_tr}
use study_and_development_of.Server.Handler.{server_handler}
use study_and_development_of.Client.Transmission.{
  Local, remove_file_command, transmission_loop, transmission_thread,
}
use study_and_development_of.Wire.Sending.{active_dir}
use study_and_development_of.Wire.Remaining.{asked_file, AskedFits, AskedApart}
use study_and_development_of.Wire.Finish.{complete_dir}
use study_and_development_of.Wire.Session.{Item, item_file, Fits}
use study_and_development_of.Wire.Session.Ending.{Ends}
use study_and_development_of.Wire.Serve.Files.{item, file_commands}
use study_and_development_of.Wire.Serve.Ending.{ending_commands}
use study_and_development_of.Wire.Serve.Directory.{child_loop-directory, server_handler-child}
use study_and_development_of.World.Keeps.{done-state}
use study_and_development_of.Wire.Said.{Speaks}
use study_and_development_of.Wire.Delivery.{directory_delivered}
use study_and_development_of.Tests.Demo.{
  Env, emit, store, deliver, file, idle, no_space, no_space-IsWord, zeros,
}
use study_and_development_of.Tests.Demo
use study_and_development_of.Tests.Ground.{
  stamp, numbered, moved, rename_from, with_active, ground_world, shared, equal-differ, demo-Works,
}
use study_and_development_of.Tests.Sessions.{
  start_local, numbered-NameFits, cmd_fits, names_differ, seventh, eighth,
}
use study_and_development_of.Tests.Endings.{below, dir, order_lem, four-AskedApart}
use study_and_development_of.Tests.Whole.{
  demo-Remembers, seventh-There, eighth-There, seventh_apart, eighth_apart, dir_is, ends_fit,
  NoneIs,
}
use study_and_development_of.Tests.Drone.{
  Drone, drone, unread, sent, contents_of, drone-IsStream, drone-SendsAll, drone-Duplex,
}
use study_and_development_of.Tests.Drone.Stock.{drone-Disk, drone-Leftovers, drone-Named}
use study_and_development_of.Tests.Serving.{
  wanted, wanted_four, loaded, tr0, lines_fit, asks_fit, wanted-Readable,
}

abbrev first_file : Item
first_file = item stamp (pos 0) contents_of contents_of 7 (8 ∷ [])

abbrev second_file : Item
second_file = item stamp (pos 0) contents_of contents_of 8 []

first_file-Fits : Fits ground_world 48 3 first_file
unfolding equal snprintf sending_text fmt_d fmt_04d tof_dir log_dir data_file
first_file-Fits = record {
  names = numbered-NameFits 7 cmd_fits.0;
  contents_small = omega arith;
  out_small = omega arith;
  line = omega arith;
  reply = omega arith;
  waiting = omega arith;
  packed = refl;
}

second_file-Fits : Fits ground_world 48 3 second_file
unfolding equal snprintf sending_text fmt_d fmt_04d tof_dir log_dir data_file
second_file-Fits = record {
  names = record {
    word = no_space-IsWord b'2' (codes "0230405-101112") refl;
    text = omega arith;
    short = omega arith;
    cmd = unfold remove_file_command fmt_d in omega arith;
  };
  contents_small = omega arith;
  out_small = omega arith;
  line = omega arith;
  reply = omega arith;
  waiting = omega arith;
  packed = refl;
}

wanted-AskedFits :
    (n : ℕ) (name : Bytes)
    → (scan_word (skip_until b'/' (some (stamp ++ below n name)))).0 ≡ some (below n name)
    → no_space (codes "../../data_generation/generated_data/" ++ (stamp ++ below n name)) ≡ true
    → All IsText (codes "../../data_generation/generated_data/" ++ (stamp ++ below n name))
    → length name < 40
    → AskedFits ground_world (zeros 160) dir (wanted n name)
unfolding fmt_d
wanted-AskedFits n name scanned word text short = record {
  names = record {
    cmd = omega (arith, length-append name (b'\n' ∷ []));
    temp_is = scanned;
    temp_fits = omega arith;
    file_path = omega arith;
  };
  word = no_space-IsWord b'.' _ word;
  text = text;
  line = omega (arith, length-append name (codes " 4 4"));
  packed = refl;
  contents_small = omega arith;
  out_small = omega arith;
}

four_receivable : All (AskedFits ground_world (zeros 160) dir) wanted_four
unfolding scan_word skip_until
four_receivable = (
  wanted-AskedFits 0 (codes "/run/mpa/tof/data.csv") refl refl (omega arith) (omega arith),
  (
    wanted-AskedFits 0 (codes "/info.json") refl refl (omega arith) (omega arith),
    (
      wanted-AskedFits 1 (codes "/run/mpa/vvpx4_body_wrt_local/data.csv") refl refl (omega arith)
          (omega arith),
      (wanted-AskedFits 1 (codes "/info.json") refl refl (omega arith) (omega arith), tt),
    ),
  ),
)

abbrev first_tr : TrInfo
first_tr = file_tr stamp (pos 0) 7 (8 ∷ [])

wanted-Ends : Ends ground_world 48 (zeros 160) first_tr wanted_four
wanted-Ends = record {
  line = ends_fit.0;
  reply = ends_fit.1;
  order = order_lem;
  fit = subst (λ d. All (AskedFits ground_world (zeros 160) d) wanted_four) dir_is four_receivable;
  apart = subst (λ d. AskedApart d wanted_four) dir_is four-AskedApart;
}

-- What the client will say.
abbrev spoken : Bytes
spoken =
    file_commands stamp (pos 0) contents_of contents_of (7 ∷ 8 ∷ [])
      (ending_commands stamp wanted_four [])

abbrev ready : Drone
ready = record loaded { unread = spoken }

-- The child serves the directory, and what it sends arrives.
after :
    (t : Drone) × (server_handler drone tr0 12 (pos 0) [] (zeros 100) ready ≡ done (some (pos 0)) t)
after =
    let (c', t, run, gone, went, p) =
      child_loop-directory drone tr0 unread sent drone-IsStream drone-Duplex stamp (pos 0)
        contents_of contents_of drone-SendsAll drone-Disk drone-Named drone-Leftovers 7 (8 ∷ [])
        wanted_four [] (record { b = init_buffer_tcp []; cmd = zeros 100 }) ready
        (refl, (refl, (omega arith, (omega arith, tt)))) ((omega arith, tt), (tt, tt)) lines_fit
        (λ v h. wanted-Readable v) asks_fit (omega arith)
        (init_buffer_tcp-Pending unread [] spoken ready refl) in
    (t, server_handler-child drone tr0 12 [] (zeros 100) c' ready t run)

abbrev delivered : Drone
delivered = after.0

abbrev arrived : Env
arrived = record idle { unread = sent delivered; dirs = with_active }

module _ (b : Bytes) where
  abbrev Said : Env → Type 0
  Said s = Demo.sent s ≡ b

  Said-deliver :
      (tail stream : Bytes) (s u : Env) {a : ℤ × Bytes}
      → Said s
      → deliver tail stream s ≡ done a u
      → Said u
  Said-deliver tail [] s u h e = subst Said (done-state e) h
  Said-deliver tail (c ∷ cs) s u h e =
      let h' : Said (record s { unread = cs }) = h in subst Said (done-state e) h'

  Said-renamed :
      (found : Opened) (old new : Bytes) (s u : Env) {a : ℤ}
      → Said s
      → rename_from found old new s ≡ done a u
      → Said u
  Said-renamed (entries _) old new s u h e =
      let h' : Said (moved old new s) = h in subst Said (done-state e) h'
  Said-renamed enoent old new s u h e = subst Said (done-state e) h
  Said-renamed unreadable old new s u h e = subst Said (done-state e) h

demo-Speaks : Speaks ground_world Demo.sent
demo-Speaks = record {
  send = λ m s z u e. sym (ap Demo.sent (done-state e));
  quiet = λ b name. record {
    receive = λ array. record { keeps = λ s a u h e. Said-deliver b (0 ∷ []) s.unread s u h e };
    binary_receive = λ array. record { keeps = λ s a u h e. Said-deliver b [] s.unread s u h e };
    opens = λ other differs. record {
      keeps =
          λ s a u h e. let h' : Said b (store other [] s) = h in subst (Said b) (done-state e) h';
    };
    writes = λ other text differs. record {
      keeps =
          λ s a u h e. let h' : Said b (store other text s) = h in subst (Said b) (done-state e) h';
    };
  };
  rename = λ b old new. record { keeps = λ s a u h e. Said-renamed b (s.dirs old) old new s u h e };
}

-- The local directory has its final name.
abbrev moved_away : Env → Env
moved_away = moved (active_dir first_tr) (complete_dir stamp)

directory_delivered_example :
    (delivered.present ≡ false)
    × (l1 : Local) × (u v : Env) × (transmission_loop ground_world shared 5
          (zeros 160)
          (record start_local { b = init_buffer_tcp [] })
          arrived
        ≡ transmission_loop ground_world shared 2 (zeros 160) l1 (moved_away u))
    × ((file u (item_file seventh) ≡ some (contents_of 7))
        × ((file u (item_file eighth) ≡ some (contents_of 8)) × Unit {0}))
    × All (λ y. file u (asked_file (active_dir (numbered 7)) y) ≡ some y.contents) wanted_four
    × (transmission_thread ground_world shared 5 (zeros 160) start_local arrived
        ≡ exited (pos 0) (emit (codes "CLOSE\n") v))
    × (Demo.unread v ≡ [])
    × (Demo.sent (emit (codes "CLOSE\n") v) ≡ spoken)
directory_delivered_example =
    directory_delivered drone tr0 unread sent drone-IsStream drone-Duplex stamp (pos 0) contents_of
      contents_of drone-SendsAll drone-Disk drone-Named drone-Leftovers ground_world shared
      Demo.unread file demo-Works demo-Remembers Demo.sent demo-Speaks (λ tr v. refl) 7 (8 ∷ [])
      wanted_four [] (zeros 100) ready delivered 1 (zeros 160) start_local (pos 3) arrived arrived
      (refl, (refl, (omega arith, (omega arith, tt)))) ((omega arith, tt), (tt, tt)) lines_fit
      (λ w h. wanted-Readable w) asks_fit (omega arith) refl refl after.1 (omega arith)
      (first_file-Fits, (second_file-Fits, tt))
      (seventh-There arrived refl, (eighth-There arrived refl, tt))
      (refl, (refl, (refl, (refl, tt))))
      ((equal-differ (item_file eighth) (item_file seventh) names_differ, tt), (tt, tt)) wanted-Ends
      (
        subst (λ d. NoneIs d seventh) dir_is seventh_apart,
        (subst (λ d. NoneIs d eighth) dir_is eighth_apart, tt),
      )
      (omega arith) (omega arith) refl refl refl refl
