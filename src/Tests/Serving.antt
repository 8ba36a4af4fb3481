-- ===== src/Tests/Serving.antt =====
-- The small drone serves a directory with two files.
use study_and_development_of.Base.{
  ℕ, ◌<◌, ◌≡◌, refl, sym, subst, pos, Bytes, List, [], ◌∷◌, ◌++◌, codes, length, length-append, All,
  some, true, false, arith, equal,
}
use study_and_development_of.Libc.Format.{fmt_d, fmt_04d, snprintf, snprintf-fits}
use study_and_development_of.World.{done}
use study_and_development_of.Common.Info.{TrInfo}
use study_and_development_of.Common.Stream.{Pending}
use study_and_development_of.Server.Scan.{max_path_len, tof_dir, log_dir}
use study_and_development_of.Server.Transfer.{sending_text, bufsiz, data_file}
use study_and_development_of.Server.Handler.{Child, child_loop}
use study_and_development_of.Common.Stream.Lines.{IsText}
use study_and_development_of.Server.Transfer.Emits.{with_sizes}
use study_and_development_of.Server.Disk.Rest.{asked_path}
use study_and_development_of.Wire.Remaining.{Asked}
use study_and_development_of.Wire.Session.{Item, session_answers}
use study_and_development_of.Wire.Session.Ending.{ending_answers}
use study_and_development_of.Wire.Serve.Files.{items, file_commands, LinesFit}
use study_and_development_of.Wire.Serve.Asks.{AskFits, Readable}
use study_and_development_of.Wire.Serve.Ending.{ending_commands}
use study_and_development_of.Wire.Serve.Directory.{child_loop-directory}
use study_and_development_of.Tests.Demo.{fresh, zeros, no_space, no_space-IsWord}
use study_and_development_of.Tests.Ground.{stamp, numbered}
use study_and_development_of.Tests.Endings.{below}
use study_and_development_of.Tests.Drone.{
  Drone, drone, unread, sent, contents_of, drone-IsStream, drone-SendsAll, drone-Duplex,
}
use study_and_development_of.Tests.Drone.Stock.{drone-Disk, drone-Leftovers, drone-Named}

abbrev pub wanted : ℕ → Bytes → Asked
wanted n name = record {
  rel = stamp ++ below n name;
  temp = below n name;
  path = codes "../../data_generation/generated_data/" ++ (stamp ++ below n name);
  contents = codes "1,2\n";
  out = codes "1,2\n";
}

abbrev pub wanted_four : List Asked
wanted_four =
    wanted 0 (codes "/run/mpa/tof/data.csv")
    ∷ wanted 0 (codes "/info.json")
    ∷ wanted 1 (codes "/run/mpa/vvpx4_body_wrt_local/data.csv")
    ∷ wanted 1 (codes "/info.json")
    ∷ []

abbrev pub two_files : List Item
two_files = items stamp (pos 0) contents_of contents_of (7 ∷ 8 ∷ [])

abbrev pub orders : Bytes
orders =
    file_commands stamp (pos 0) contents_of contents_of (7 ∷ 8 ∷ [])
      (ending_commands stamp wanted_four (codes "X"))

abbrev pub loaded : Drone
loaded = record { unread = orders; sent = []; numbers = 7 ∷ 8 ∷ []; present = true }

abbrev pub tr0 : TrInfo
tr0 = numbered 0

abbrev pub child : Child
child = record { b = fresh []; cmd = zeros 100 }

pub fresh-Pending : (array : Bytes) (s : Drone) → Pending unread (fresh array) s s.unread
fresh-Pending array s = record {
  ahead = [];
  buffered = record { tail = array; split = refl; dim_is = refl };
  stream_is = refl;
}

contents_are : (contents_of 7 ≡ codes "x y z\n") × (contents_of 8 ≡ codes "0 0\n")
unfolding equal snprintf fmt_d fmt_04d tof_dir log_dir data_file
contents_are = (refl, refl)

pub lines_fit : All (LinesFit 100) two_files
unfolding equal snprintf sending_text fmt_d fmt_04d tof_dir log_dir data_file
lines_fit = (
  record { answer = omega arith; cmd = omega arith },
  (record { answer = omega arith; cmd = omega arith }, tt),
)

wanted_fit :
    (n : ℕ) (name : Bytes)
    → no_space (stamp ++ below n name) ≡ true
    → All IsText (stamp ++ below n name)
    → length name < 40
    → AskFits 100 (wanted n name)
unfolding fmt_d
wanted_fit n name word text short =
    let path = codes "../../data_generation/generated_data/" ++ (stamp ++ below n name) in
    let whole : asked_path (stamp ++ below n name) ≡ path =
      snprintf-fits max_path_len path (omega arith) in
    record {
      word = no_space-IsWord b'2' _ word;
      text = text;
      short = omega arith;
      path_is = sym whole;
      answer =
          subst
            (λ p. length (with_sizes (codes "SENDING REQUESTED " ++ p) (pos 4) (pos 4)) < bufsiz)
            (sym whole) (omega (arith, length-append name (codes " 4 4")));
      cmd = omega arith;
    }

pub asks_fit : All (AskFits 100) wanted_four
asks_fit = (
  wanted_fit 0 (codes "/run/mpa/tof/data.csv") refl (omega arith) (omega arith),
  (
    wanted_fit 0 (codes "/info.json") refl (omega arith) (omega arith),
    (
      wanted_fit 1 (codes "/run/mpa/vvpx4_body_wrt_local/data.csv") refl (omega arith)
          (omega arith),
      (wanted_fit 1 (codes "/info.json") refl (omega arith) (omega arith), tt),
    ),
  ),
)

pub wanted-Readable : (v : Drone) → Readable drone wanted_four v
unfolding equal snprintf
wanted-Readable v = (
  record { memory = λ n. refl; opens = refl; reads = refl; packs = refl; small = omega arith },
  (
    record { memory = λ n. refl; opens = refl; reads = refl; packs = refl; small = omega arith },
    (
      record { memory = λ n. refl; opens = refl; reads = refl; packs = refl; small = omega arith },
      (
        record {
          memory = λ n. refl;
          opens = refl;
          reads = refl;
          packs = refl;
          small = omega arith;
        },
        tt,
      ),
    ),
  ),
)

child_loop-directory_example :
    (c' : Child) × (t : Drone) × (child_loop drone tr0 12 child loaded ≡ done (some c') t)
    × (t.present ≡ false)
    × (t.sent
        ≡ session_answers two_files (ending_answers 0 (numbered 7) wanted_four (codes "NO_TR\n")))
    × Pending unread c'.b t (codes "X")
child_loop-directory_example =
    child_loop-directory drone tr0 unread sent drone-IsStream drone-Duplex stamp (pos 0) contents_of
      contents_of drone-SendsAll drone-Disk drone-Named drone-Leftovers 7 (8 ∷ []) wanted_four
      (codes "X") child loaded (refl, (refl, (omega arith, (omega arith, tt))))
      ((omega arith, tt), (tt, tt)) lines_fit (λ v h. wanted-Readable v) asks_fit (omega arith)
      (fresh-Pending [] loaded)
