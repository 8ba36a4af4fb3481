-- ===== src/Tests/Endings.antt =====
-- The end of a directory with four small files.
use study_and_development_of.Base.{
  ℕ, ◌+◌, ◌<◌, ◌≢◌, ◌≡◌, refl, pos, Bytes, List, [], ◌∷◌, ◌++◌, codes, length, length-append, All,
  some, true, false, arith, c_str, equal,
}
use study_and_development_of.Libc.Format.{fmt_d, fmt_04d, snprintf}
use study_and_development_of.Libc.Scan.{scan_word, skip_until}
use study_and_development_of.World.{pure, ◌>>=◌}
use study_and_development_of.Common.Stream.{Pending}
use study_and_development_of.Common.Stream.Lines.{IsText}
use study_and_development_of.Client.Request.{remaining_files, local_log_dir, other_data_n}
use study_and_development_of.Client.Transmission.{Local, on_empty}
use study_and_development_of.Wire.Remaining.{
  Asked, asked_file, asked_answers, rels, remaining_list, AskedFits, AskedApart,
}
use study_and_development_of.Wire.Finish.{
  empty_line, dir_removed_line, complete_dir, on_empty-finished,
}
use study_and_development_of.Tests.Demo.{
  Env, unread, file, idle, fresh, fresh-Pending, no_space, no_space-IsWord, zeros,
}
use study_and_development_of.Tests.Ground.{
  stamp, numbered, ground_world, shared, equal-differ, demo-Works,
}

-- "/voxl-logger/log0000" and the rest of the path
abbrev pub below : ℕ → Bytes → Bytes
below n name = codes "/voxl-logger/log000" ++ ((48 + n) ∷ name)

abbrev pub asked : ℕ → Bytes → Asked
asked n name = record {
  rel = stamp ++ below n name;
  temp = below n name;
  path = codes "data/" ++ (stamp ++ below n name);
  contents = codes "1,2\n";
  out = codes "1,2\n";
}

abbrev pub pcd_data : Asked
pcd_data = asked 0 (codes "/run/mpa/tof/data.csv")

abbrev pub pcd_info : Asked
pcd_info = asked 0 (codes "/info.json")

abbrev pub other_data : Asked
other_data = asked 1 (codes "/run/mpa/vvpx4_body_wrt_local/data.csv")

abbrev pub other_info : Asked
other_info = asked 1 (codes "/info.json")

abbrev pub four : List Asked
four = pcd_data ∷ pcd_info ∷ other_data ∷ other_info ∷ []

abbrev pub dir : Bytes
dir = codes "rec_data/20230405-101112-active"

abbrev ending_local : Local
ending_local = record {
  b = fresh [];
  rec = empty_line (numbered 0) ++ zeros 32;
  transmission_dir = dir;
  folder = [];
  tr = numbered 0;
  orig_len = pos 0;
  rec_len = pos 0;
}

abbrev ending : Env
ending = record idle {
  unread = asked_answers four (dir_removed_line stamp ++ b'\n' ∷ codes "X");
  tr = numbered 0;
}

pub order_lem : rels four ≡ remaining_list (numbered 0).d
unfolding remaining_files local_log_dir other_data_n snprintf fmt_04d
order_lem = refl

reply_fits : length (dir_removed_line stamp) < length ending_local.rec
unfolding fmt_d
reply_fits = omega arith

empty_lem : c_str ending_local.rec ≡ empty_line (numbered 0)
unfolding c_str fmt_d
empty_lem = refl

-- A file whose path is short enough.
answers_fit :
    (n : ℕ) (name : Bytes)
    → (scan_word (skip_until b'/' (some (stamp ++ below n name)))).0 ≡ some (below n name)
    → no_space (codes "data/" ++ (stamp ++ below n name)) ≡ true
    → All IsText (codes "data/" ++ (stamp ++ below n name))
    → length name < 60
    → AskedFits ground_world (zeros 160) dir (asked n name)
unfolding fmt_d
answers_fit n name scanned word text short = record {
  names = record {
    cmd = omega (arith, length-append name (b'\n' ∷ []));
    temp_is = scanned;
    temp_fits = omega arith;
    file_path = omega arith;
  };
  word = no_space-IsWord b'd' _ word;
  text = text;
  line = omega (arith, length-append name (codes " 4 4"));
  packed = refl;
  contents_small = omega arith;
  out_small = omega arith;
}

pub four-AskedFits : All (AskedFits ground_world (zeros 160) dir) four
unfolding scan_word skip_until
four-AskedFits = (
  answers_fit 0 (codes "/run/mpa/tof/data.csv") refl refl (omega arith) (omega arith),
  (
    answers_fit 0 (codes "/info.json") refl refl (omega arith) (omega arith),
    (
      answers_fit 1 (codes "/run/mpa/vvpx4_body_wrt_local/data.csv") refl refl (omega arith)
          (omega arith),
      (answers_fit 1 (codes "/info.json") refl refl (omega arith) (omega arith), tt),
    ),
  ),
)

differ :
    (x y : Asked)
    → equal (asked_file dir x) (asked_file dir y) ≡ false
    → asked_file dir x ≢ asked_file dir y
differ x y h = equal-differ (asked_file dir x) (asked_file dir y) h

pub four-AskedApart : AskedApart dir four
unfolding equal
four-AskedApart = (
  (
    differ pcd_info pcd_data refl,
    (differ other_data pcd_data refl, (differ other_info pcd_data refl, tt)),
  ),
  (
    (differ other_data pcd_info refl, (differ other_info pcd_info refl, tt)),
    ((differ other_info other_data refl, tt), (tt, tt)),
  ),
)

on_empty-finished_example :
    (l' : Local) × (u : Env) × (on_empty ground_world shared (zeros 160) ending_local ending
      ≡ (ground_world.rename dir (complete_dir stamp) >>= λ _. pure l') u)
    × All (λ x. file u (asked_file dir x) ≡ some x.contents) four
    × Pending unread l'.b u (codes "X")
on_empty-finished_example =
    on_empty-finished ground_world shared unread file demo-Works.stream demo-Works.net
      demo-Works.files demo-Works.apart.calls demo-Works.memory (numbered 0) four (zeros 160)
      (codes "X") ending_local ending empty_lem (no_space-IsWord b'2' (codes "0230405-101112") refl)
      (omega arith) (omega arith) reply_fits order_lem four-AskedFits four-AskedApart
      (refl, (refl, (refl, (refl, tt)))) (fresh-Pending [] ending)
