-- ===== src/Tests/Drone/Stock.antt =====
-- The disk of the small drone is what the server relies on.
use mathlib.Core.List.{Perm}
use mathlib.Core.List.Perm
use study_and_development_of.Base.{
  All, Bytes, Bool, ◌<◌, ◌^◌, length, if◌then◌else◌, ℕ, ◌≡◌, refl, sym, subst, ◌∙◌, ap, inl, pos,
  List, [], ◌∷◌, codes, true, false, equal, equal_self, arith, starts_with,
}
use study_and_development_of.Libc.Format.{snprintf, fmt_04d}
use study_and_development_of.World.{done, entries}
use study_and_development_of.Server.Scan.{tof_dir, log_dir}
use study_and_development_of.Server.Scan.Dirs.{dir_names}
use study_and_development_of.Server.Scan.Files.{data_names, data_names-data}
use study_and_development_of.Server.Scan.Numbers.{named, data_name, data_name-IsData}
use study_and_development_of.Server.Scan.Next.{tof_path}
use study_and_development_of.Server.Transfer.{data_dir}
use study_and_development_of.Server.Handler.{logger_name}
use study_and_development_of.Server.Disk.{Disk, Named, Leftovers}
use study_and_development_of.Server.Disk.Rest.{asked_path}
use study_and_development_of.Tests.Demo.{no_space-IsWord}
use study_and_development_of.Tests.Ground.{stamp}
use study_and_development_of.Tests.Drone.{
  Drone, path_of, drone_file, contents_of, tops_of, listing, drop_first, clear, drone, unread, sent,
  unsent, unreceived,
}

abbrev pub Holding : List ℕ → Drone → Type 0
Holding is s = (s.numbers ≡ is) × ((s.present ≡ true) × All (λ i. i < 2 ^ 31) is)

abbrev pub Cleared : Drone → Type 0
Cleared s = s.present ≡ false

pub top_listed : (s : Drone) → listing data_dir s ≡ entries (tops_of s.present)
unfolding equal
top_listed s = refl

pub files_listed :
    (s : Drone) → listing (tof_path data_dir stamp (pos 0)) s ≡ entries (named s.numbers)
unfolding equal snprintf fmt_04d tof_dir log_dir
files_listed s = refl

pub one_top : dir_names (stamp ∷ []) ≡ stamp ∷ []
unfolding dir_names starts_with
one_top = refl

pub no_top : dir_names [] ≡ []
unfolding dir_names
no_top = refl

pub data_named : (is : List ℕ) → data_names (named is) ≡ named is
data_named [] = unfold data_names in refl
data_named (i ∷ is) =
    data_names-data (data_name i) (named is) (data_name-IsData i)
    ∙ ap (λ names. data_name i ∷ names) (data_named is)

pub holding_removes :
    (i : ℕ) (is numbers : List ℕ) (s : Drone)
    → numbers ≡ i ∷ is
    → drop_first (path_of i) numbers s ≡ done (pos 0) (record s { numbers = is })
holding_removes i is numbers s h = rw h (rw (equal_self (path_of i)) refl)

-- The files are short.
pub drone_file-small : (path : Bytes) → length (drone_file path) < 2 ^ 31
drone_file-small path =
    one_of
      (equal path (
        codes
          "../../data_generation/generated_data/20230405-101112/voxl-logger/log0000/run/mpa/tof/data_7.pcd"))
      (equal path (
        codes
          "../../data_generation/generated_data/20230405-101112/voxl-logger/log0000/run/mpa/tof/data_8.pcd"))
  where
    one_of :
        (a b : Bool)
        → length (if a then codes "x y z\n" else if b then codes "0 0\n" else codes "1,2\n")
          < 2 ^ 31
    one_of true b = omega arith
    one_of false true = omega arith
    one_of false false = omega arith

abbrev pub drone-Disk :
    Disk drone unread sent logger_name data_dir stamp (pos 0) contents_of contents_of
drone-Disk = record {
  Stock = Holding;
  tops = λ is s h. (stamp ∷ [], top_listed s ∙ ap (λ b. entries (tops_of b)) h.1.0, one_top);
  lies = λ is s h. inl refl;
  files = λ is s h. (
    named is,
    files_listed s ∙ ap (λ ns. entries (named ns)) h.0,
    subst (λ ns. Perm ns (named is)) (sym (data_named is)) (Perm.refl (named is)),
  );
  ints = λ is s h. h.1.1;
  readable = λ i is s h. record {
    memory = λ n. refl;
    opens = refl;
    reads = refl;
    packs = refl;
    small = drone_file-small (path_of i);
  };
  idle = λ is s h. (s, refl, h, refl, refl);
  removes = λ i is s h. (
    record s { numbers = is },
    holding_removes i is s.numbers s h.0,
    (refl, (h.1.0, h.1.1.1)),
    refl,
    refl,
  );
  quiet = λ is. unsent (Holding is) (λ m s h. h);
  receive = λ is. unreceived (Holding is) (λ cs s h. h);
}

pub drone_clears :
    (s : Drone) → clear (asked_path stamp) s ≡ done (pos 0) (record s { present = false })
drone_clears s = rw (equal_self (asked_path stamp)) refl

abbrev pub drone-Leftovers :
    Leftovers drone unread sent logger_name data_dir (asked_path stamp) (drone-Disk.Stock [])
drone-Leftovers = record {
  Gone = Cleared;
  clears = λ s h. (record s { present = false }, drone_clears s, refl, refl, refl);
  tops = λ s h. ([], top_listed s ∙ ap (λ b. entries (tops_of b)) h, no_top);
  idle = λ s h. (s, refl, refl);
  quiet = unsent Cleared (λ m s h. h);
  receive = unreceived Cleared (λ cs s h. h);
}

pub drone-Named : Named drone stamp
unfolding starts_with
drone-Named = record {
  counts = refl;
  short = omega arith;
  word = no_space-IsWord b'2' (codes "0230405-101112") refl;
  text = omega arith;
  no_dir = refl;
  no_file = refl;
}
