-- ===== src/Tests/Drone.antt =====
-- A small drone: one directory with files, and a connection that delivers byte by byte.
pub mod Stock
use mathlib.Core.List.{Perm}
use mathlib.Core.List.Perm
use study_and_development_of.Base.{
  ℕ, ◌≡◌, ◌≢◌, refl, sym, subst, ◌∙◌, ap, inl, ℤ, pos, negsuc, Bytes, List, [], ◌∷◌, ◌++◌, codes,
  Bool, true, false, some, equal, equal_self, arith, if◌then◌else◌, starts_with,
}
use study_and_development_of.Libc.Format.{snprintf, fmt_04d}
use study_and_development_of.World.{Outcome, done, World, Opened, entries, enoent, created}
use study_and_development_of.World.Keeps.{Keeps, done-state}
use study_and_development_of.Common.Stream.{Delivers, IsStream}
use study_and_development_of.Server.Scan.{tof_dir, log_dir}
use study_and_development_of.Server.Scan.Dirs.{dir_names}
use study_and_development_of.Server.Scan.Files.{data_names, data_names-data}
use study_and_development_of.Server.Scan.Numbers.{named, data_name, data_name-IsData}
use study_and_development_of.Server.Scan.Next.{tof_path}
use study_and_development_of.Server.Transfer.{data_dir}
use study_and_development_of.Server.Transfer.Emits.{SendsAll}
use study_and_development_of.Server.Handler.{logger_name}
use study_and_development_of.Server.Frame.{Quiet}
use study_and_development_of.Server.Disk.{file_path, Disk, Duplex, Named, Leftovers}
use study_and_development_of.Server.Disk.Rest.{asked_path}
use study_and_development_of.Tests.Demo.{demo, no_space-IsWord}
use study_and_development_of.Tests.Ground.{stamp}

pub record Drone : Type 0 where
  pub unread : Bytes
  pub sent : Bytes
  pub numbers : List ℕ
  pub present : Bool

abbrev pub path_of : ℕ → Bytes
path_of i = file_path data_dir stamp (pos 0) i

abbrev pub drone_file : Bytes → Bytes
drone_file path =
    if equal path (
      codes
        "../../data_generation/generated_data/20230405-101112/voxl-logger/log0000/run/mpa/tof/data_7.pcd")
    then codes "x y z\n"
    else if equal path (
        codes
          "../../data_generation/generated_data/20230405-101112/voxl-logger/log0000/run/mpa/tof/data_8.pcd")
    then codes "0 0\n"
    else codes "1,2\n"

abbrev pub contents_of : ℕ → Bytes
contents_of i = drone_file (path_of i)

abbrev pub took : Bytes → Bytes → Drone → Outcome Drone (ℤ × Bytes)
took tail [] s = done (pos 0, 0 ∷ tail) s
took tail (c ∷ cs) s = done (pos 1, c ∷ tail) (record s { unread = cs })

abbrev pub put : Bytes → Drone → Drone
put m s = record s { sent = s.sent ++ m }

abbrev pub tops_of : Bool → List Bytes
tops_of present = if present then stamp ∷ [] else []

abbrev pub listing : Bytes → Drone → Opened
listing path s =
    if equal path data_dir
    then entries (tops_of s.present)
    else if equal path (
        codes
          "../../data_generation/generated_data/20230405-101112/voxl-logger/log0000/run/mpa/tof")
    then entries (named s.numbers)
    else enoent

abbrev pub drop_first : Bytes → List ℕ → Drone → Outcome Drone ℤ
drop_first path [] s = done (negsuc 0) s
drop_first path (i ∷ is) s =
    if equal path (path_of i) then done (pos 0) (record s { numbers = is }) else done (negsuc 0) s

abbrev pub clear : Bytes → Drone → Outcome Drone ℤ
clear path s =
    if equal path (asked_path stamp)
    then done (pos 0) (record s { present = false })
    else done (negsuc 0) s

abbrev pub drone : World Drone
drone = record {
  tcp_send = λ m s. done (pos 1) (put m s);
  tcp_binary_send = λ m n s. done (pos 1) (put m s);
  tcp_receive = λ array s. took (0 ∷ []) s.unread s;
  tcp_binary_receive = λ array s. took [] s.unread s;
  connect = λ s. done (pos 3) s;
  popen = λ cmd s. done (some []) s;
  system = λ cmd s. done (pos 0) s;
  opendir = listing;
  remove = λ path s. drop_first path s.numbers s;
  nftw = λ path visit s. clear path s;
  mkdir = λ path s. done created s;
  rename = λ old new s. done (pos 0) s;
  fopen_read = λ path s. some (drone_file path);
  fread = λ path s. true;
  fopen_write = λ path s. done false s;
  fwrite = λ path bytes s. done false s;
  fputs = λ path line s. done (negsuc 0) s;
  access = λ path s. false;
  malloc = λ n s. true;
  compress_bound = demo.compress_bound;
  compress = demo.compress;
  uncompress = demo.uncompress;
  strptime = demo.strptime;
  mktime = demo.mktime;
  junk_int = pos 0;
  junk_number = λ counted name. counted;
  junk_isdst = λ name. pos 0;
  junk_text = [];
}

abbrev pub unread : Drone → Bytes
unread s = s.unread

abbrev pub sent : Drone → Bytes
sent s = s.sent

took-Delivers :
    (tail bytes : Bytes) (s : Drone) (array : Bytes)
    → s.unread ≡ bytes
    → bytes ≢ []
    → Delivers unread (λ a u. took tail u.unread u) s array
took-Delivers tail [] s array e ne = absurd (ne refl)
took-Delivers tail (c ∷ cs) s array e ne = record {
  got = c ∷ [];
  tail = tail;
  after = record s { unread = cs };
  got_some = λ none_got. cc;
  taken = e;
  result = rw e refl;
}

pub drone-IsStream : IsStream drone unread
drone-IsStream = record {
  text = λ s array ne. took-Delivers (0 ∷ []) s.unread s array refl ne;
  binary = λ s array ne. took-Delivers [] s.unread s array refl ne;
}

pub drone-SendsAll : SendsAll drone sent
drone-SendsAll = record {
  after = put;
  text = λ m s. refl;
  binary = λ m s. refl;
  sent-after = λ m s. refl;
}

-- What holds of a state whatever has been sent, and whatever has been received.
module _ (P : Drone → Type 0) where
  pub unsent : ((m : Bytes) (s : Drone) → P s → P (put m s)) → Quiet drone P
  unsent h = record {
    send = λ m. record { keeps = λ s a u p e. subst P (done-state e) (h m s p) };
    binary_send = λ m n. record { keeps = λ s a u p e. subst P (done-state e) (h m s p) };
    popen = λ cmd. record { keeps = λ s a u p e. subst P (done-state e) p };
  }

  pub unreceived :
      ((cs : Bytes) (s : Drone) → P s → P (record s { unread = cs }))
      → (array : Bytes) → Keeps P (drone.tcp_receive array)
  unreceived h array = record { keeps = λ s a u p e. leaves s.unread s a u p e }
    where
      leaves :
          (stream : Bytes) (s : Drone) (a : ℤ × Bytes) (u : Drone)
          → P s
          → took (0 ∷ []) stream s ≡ done a u
          → P u
      leaves [] s a u p e = subst P (done-state e) p
      leaves (c ∷ cs) s a u p e = subst P (done-state e) (h cs s p)

pub drone-Duplex : Duplex drone unread sent
drone-Duplex = record {
  sending = λ bytes. unsent (λ s. unread s ≡ bytes) (λ m s p. p);
  receiving = λ bytes. unreceived (λ s. sent s ≡ bytes) (λ cs s p. p);
}
