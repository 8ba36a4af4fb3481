-- ===== src/Tests/Ground.antt =====
-- A client whose directories are all there, and whom nobody stops, in the small environment.
use study_and_development_of.Base.{
  ℕ, ℤ, ◌==◌, ◌&&◌, Bool-cases, inl, inr, subst, sym, ◌≡◌, ◌≢◌, refl, pos, negsuc, Bytes, [], ◌∷◌,
  codes, Option, none, if◌then◌else◌, ◌++◌, some, false, true, arith, equal, equal_self, Bool,
}
use study_and_development_of.World.{World, Opened, Outcome, done, entries, enoent, unreadable}
use study_and_development_of.World.Keeps.{Keeps, done-state}
use study_and_development_of.Common.Paths.{dir_exists}
use study_and_development_of.Common.Info.{TrInfo}
use study_and_development_of.Client.Transmission.{Shared}
use study_and_development_of.Wire.Frame.{Untouched}
use study_and_development_of.Wire.Session.{FilesApart, Works}
use study_and_development_of.Tests.Demo.{
  Env, demo, unread, file, emit, store, deliver, demo-IsStream, demo-StoresFiles, always,
}

abbrev pub stamp : Bytes
stamp = codes "20230405-101112"

abbrev pub numbered : ℕ → TrInfo
numbered n = record {
  f = record { first = pos n; last = pos 8; count = pos 2 };
  d = record { first = stamp; last = stamp; count = pos 1; logger_n = pos 0 };
}

-- What follows `a` in `b`, if `b` begins with it.
abbrev behind : Bytes → Bytes → Option Bytes
behind [] b = some b
behind (x ∷ a) [] = none
behind (x ∷ a) (y ∷ b) = let rest = behind a b in if x == y then rest else none

-- The name that a file had before a directory was renamed; none for what has the old name.
abbrev former : Bytes → Bytes → Bytes → Option Bytes
former old new name = elim (behind (new ++ b'/' ∷ []) name) [
  | some rest ↦ some (old ++ b'/' ∷ rest)
  | none ↦ elim (behind (old ++ b'/' ∷ []) name) [ some rest ↦ none | none ↦ some name ]
]

abbrev moved_file : (Bytes → Option Bytes) → Option Bytes → Option Bytes
moved_file files none = none
moved_file files (some name) = files name

abbrev moved_dir : (Bytes → Opened) → Bytes → Bytes → Bytes → Opened
moved_dir dirs old new path =
    if equal path new then dirs old else if equal path old then enoent else dirs path

-- A directory under its new name, with its files, and none under the old one.
abbrev pub moved : Bytes → Bytes → Env → Env
moved old new s = record s {
  files = λ name. moved_file s.files (former old new name);
  dirs = moved_dir s.dirs old new;
}

-- rename of a directory fails if there is none.
abbrev pub rename_from : Opened → Bytes → Bytes → Env → Outcome Env ℤ
rename_from (entries _) old new s = done (pos 0) (moved old new s)
rename_from enoent old new s = done (negsuc 0) s
rename_from unreadable old new s = done (negsuc 0) s

-- The client, whose directories can be renamed.
abbrev pub ground_world : World Env
ground_world = record demo { rename = λ old new s. rename_from (s.dirs old) old new s }

-- The directory "rec_data/20230405-101112-active" is there.
abbrev pub with_active : Bytes → Opened
with_active path =
    if equal path (codes "rec_data/20230405-101112-active") then entries [] else enoent

abbrev pub shared : Shared Env
shared = record {
  running = λ s. true;
  set_status = λ z s. done tt s;
  get_tr = λ s. s.tr;
  set_tr = λ tr s. done tt (record s { tr = tr });
}

pub equal-differ : (a b : Bytes) → equal a b ≡ false → a ≢ b
equal-differ a b h e = let same = equal_self b in cc

both_true : (a b : Bool) → (a && b) ≡ true → (a ≡ true) × (b ≡ true)
both_true a b h = ground arith

same_number : (m n : ℕ) → (m == n) ≡ true → m ≡ n
same_number m n h = ground arith

equal_sound : (a b : Bytes) → equal a b ≡ true → a ≡ b
unfolding equal
equal_sound [] [] h = refl
equal_sound [] (y ∷ b) h = cc
equal_sound (x ∷ a) [] h = cc
equal_sound (x ∷ a) (y ∷ b) h =
    let (here, later) = both_true (x == y) (equal a b) h in
    let first = same_number x y here in let others = equal_sound a b later in cc

-- Texts that differ are told apart.
equal-apart : (a b : Bytes) → a ≢ b → equal a b ≡ false
equal-apart a b differs = elim (Bool-cases (equal a b)) [
  | inl same ↦ absurd (differs (equal_sound a b same))
  | inr other ↦ other
]

module _ (name bytes : Bytes) where
  -- What the name holds.
  abbrev Holds : Env → Type 0
  Holds s = file s name ≡ some bytes

  delivered :
      (tail stream : Bytes) (s u : Env) {a : ℤ × Bytes}
      → Holds s
      → deliver tail stream s ≡ done a u
      → Holds u
  delivered tail [] s u h e = subst Holds (done-state e) h
  delivered tail (c ∷ cs) s u h e =
      let h' : Holds (record s { unread = cs }) = h in subst Holds (done-state e) h'

  stored_elsewhere :
      (other text : Bytes) (s u : Env) {A : Type 0} {a b : A}
      → other ≢ name
      → Holds s
      → done b (store other text s) ≡ done a u
      → Holds u
  stored_elsewhere other text s u differs h e =
      let h' : Holds (store other text s) = rw (equal-apart name other (λ q. differs (sym q))) h in
      subst Holds (done-state e) h'

  demo-Untouched : Untouched ground_world Holds name
  demo-Untouched = record {
    send = λ m. record {
      keeps = λ s a u h e. let h' : Holds (emit m s) = h in subst Holds (done-state e) h';
    };
    receive = λ array. record { keeps = λ s a u h e. delivered (0 ∷ []) s.unread s u h e };
    binary_receive = λ array. record { keeps = λ s a u h e. delivered [] s.unread s u h e };
    opens =
        λ other differs. record { keeps = λ s a u h e. stored_elsewhere other [] s u differs h e };
    writes = λ other text differs. record {
      keeps = λ s a u h e. stored_elsewhere other text s u differs h e;
    };
  }

module _ (dir : Bytes) where
  -- The directory is there.
  Stays : Env → Type 0
  Stays s = dir_exists ground_world dir s ≡ pos 1

  Stays-delivered :
      (tail stream : Bytes) (s u : Env) {a : ℤ × Bytes}
      → Stays s
      → deliver tail stream s ≡ done a u
      → Stays u
  unfolding Stays dir_exists
  Stays-delivered tail [] s u h e = subst Stays (done-state e) h
  Stays-delivered tail (c ∷ cs) s u h e =
      let h' : Stays (record s { unread = cs }) = h in subst Stays (done-state e) h'

  demo-Stays : Untouched ground_world Stays []
  unfolding Stays dir_exists
  demo-Stays = record {
    send = λ m. record {
      keeps = λ s a u h e. let h' : Stays (emit m s) = h in subst Stays (done-state e) h';
    };
    receive = λ array. record { keeps = λ s a u h e. Stays-delivered (0 ∷ []) s.unread s u h e };
    binary_receive = λ array. record { keeps = λ s a u h e. Stays-delivered [] s.unread s u h e };
    opens = λ other differs. record {
      keeps = λ s a u h e. let h' : Stays (store other [] s) = h in subst Stays (done-state e) h';
    };
    writes = λ other text differs. record {
      keeps = λ s a u h e. let h' : Stays (store other text s) = h in subst Stays (done-state e) h';
    };
  }

  Stays-locked : (tr : TrInfo) → Keeps Stays (shared.set_tr tr)
  unfolding Stays dir_exists
  Stays-locked tr = record {
    keeps = λ s a u h e. let h' : Stays (record s { tr = tr }) = h in subst Stays (done-state e) h';
  }

pub demo-FilesApart : FilesApart ground_world shared file
demo-FilesApart = record {
  calls = demo-Untouched;
  lock = λ name bytes tr. record { keeps = λ s a u h e. subst (Holds name bytes) (done-state e) h };
  dirs = unfold Stays in demo-Stays;
  lock_dirs = unfold Stays in Stays-locked;
}

abbrev pub demo-Works : Works ground_world shared unread file
demo-Works = record {
  stream = record { text = demo-IsStream.text; binary = demo-IsStream.binary };
  net = record { after = emit; text = λ m s. refl; unread-after = λ m s. refl };
  files = record {
    opened = demo-StoresFiles.opened;
    written = demo-StoresFiles.written;
    can_write = λ s name. true;
    room = λ name. always ground_world;
    open_lem = λ name s free. refl;
    write_lem = demo-StoresFiles.write_lem;
    file-opened = demo-StoresFiles.file-opened;
    file-written = demo-StoresFiles.file-written;
    unread-opened = demo-StoresFiles.unread-opened;
    unread-written = demo-StoresFiles.unread-written;
  };
  shared = record {
    set = λ tr s. record s { tr = tr };
    set_lem = λ tr s. refl;
    unread-set = λ tr s. refl;
  };
  apart = demo-FilesApart;
  room_lock = λ name tr. record { keeps = λ s a u h e. refl };
  memory = λ n u. refl;
  runs = λ u. refl;
}
