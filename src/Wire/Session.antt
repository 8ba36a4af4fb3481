-- ===== src/Wire/Session.antt =====
-- Round after round of the transmission thread: the files that the server sends, one after another.
pub mod One
pub mod Rounds
pub mod Ending
pub mod Directory
pub mod Last
pub mod Thread
use study_and_development_of.Base.{
  ℕ, ◌<◌, ◌^◌, ◌≡◌, ◌≢◌, ℤ, pos, Bytes, List, [], ◌∷◌, ◌++◌, codes, length, Option, some, All, true,
  Bool,
}
use study_and_development_of.Libc.Format.{fmt_d}
use study_and_development_of.World.{World}
use study_and_development_of.World.Keeps.{Keeps}
use study_and_development_of.Common.Info.{TrInfo}
use study_and_development_of.Common.Paths.{dir_exists}
use study_and_development_of.Common.Compression.{to_size}
use study_and_development_of.Common.Stream.{IsStream}
use study_and_development_of.Server.Transfer.{sending_text}
use study_and_development_of.Server.Transfer.Emits.{with_sizes, transfer}
use study_and_development_of.Server.Remove.{removed_text}
use study_and_development_of.Client.Receive.Stored.{StoresFiles}
use study_and_development_of.Client.Transmission.{Shared, remove_file_command}
use study_and_development_of.Client.Transmission.Waits.{Sending, waits, asks}
use study_and_development_of.Wire.Cycle.{NameFits}
use study_and_development_of.Wire.Frame.{Untouched}
use study_and_development_of.Wire.Remaining.{Asked, asked_file}
use study_and_development_of.Wire.Sending.{active_dir, local_file, SetsShared}

-- A file that the server sends after `delays` WAIT answers: what `sending_text` says of it, its bytes
-- and their compressed form.
pub record Item : Type 0 where
  pub delays : ℕ
  pub tr : TrInfo
  pub contents : Bytes
  pub out : Bytes

abbrev pub item_file : Item → Bytes
item_file x = local_file x.tr

-- "FILE n, dir REMOVED"
abbrev pub removed_line : TrInfo → Bytes
removed_line tr =
    codes "FILE " ++ (fmt_d tr.f.first ++ (codes ", " ++ (tr.d.first ++ codes " REMOVED")))

-- What the server puts on the connection for one file: the answers to SEND_NEXT and to REMOVE_FILE.
abbrev pub item_answers : Item → Bytes → Bytes
item_answers x rest = waits x.delays (
    transfer (sending_text x.tr) (length x.contents) x.out
    ++ (removed_text x.tr.f.first x.tr.d.first ++ rest))

abbrev pub session_answers : List Item → Bytes → Bytes
session_answers [] rest = rest
session_answers (x ∷ xs) rest = item_answers x (session_answers xs rest)

-- What the client sends for one file, and for all of them.
abbrev pub item_commands : Item → Bytes → Bytes
item_commands x rest = asks x.delays ++ (remove_file_command x.tr ++ rest)

abbrev pub session_commands : List Item → Bytes → Bytes
session_commands [] rest = rest
session_commands (x ∷ xs) rest = item_commands x (session_commands xs rest)

-- What the client can receive: the names fit, the lines fit an array of `size` bytes, neither form
-- reaches 2^31 bytes, the waits leave a round to spare, and zlib gives the contents back.
pub record Fits {S : Type 0} (w : World S) (size rounds : ℕ) (x : Item) : Type 0 where
  pub names : NameFits x.tr
  pub contents_small : length x.contents < 2 ^ 31
  pub out_small : length x.out < 2 ^ 31
  pub line :
      length (with_sizes (sending_text x.tr) (pos (length x.contents)) (pos (length x.out))) < size
  pub reply : length (removed_line x.tr) < size
  pub waiting : x.delays < rounds
  pub packed : w.uncompress (to_size (pos (length x.contents))) x.out ≡ some x.contents

-- The files of a session have different local names.
abbrev pub Distinct : List Item → Type 0
Distinct [] = Unit
Distinct (x ∷ xs) = All (λ y. item_file y ≢ item_file x) xs × Distinct xs

-- The same directory on the drone, and the same logger.
abbrev pub SameDir : TrInfo → TrInfo → Type 0
SameDir tr y = (y.d.first ≡ tr.d.first) × (y.d.logger_n ≡ tr.d.logger_n)

-- The local directory for the file is there, and the file can be written.
abbrev pub There : {S : Type 0} → World S → (S → Bytes → Bool) → S → Item → Type 0
There w can_write s x =
    (dir_exists w (active_dir x.tr) s ≡ pos 1) × (can_write s (item_file x) ≡ true)

-- The remaining files can be written.
abbrev pub Writable : (Bytes → Bool) → Bytes → List Asked → Type 0
Writable can_write dir ys = All (λ y. can_write (asked_file dir y) ≡ true) ys

-- Files do not touch each other, and neither the socket nor the lock touches files. A directory that is
-- there stays, but for calls of rename.
pub record FilesApart {S : Type 0} (w : World S) (t : Shared S) (file : S → Bytes → Option Bytes)
    : Type 0 where
  pub calls : (name bytes : Bytes) → Untouched w (λ s. file s name ≡ some bytes) name
  pub lock :
      (name bytes : Bytes) (tr : TrInfo) → Keeps (λ s. file s name ≡ some bytes) (t.set_tr tr)
  pub dirs : (dir : Bytes) → Untouched w (λ s. dir_exists w dir s ≡ pos 1) []
  pub lock_dirs :
      (dir : Bytes) (tr : TrInfo) → Keeps (λ s. dir_exists w dir s ≡ pos 1) (t.set_tr tr)

-- What a client that works relies on: the connection delivers what is sent and takes what it is given,
-- files that can be opened are written and kept, memory is given, and nobody tells the thread to stop.
pub record Works {S : Type 0} (w : World S) (t : Shared S) (unread : S → Bytes)
    (file : S → Bytes → Option Bytes) : Type 0 where
  pub stream : IsStream w unread
  pub net : Sending w unread
  pub files : StoresFiles w unread file
  pub shared : SetsShared t unread
  pub apart : FilesApart w t file
  pub room_lock :
      (name : Bytes) (tr : TrInfo) → Keeps (λ s. files.can_write s name ≡ true) (t.set_tr tr)
  pub memory : (n : ℕ) (u : S) → w.malloc n u ≡ true
  pub runs : (u : S) → t.running u ≡ true
