-- ===== src/Server/Disk.antt =====
-- What the server relies on in the disk of the drone, once the logger has stopped.
pub mod Steps
pub mod Rest
use mathlib.Core.List.{Perm}
use study_and_development_of.Base.{
  ℕ, suc, ◌^◌, ◌+◌, ◌<◌, ◌≡◌, ℤ, pos, is_negsuc, Bytes, List, [], ◌∷◌, ◌++◌, codes, length, Option,
  some, All, true, false,
}
use study_and_development_of.Libc.Format.{snprintf}
use study_and_development_of.Libc.RoundTrip.{IsWord}
use study_and_development_of.World.{World, Prog, done, entries}
use study_and_development_of.World.Keeps.{Keeps}
use study_and_development_of.Common.Info.{timestamp_len, TrInfo}
use study_and_development_of.Common.Stream.Lines.{IsText}
use study_and_development_of.Server.Logger.Commands.{pgrep}
use study_and_development_of.Server.Scan.{max_path_len, is_dir_name}
use study_and_development_of.Server.Scan.Files.{data_names}
use study_and_development_of.Server.Scan.Dirs.{dir_names}
use study_and_development_of.Server.Scan.Numbers.{named, found_files, last_of}
use study_and_development_of.Server.Scan.Next.{tof_path, Lies, next_tr}
use study_and_development_of.Server.Transfer.{data_file}
use study_and_development_of.Server.Transfer.Emits.{Compresses}
use study_and_development_of.Server.Remove.{unlink_cb}
use study_and_development_of.Server.Frame.{Quiet}

-- The path of file `i` of the directory.
abbrev pub file_path : Bytes → Bytes → ℤ → ℕ → Bytes
file_path dir_name d n i = snprintf max_path_len (data_file dir_name d n (pos i))

-- What FindNextTr finds while file `i` is the lowest, in front of `is`.
abbrev pub file_tr : Bytes → ℤ → ℕ → List ℕ → TrInfo
file_tr d n i is = next_tr d n (found_files i (last_of i is) (suc (length is)))

-- A disk that holds one directory, `d`, with the files of the numbers that `Stock` names, in ascending
-- order, each an `int`: how it is read, that counting processes finds none, that sending and receiving leave it as it
-- is, and that removing the first file leaves the others.
pub record Disk {S : Type 0} (w : World S) (unread sent : S → Bytes)
    (logger_name dir_name d : Bytes) (n : ℤ) (contents out : ℕ → Bytes) : Type 1 where
  pub Stock : List ℕ → S → Type 0
  pub tops :
      (is : List ℕ) (s : S)
      → Stock is s
      → (names : List Bytes) × (w.opendir dir_name s ≡ entries names) × (dir_names names ≡ d ∷ [])
  pub lies : (is : List ℕ) (s : S) → Stock is s → Lies w dir_name d n s
  pub files :
      (is : List ℕ) (s : S)
      → Stock is s
      → (names : List Bytes) × (w.opendir (tof_path dir_name d n) s ≡ entries names)
        × Perm (data_names names) (named is)
  pub ints : (is : List ℕ) (s : S) → Stock is s → All (λ i. i < 2 ^ 31) is
  pub readable :
      (i : ℕ) (is : List ℕ) (s : S)
      → Stock (i ∷ is) s
      → Compresses w (file_path dir_name d n i) (contents i) (out i) s
  pub idle :
      (is : List ℕ) (s : S)
      → Stock is s
      → (t : S) × (w.popen (pgrep w logger_name) s ≡ done (some []) t)
        × Stock is t
        × (sent t ≡ sent s)
        × (unread t ≡ unread s)
  pub removes :
      (i : ℕ) (is : List ℕ) (s : S)
      → Stock (i ∷ is) s
      → (t : S) × (w.remove (file_path dir_name d n i) s ≡ done (pos 0) t)
        × Stock is t
        × (sent t ≡ sent s)
        × (unread t ≡ unread s)
  pub quiet : (is : List ℕ) → Quiet w (Stock is)
  pub receive : (is : List ℕ) (array : Bytes) → Keeps (Stock is) (w.tcp_receive array)

-- Sending reads nothing, and receiving sends nothing.
pub record Duplex {S : Type 0} (w : World S) (unread sent : S → Bytes) : Type 0 where
  pub sending : (bytes : Bytes) → Quiet w (λ s. unread s ≡ bytes)
  pub receiving : (bytes array : Bytes) → Keeps (λ s. sent s ≡ bytes) (w.tcp_receive array)

-- The name of the directory, and what the value that FindNextTr does not return is not.
pub record Named {S : Type 0} (w : World S) (d : Bytes) : Type 0 where
  pub counts : is_dir_name d ≡ true
  pub short : length d < timestamp_len
  pub word : IsWord d
  pub text : All IsText d
  pub no_dir : is_negsuc w.junk_int 0 ≡ false
  pub no_file : is_negsuc w.junk_int 1 ≡ false

-- What is left on the disk without the files: the directory can be removed, and `Gone` says that it has
-- been.
pub record Leftovers {S : Type 0} (w : World S) (unread sent : S → Bytes)
    (logger_name dir_name : Bytes) (path : Bytes) (Stocked : S → Type 0) : Type 1 where
  pub Gone : S → Type 0
  pub clears :
      (s : S)
      → Stocked s
      → (t : S) × (w.nftw path (unlink_cb w) s ≡ done (pos 0) t)
        × Gone t
        × (sent t ≡ sent s)
        × (unread t ≡ unread s)
  pub tops :
      (s : S)
      → Gone s
      → (names : List Bytes) × (w.opendir dir_name s ≡ entries names) × (dir_names names ≡ [])
  pub idle :
      (s : S)
      → Gone s
      → (t : S) × (w.popen (pgrep w logger_name) s ≡ done (some []) t) × (sent t ≡ sent s)
  pub quiet : Quiet w Gone
  pub receive : (array : Bytes) → Keeps Gone (w.tcp_receive array)
