-- ===== src/World.antt =====
-- What the program runs in. Effects are functions of an unknown state `S` of the environment: the
-- sockets, the file system, the processes. The operations of the record are the functions of the
-- operating system, of zlib and of the TCP library that the source calls and does not contain.
pub mod Keeps
use study_and_development_of.Base.{◌≡◌, ap, ℕ, ℤ, Bytes, List, Bool, Option}

-- How a piece of code ends: it returns, it ends the process or the thread with a status, or it
-- writes past the end of a buffer, after which nothing is promised.
pub data Outcome (S A : Type 0) : Type 0 where
  done : A → S → Outcome S A
  exited : ℤ → S → Outcome S A
  overflow : Outcome S A

abbrev pub Prog : Type 0 → Type 0 → Type 0
Prog S A = S → Outcome S A

abbrev pub continue : {S A B : Type 0} → (A → Prog S B) → Outcome S A → Outcome S B
continue f (done a s) = f a s
continue f (exited c s) = exited c s
continue f overflow = overflow

infixl 5 ◌>>=◌ ◌>>◌
abbrev pub ◌>>=◌ : {S A B : Type 0} → Prog S A → (A → Prog S B) → Prog S B
◌>>=◌ m f s = continue f (m s)

-- A block goes on from the value and the state that its first step returns.
pub bind-done :
    {S A B : Type 0} (m : Prog S A) (f : A → Prog S B) {s t : S} {a : A}
    → m s ≡ done a t
    → (m >>= f) s ≡ f a t
bind-done m f e = ap (continue f) e

abbrev pub ◌>>◌ : {S A B : Type 0} → Prog S A → Prog S B → Prog S B
m >> n = m >>= λ _. n

abbrev pub pure : {S A : Type 0} → A → Prog S A
pure a s = done a s

abbrev pub gets : {S A : Type 0} → (S → A) → Prog S A
gets f s = done (f s) s

-- exit and pthread_exit
abbrev pub leave : {S A : Type 0} → ℤ → Prog S A
leave code s = exited code s

-- opendir: the names that readdir gives, or the two kinds of failure that the program tells apart.
pub data Opened : Type 0 where
  entries : List Bytes → Opened
  enoent : Opened
  unreadable : Opened

-- mkdir: 0, -1 with EEXIST, or -1 with another error.
pub data Made : Type 0 where
  created exists failed : Made

-- The fields of a `struct tm` that strptime fills from "%Y%m%d-%H%M%S".
pub record Tm : Type 0 where
  pub year : ℕ
  pub month : ℕ
  pub day : ℕ
  pub hour : ℕ
  pub minute : ℕ
  pub second : ℕ

pub record World (S : Type 0) : Type 0 where
  -- tcpsocketlib. A failed call has run the `error_handler` of the program, which may exit.
  pub tcp_send : Bytes → Prog S ℤ
  pub tcp_binary_send : Bytes → ℤ → Prog S ℤ
  -- The value returned, and the array that was passed as it is afterwards.
  pub tcp_receive : Bytes → Prog S (ℤ × Bytes)
  pub tcp_binary_receive : Bytes → Prog S (ℤ × Bytes)
  -- create_tcp_client_connection
  pub connect : Prog S ℤ
  -- The output of a command, if popen starts it; system.
  pub popen : Bytes → Prog S (Option Bytes)
  pub system : Bytes → Prog S ℤ
  -- The file system.
  pub opendir : Bytes → S → Opened
  pub remove : Bytes → Prog S ℤ
  pub nftw : Bytes → (Bytes → Prog S ℤ) → Prog S ℤ
  pub mkdir : Bytes → Prog S Made
  pub rename : Bytes → Bytes → Prog S ℤ
  -- fopen for reading: the bytes of the file. Whether fread gives them all.
  pub fopen_read : Bytes → S → Option Bytes
  pub fread : Bytes → S → Bool
  -- fopen for writing truncates the file. Whether fwrite writes all its bytes.
  pub fopen_write : Bytes → Prog S Bool
  pub fwrite : Bytes → Bytes → Prog S Bool
  -- fputs to a file that is open for writing. access(path, F_OK) == 0.
  pub fputs : Bytes → Bytes → Prog S ℤ
  pub access : Bytes → S → Bool
  -- Whether malloc gives this many bytes.
  pub malloc : ℕ → S → Bool
  -- zlib: the output, if it fits in the given number of bytes and the input is valid.
  pub compress_bound : ℕ → ℕ
  pub compress : ℕ → Bytes → Option Bytes
  pub uncompress : ℕ → Bytes → Option Bytes
  -- strptime with the format "%Y%m%d-%H%M%S", and mktime, which reads `tm_isdst` as well.
  pub strptime : Bytes → Option Tm
  pub mktime : Tm → ℤ → ℤ
  -- What a variable holds that the code reads before it is given a value.
  pub junk_int : ℤ
  -- The same for the `n` of ExtractFileNumber, when as many files have been counted and the name is
  -- this one, and for the `tm_isdst` of StringToTime, when the name is this one: no directory has a name
  -- twice.
  pub junk_number : ℤ → Bytes → ℤ
  pub junk_isdst : Bytes → ℤ
  pub junk_text : Bytes
