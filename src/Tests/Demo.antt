-- ===== src/Tests/Demo.antt =====
-- A small environment that meets what the theorems assume: a connection that delivers byte by byte,
-- files in memory, a compression that leaves the bytes as they are.
use study_and_development_of.Base.{
  ℕ, ◌≡◌, ◌≢◌, refl, sym, ap, ◌∙◌, ℤ, pos, Bytes, List, [], ◌∷◌, ◌++◌, codes, length, Bool, true,
  false, Option, none, some, equal, equal_self, arith, if◌then◌else◌, All, ◌&&◌, not,
}
use study_and_development_of.Libc.Scan.{digits_value, is_space}
use study_and_development_of.Libc.RoundTrip.{IsWord}
use study_and_development_of.World.{Outcome, done, World, Opened, enoent, created}
use study_and_development_of.Common.Info.{TrInfo}
use study_and_development_of.Common.Stream.{Delivers, IsStream, Pending}
use study_and_development_of.Common.TcpBuffer.{TcpBuffer}
use study_and_development_of.Server.Transfer.Emits.{SendsAll}
use study_and_development_of.Client.Receive.Stored.{StoresFiles}
use study_and_development_of.Wire.Frame.{Untouched}
use study_and_development_of.Wire.Fetch.{Unpacks}
use study_and_development_of.DataGen.Copy.Copies.{Appends}

pub record Env : Type 0 where
  pub unread : Bytes
  pub sent : Bytes
  pub files : Bytes → Option Bytes
  pub dirs : Bytes → Opened
  pub processes : Bytes
  pub commands : List Bytes
  pub tr : TrInfo

abbrev update : (Bytes → Option Bytes) → Bytes → Bytes → Bytes → Option Bytes
update f name bytes other = if equal other name then some bytes else f other

abbrev pub emit : Bytes → Env → Env
emit m s = record s { sent = s.sent ++ m }

abbrev pub store : Bytes → Bytes → Env → Env
store name bytes s = record s { files = update s.files name bytes }

-- The connection gives one byte at a time, and nothing at its end. A NUL follows a text.
abbrev pub deliver : Bytes → Bytes → Env → Outcome Env (ℤ × Bytes)
deliver tail [] s = done (pos 0, 0 ∷ tail) s
deliver tail (c ∷ cs) s = done (pos 1, c ∷ tail) (record s { unread = cs })

abbrev pub found : Bytes → Option Bytes → Bytes
found line none = line
found line (some old) = old ++ line

abbrev pub demo : World Env
demo = record {
  tcp_send = λ m s. done (pos 1) (emit m s);
  tcp_binary_send = λ m n s. done (pos 1) (emit m s);
  tcp_receive = λ array s. deliver (0 ∷ []) s.unread s;
  tcp_binary_receive = λ array s. deliver [] s.unread s;
  connect = λ s. done (pos 3) s;
  popen = λ cmd s. done (some s.processes) s;
  system = λ cmd s. done (pos 0) (record s { commands = cmd ∷ s.commands });
  opendir = λ path s. s.dirs path;
  remove = λ path s. done (pos 0) (record s { commands = path ∷ s.commands });
  nftw = λ path visit s. visit path s;
  mkdir = λ path s. done created (record s { commands = path ∷ s.commands });
  rename = λ old new s. done (pos 0) s;
  fopen_read = λ path s. s.files path;
  fread = λ path s. true;
  fopen_write = λ path s. done true (store path [] s);
  fwrite = λ path bytes s. done true (store path bytes s);
  fputs = λ path line s. done (pos 0) (store path (found line (s.files path)) s);
  access = λ path s. false;
  malloc = λ n s. true;
  compress_bound = λ n. n;
  compress = λ n bytes. some bytes;
  uncompress = λ n bytes. some bytes;
  strptime = λ text. some (record {
    year = (digits_value 0 text).0;
    month = 0;
    day = 0;
    hour = 0;
    minute = 0;
    second = 0;
  });
  mktime = λ tm isdst. pos tm.year;
  junk_int = pos 0;
  junk_number = λ counted name. counted;
  junk_isdst = λ name. pos 0;
  junk_text = [];
}

abbrev pub unread : Env → Bytes
unread s = s.unread

abbrev pub sent : Env → Bytes
sent s = s.sent

abbrev pub file : Env → Bytes → Option Bytes
file s name = s.files name

deliver-Delivers :
    (tail bytes : Bytes) (s : Env) (array : Bytes)
    → s.unread ≡ bytes
    → bytes ≢ []
    → Delivers unread (λ a u. deliver tail u.unread u) s array
deliver-Delivers tail [] s array e ne = absurd (ne refl)
deliver-Delivers tail (c ∷ cs) s array e ne = record {
  got = c ∷ [];
  tail = tail;
  after = record s { unread = cs };
  got_some = λ none_got. cc;
  taken = e;
  result = rw e refl;
}

pub demo-IsStream : IsStream demo unread
demo-IsStream = record {
  text = λ s array ne. deliver-Delivers (0 ∷ []) s.unread s array refl ne;
  binary = λ s array ne. deliver-Delivers [] s.unread s array refl ne;
}

pub demo-SendsAll : SendsAll demo sent
demo-SendsAll = record {
  after = emit;
  text = λ m s. refl;
  binary = λ m s. refl;
  sent-after = λ m s. refl;
}

pub file-store : (name bytes : Bytes) (s : Env) → file (store name bytes s) name ≡ some bytes
file-store name bytes s = rw (equal_self name) refl

-- What holds of every state is kept.
pub always : (w : World Env) → Untouched w (λ s. true ≡ true) []
always w = record {
  send = λ m. record { keeps = λ s a u h e. refl };
  receive = λ array. record { keeps = λ s a u h e. refl };
  binary_receive = λ array. record { keeps = λ s a u h e. refl };
  opens = λ other differs. record { keeps = λ s a u h e. refl };
  writes = λ other text differs. record { keeps = λ s a u h e. refl };
}

abbrev pub demo-StoresFiles : StoresFiles demo unread file
demo-StoresFiles = record {
  opened = λ name s. store name [] s;
  written = store;
  can_write = λ s name. true;
  room = λ name. always demo;
  open_lem = λ name s free. refl;
  write_lem = λ name bytes s. refl;
  file-opened = λ name s. file-store name [] s;
  file-written = λ name bytes s h. file-store name bytes s;
  unread-opened = λ name s. refl;
  unread-written = λ name bytes s. refl;
}

abbrev pub demo-Appends : Appends demo file
demo-Appends = record {
  opened = λ name s. store name [] s;
  put = λ name line s. store name (found line (s.files name)) s;
  open_lem = λ name s. refl;
  put_lem = λ name line s. refl;
  file-opened = λ name s. file-store name [] s;
  file-put = λ name line old s h.
      file-store name (found line (s.files name)) s ∙ ap (λ o. some (found line o)) h;
}

-- Nothing on the connection, one file, no directory and no process.
abbrev pub idle : Env
idle = record {
  unread = [];
  sent = [];
  files = λ name. if equal name (codes "in") then some (codes "a,b\nc") else none;
  dirs = λ path. enoent;
  processes = [];
  commands = [];
  tr = record {
    f = record { first = pos 0; last = pos 0; count = pos 0 };
    d = record { first = []; last = []; count = pos 0; logger_n = pos 0 };
  };
}

-- At the start the buffer is empty: what is pending is what the connection has.
abbrev pub fresh : Bytes → TcpBuffer
fresh array = record { dim = pos 0; i = 0; buffer = array }

pub fresh-Pending : (array : Bytes) (s : Env) → Pending unread (fresh array) s s.unread
fresh-Pending array s = record {
  ahead = [];
  buffered = record { tail = array; split = refl; dim_is = refl };
  stream_is = refl;
}

abbrev pub zeros : ℕ → Bytes
zeros ℕ.zero = []
zeros (ℕ.suc n) = 0 ∷ zeros n

-- A test for the words that the theorems speak of.
abbrev pub no_space : Bytes → Bool
no_space [] = true
no_space (c ∷ s) = let rest = no_space s in not (is_space c) && rest

no_space-All : (s : Bytes) → no_space s ≡ true → All (λ c. is_space c ≡ false) s
no_space-All [] h = tt
no_space-All (c ∷ s) h =
    let (here, later) = both (is_space c) (no_space s) h in (here, no_space-All s later)
  where
    both : (a b : Bool) → (not a && b) ≡ true → (a ≡ false) × (b ≡ true)
    both a b h = ground arith

pub no_space-IsWord : (c : ℕ) (s : Bytes) → no_space (c ∷ s) ≡ true → IsWord (c ∷ s)
no_space-IsWord c s h = (λ e. cc, no_space-All (c ∷ s) h)

pub length-zeros : (n : ℕ) → length (zeros n) ≡ n
length-zeros ℕ.zero = refl
length-zeros (ℕ.suc n) = omega (arith, length-zeros n)

pub demo-Unpacks : Unpacks demo demo
demo-Unpacks bound x y small e = sym e
