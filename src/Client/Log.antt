-- ===== src/Client/Log.antt =====
-- The log file of the client: PrintLog and TimestampString of app/client/client_lib.c.
use study_and_development_of.Base.{ℕ, ℤ, pos, Bytes, ◌++◌, codes}
use study_and_development_of.Libc.Format.{snprintf}
use study_and_development_of.World.{Prog, Tm, ◌>>=◌, pure, gets}

abbrev pub max_log_format : ℕ
max_log_format = 256

-- What PrintLog uses of the clock, of the mutex `t->lock` and of the file `t->log_file`. `A` stands for
-- the variable arguments.
pub record LogFile (S A : Type 0) : Type 0 where
  pub time : Prog S ℤ
  pub localtime : ℤ → S → Tm
  -- The size of the array, the format and the broken-down time.
  pub strftime : ℕ → Bytes → Tm → Bytes
  pub lock : Prog S (Unit {0})
  pub unlock : Prog S (Unit {0})
  pub vfprintf : Bytes → A → Prog S ℤ

module _ {S A : Type 0} (f : LogFile S A) where
  -- The text left in the array, and the value returned.
  unfoldable pub timestamp_string : Bytes → Prog S (ℤ × Bytes)
  timestamp_string format = f.time >>= λ timer.
      gets (f.localtime timer) >>= λ tm_info. pure (pos 0, f.strftime 26 format tm_info)

  -- The format of the caller, behind the time: it is cut where the array ends.
  unfoldable pub print_log : Bytes → A → Prog S ℤ
  unfolding timestamp_string
  print_log format args = timestamp_string (codes "%Y-%m-%d %H:%M:%S") >>= λ (ret, timestamp).
      let buffer = snprintf max_log_format (timestamp ++ (codes " - " ++ format)) in
      f.lock >>= λ _. f.vfprintf buffer args >>= λ ret. f.unlock >>= λ _. pure ret
