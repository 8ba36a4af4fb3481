-- ===== src/Server/Logger.antt =====
-- The logger's process, in app/server/server_lib.c: is it running, start it, stop it.
pub mod Commands
use study_and_development_of.Base.{
  ℕ, ◌-◌, ℤ, pos, negsuc, is_pos, at_least, Bytes, ◌∷◌, [], ◌++◌, codes, Option, none, some, length,
  ltb, if◌then◌else◌,
}
use study_and_development_of.Libc.Format.{snprintf}
use study_and_development_of.Libc.Scan.{scan_word, skip_word, assigned}
use study_and_development_of.Libc.Fgets.{fgets_all}
use study_and_development_of.World.{Prog, overflow, ◌>>=◌, ◌>>◌, pure, World}
use study_and_development_of.Common.Info.{timestamp_len}

abbrev pub buffer_dim : ℕ
buffer_dim = 256

module _ {S : Type 0} (w : World S) where
  -- `%s` into an array of `size` bytes: the word and its NUL have to fit.
  unfoldable pub store_word : ℕ → Option Bytes → Prog S Bytes
  store_word size none = pure w.junk_text
  store_word size (some word) = if ltb (length word) size then pure word else (λ _. overflow)

  -- The value of ProcNumber, by what popen gave: a line for each process.
  unfoldable pub line_count : Option Bytes → ℤ
  unfolding fgets_all
  line_count none = negsuc 0
  line_count (some lines) = pos (length (fgets_all (buffer_dim - 1) lines))

  -- The number of processes with this name, or -1.
  unfoldable pub proc_number : Bytes → Prog S ℤ
  unfolding line_count
  proc_number name = w.popen (snprintf (buffer_dim - 9) (codes "pgrep -l " ++ name)) >>= λ res.
      pure (line_count res)

  -- tcp_send, whose value the handlers ignore, and the handler's own value.
  abbrev pub reply : Bytes → ℤ → Prog S ℤ
  reply message ret = w.tcp_send message >> pure ret

  unfoldable pub status : Bytes → Prog S ℤ
  unfolding proc_number
  status logger_name = proc_number logger_name >>= λ n.
      if is_pos n 0
      then reply (codes "STATUS: 0\n") (pos 0)
      else if at_least 1 n
      then reply (codes "STATUS: 1\n") (pos 0)
      else reply (codes "ERROR FINDING ACTIVE PROCESSES\n") (negsuc 0)

  -- sscanf(cmd, "%*s %s", timestamp)
  unfoldable pub scan_argument : ℕ → Bytes → Prog S Bytes
  unfolding store_word
  scan_argument size cmd = store_word size (scan_word (skip_word (some cmd))).0

  -- The three ways to go on once the number of processes is known.
  abbrev pub by_count : {A : Type 0} → ℤ → A → A → A → A
  by_count n none_runs runs unknown =
      if is_pos n 0 then none_runs else if at_least 1 n then runs else unknown

  unfoldable pub start : Bytes → Bytes → Bytes → Prog S ℤ
  unfolding scan_argument proc_number
  start cmd start_name logger_name = scan_argument timestamp_len cmd >>= λ timestamp.
      proc_number logger_name >>= λ n.
      by_count n
        (w.system (snprintf 128 (start_name ++ (b' ' ∷ timestamp)))
          >> reply (codes "Logging system STARTED\n") (pos 0))
        (reply (codes "The logging system is already running\n") (pos 0))
        (reply (codes "ERROR FINDING ACTIVE PROCESSES\n") (negsuc 0))

  unfoldable pub stop : Bytes → Bytes → Prog S ℤ
  unfolding proc_number
  stop stop_name logger_name = proc_number logger_name >>= λ n.
      if at_least 1 n
      then (w.system stop_name >> reply (codes "Logging system STOPPED\n") (pos 0))
      else if is_pos n 0
      then reply (codes "The logging system is NOT running\n") (pos 0)
      else reply (codes "ERROR FINDING ACTIVE PROCESSES\n") (negsuc 0)
