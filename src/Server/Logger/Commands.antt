-- ===== src/Server/Logger/Commands.antt =====
-- STATUS, START and STOP agree on whether the logger runs, and START checks no length.
use study_and_development_of.Base.{
  ℕ, suc, ◌-◌, ◌≤◌, ◌<◌, ◌≡◌, refl, ◌∙◌, ap, ℤ, pos, is_pos, at_least, Bytes, [], ◌∷◌, ◌++◌, codes,
  length, ltb, lt→ltb, some, false, arith, if◌then◌else◌,
}
use study_and_development_of.Libc.Format.{snprintf}
use study_and_development_of.Libc.Scan.{skip_word}
use study_and_development_of.Libc.RoundTrip.{IsWord, scan_word-word_end}
use study_and_development_of.World.{done, overflow, Prog, World, ◌>>◌, continue, bind-done}
use study_and_development_of.Common.Info.{timestamp_len}
use study_and_development_of.Server.Logger.{
  buffer_dim, store_word, reply, scan_argument, proc_number, status, start, stop,
}

skip_word-start : (s : Bytes) → skip_word (some (codes "START " ++ s)) ≡ some (32 ∷ s)
unfolding skip_word
skip_word-start s = refl

module _ {S : Type 0} (w : World S) where
  store_word-overflow :
      (size : ℕ) (word : Bytes) (s : S)
      → size ≤ length word
      → store_word w size (some word) s ≡ overflow
  unfolding store_word
  store_word-overflow size word s h = rw (not_less (length word) size h) refl
    where
      not_less : (a b : ℕ) → b ≤ a → ltb a b ≡ false
      not_less a b h = ground arith

  scan_argument-overflow :
      (size : ℕ) (word : Bytes) (s : S)
      → IsWord word
      → size ≤ length word
      → scan_argument w size (codes "START " ++ word) s ≡ overflow
  unfolding scan_argument
  scan_argument-overflow size word s h long =
      rw skip_word-start (rw (scan_word-word_end word h) (store_word-overflow size word s long))

  -- START with a word of sixteen bytes or more writes past the end of the array of the timestamp,
  -- before anything else is done.
  pub start-overflow :
      (word start_name logger_name : Bytes) (s : S)
      → IsWord word
      → timestamp_len ≤ length word
      → start w (codes "START " ++ word) start_name logger_name s ≡ overflow
  unfolding start
  start-overflow word start_name logger_name s h long =
      ap (continue _) (scan_argument-overflow timestamp_len word s h long)

  pub store_word-fits :
      (size : ℕ) (word : Bytes) (s : S)
      → length word < size
      → store_word w size (some word) s ≡ done word s
  unfolding store_word
  store_word-fits size word s h = rw (lt→ltb (length word) size h) refl

  scan_argument-fits :
      (size : ℕ) (word : Bytes) (s : S)
      → IsWord word
      → length word < size
      → scan_argument w size (codes "START " ++ word) s ≡ done word s
  unfolding scan_argument
  scan_argument-fits size word s h fits =
      rw skip_word-start (rw (scan_word-word_end word h) (store_word-fits size word s fits))

  -- The command that ProcNumber runs.
  abbrev pub pgrep : Bytes → Bytes
  pgrep name = snprintf (buffer_dim - 9) (codes "pgrep -l " ++ name)

  -- pgrep prints nothing: no logger runs.
  pub proc_number-idle :
      (name : Bytes) (s t : S)
      → w.popen (pgrep name) s ≡ done (some []) t
      → proc_number w name s ≡ done (pos 0) t
  unfolding proc_number
  proc_number-idle name s t e = bind-done (w.popen (pgrep name)) _ e

  -- It prints something: at least one runs.
  pub proc_number-running :
      (name : Bytes) (c : ℕ) (cs : Bytes) (s t : S)
      → w.popen (pgrep name) s ≡ done (some (c ∷ cs)) t
      → (k : ℕ) × (proc_number w name s ≡ done (pos (suc k)) t)
  unfolding proc_number
  proc_number-running name c cs s t e = (_, bind-done (w.popen (pgrep name)) _ e)

  -- If pgrep prints nothing, STATUS answers 0, START with a word that fits its array runs the
  -- start script with that word and says so, and STOP runs nothing and says that there is nothing
  -- to stop.
  pub logger_idle :
      (word start_name stop_name name : Bytes) (s t : S)
      → IsWord word
      → length word < timestamp_len
      → w.popen (pgrep name) s ≡ done (some []) t
      → (status w name s ≡ reply w (codes "STATUS: 0\n") (pos 0) t)
        × (start w (codes "START " ++ word) start_name name s
            ≡ (w.system (snprintf 128 (start_name ++ (b' ' ∷ word)))
                  >> reply w (codes "Logging system STARTED\n") (pos 0))
                t)
        × (stop w stop_name name s
            ≡ reply w (codes "The logging system is NOT running\n") (pos 0) t)
  unfolding status start stop
  logger_idle word start_name stop_name name s t h fits e =
      let n = proc_number-idle name s t e in
      (
        bind-done (proc_number w name) _ n,
        bind-done (scan_argument w timestamp_len (codes "START " ++ word)) _
              (scan_argument-fits timestamp_len word s h fits)
            ∙ bind-done (proc_number w name) _ n,
        bind-done (proc_number w name) _ n,
      )

  -- If pgrep prints something, STATUS answers 1, START with a word that fits its array runs
  -- nothing and says that the logger is running already, and STOP runs the stop script and says
  -- so.
  pub logger_running :
      (word start_name stop_name name : Bytes) (c : ℕ) (cs : Bytes) (s t : S)
      → IsWord word
      → length word < timestamp_len
      → w.popen (pgrep name) s ≡ done (some (c ∷ cs)) t
      → (status w name s ≡ reply w (codes "STATUS: 1\n") (pos 0) t)
        × (start w (codes "START " ++ word) start_name name s
            ≡ reply w (codes "The logging system is already running\n") (pos 0) t)
        × (stop w stop_name name s
            ≡ (w.system stop_name >> reply w (codes "Logging system STOPPED\n") (pos 0)) t)
  unfolding status start stop
  logger_running word start_name stop_name name c cs s t h fits e =
      let (k, n) = proc_number-running name c cs s t e in
      (
        bind-done (proc_number w name) _ n ∙ run t (at_least_branch k _ _ _),
        bind-done (scan_argument w timestamp_len (codes "START " ++ word)) _
              (scan_argument-fits timestamp_len word s h fits)
            ∙ bind-done (proc_number w name) _ n
            ∙ run t (at_least_branch k _ _ _),
        bind-done (proc_number w name) _ n ∙ run t (at_least_first k _ _),
      )
    where
      run : {f g : Prog S ℤ} (u : S) → f ≡ g → f u ≡ g u
      run u e = ap (λ (f : Prog S ℤ). f u) e

      at_least_branch :
          (k : ℕ) (x y z : Prog S ℤ)
          → (if is_pos (pos (suc k)) 0 then x else if at_least 1 (pos (suc k)) then y else z) ≡ y
      at_least_branch k x y z = ground arith

      at_least_first : (k : ℕ) (x y : Prog S ℤ) → (if at_least 1 (pos (suc k)) then x else y) ≡ x
      at_least_first k x y = ground arith
