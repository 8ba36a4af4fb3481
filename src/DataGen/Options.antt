-- ===== src/DataGen/Options.antt =====
-- data_generation/voxl-logger.c: the options, the signals, and main around the generation.
use study_and_development_of.Base.{
  ℕ, zero, suc, ℤ, pos, is_pos, is_negsuc, Bytes, Bool, false, Option, none, some, if◌then◌else◌,
}
use study_and_development_of.Libc.Format.{snprintf}
use study_and_development_of.World.{Prog, ◌>>=◌, ◌>>◌, pure, gets, World}
use study_and_development_of.DataGen.Generate.{run_logger}

abbrev pub timestamp_len : ℕ
timestamp_len = 26

-- The signals whose handler main replaces, in this order.
pub data Signal : Type 0 where
  sigint sigquit sigkill sigterm : Signal

-- What main uses of the process: getopt with "d:" gives the option and its argument, sigaction
-- arranges for a handler to run, and `running` is the variable of that name.
pub record Process (S : Type 0) : Type 0 where
  pub getopt : Prog S (ℤ × Bytes)
  pub optind : S → ℤ
  pub sigaction : Signal → Prog S (Unit {0}) → Prog S (Unit {0})
  pub srand : Prog S (Unit {0})
  pub rand : Prog S ℕ
  pub running : S → Bool
  pub set_running : Bool → Prog S (Unit {0})

-- What the loop over the options comes to.
pub data Options : Type 0 where
  given : Bytes → Options
  refused : Options

module _ {S : Type 0} (w : World S) (p : Process S) where
  unfoldable pub sig_handler : Prog S (Unit {0})
  sig_handler = p.set_running false

  -- The loop over the options; `timestamp` is what the array holds. `none` means that the rounds given
  -- were too few.
  unfoldable pub scan_options : ℕ → Bytes → Prog S (Option Options)
  scan_options zero timestamp = pure none
  scan_options (suc rounds) timestamp = p.getopt >>= λ (opt, optarg).
      let next = scan_options rounds (snprintf timestamp_len optarg) in
      if is_negsuc opt 0
      then pure (some (given timestamp))
      else if is_pos opt b'd'
      then next
      else pure (some refused)

  -- sigaction for each of the signals
  unfoldable pub catch_signals : Prog S (Unit {0})
  unfolding sig_handler
  catch_signals =
      p.sigaction sigint sig_handler
      >> (p.sigaction sigquit sig_handler
          >> (p.sigaction sigkill sig_handler >> p.sigaction sigterm sig_handler))

  -- main: the exit status, or `none` if the rounds given were too few.
  unfoldable pub logger_main : ℕ → ℕ → Bytes → Prog S (Option ℤ)
  unfolding scan_options catch_signals run_logger
  logger_main options rounds array = scan_options options array >>= λ read. elim read [
    | none ↦ pure none
    | some refused ↦ pure (some (pos 1))
    | some (given timestamp) ↦ gets p.optind >>= λ optind.
        if is_pos optind 1
        then pure (some (pos 1))
        else (catch_signals >> (p.srand >> (p.rand >>= run_logger w p.running rounds timestamp)))
  ]
