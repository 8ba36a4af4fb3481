-- ===== src/Tests/Commands.antt =====
-- The commands on the logger at concrete inputs.
use study_and_development_of.Base.{◌≡◌, refl, pos, ◌∷◌, ◌++◌, codes, arith}
use study_and_development_of.Libc.Format.{snprintf}
use study_and_development_of.Libc.RoundTrip.{IsWord}
use study_and_development_of.World.{overflow, ◌>>◌}
use study_and_development_of.Server.Logger.{reply, status, start, stop}
use study_and_development_of.Server.Logger.Commands.{logger_idle, logger_running, start-overflow}
use study_and_development_of.Tests.Demo.{Env, demo, idle, no_space-IsWord}

abbrev busy : Env
busy = record idle { processes = codes "812 voxl-logger\n" }

stamp-IsWord : IsWord (codes "20230405-101112")
stamp-IsWord = no_space-IsWord b'2' (codes "0230405-101112") refl

logger_idle_example :
    (status demo (codes "voxl-logger") idle ≡ reply demo (codes "STATUS: 0\n") (pos 0) idle)
    × (start demo
          (codes "START " ++ codes "20230405-101112")
          (codes "./start.sh")
          (codes "voxl-logger")
          idle
        ≡ (demo.system (snprintf 128 (codes "./start.sh" ++ (b' ' ∷ codes "20230405-101112")))
              >> reply demo (codes "Logging system STARTED\n") (pos 0))
            idle)
    × (stop demo (codes "./stop.sh") (codes "voxl-logger") idle
        ≡ reply demo (codes "The logging system is NOT running\n") (pos 0) idle)
logger_idle_example =
    logger_idle demo (codes "20230405-101112") (codes "./start.sh") (codes "./stop.sh")
      (codes "voxl-logger") idle idle stamp-IsWord (omega arith) refl

logger_running_example :
    (status demo (codes "voxl-logger") busy ≡ reply demo (codes "STATUS: 1\n") (pos 0) busy)
    × (start demo
          (codes "START " ++ codes "20230405-101112")
          (codes "./start.sh")
          (codes "voxl-logger")
          busy
        ≡ reply demo (codes "The logging system is already running\n") (pos 0) busy)
    × (stop demo (codes "./stop.sh") (codes "voxl-logger") busy
        ≡ (demo.system (codes "./stop.sh") >> reply demo (codes "Logging system STOPPED\n") (pos 0))
            busy)
logger_running_example =
    logger_running demo (codes "20230405-101112") (codes "./start.sh") (codes "./stop.sh")
      (codes "voxl-logger") b'8' (codes "12 voxl-logger\n") busy busy stamp-IsWord (omega arith)
      refl

start-overflow_example :
    start demo
      (codes "START " ++ codes "20230405-10111213")
      (codes "./start.sh")
      (codes "voxl-logger")
      idle
    ≡ overflow
start-overflow_example =
    start-overflow demo (codes "20230405-10111213") (codes "./start.sh") (codes "voxl-logger") idle
      (no_space-IsWord b'2' (codes "0230405-10111213") refl) (omega arith)
