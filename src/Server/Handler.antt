-- ===== src/Server/Handler.antt =====
-- app/server/server.c: the process that serves one connection.
pub mod Rounds
use study_and_development_of.Base.{
  ℕ, zero, suc, ◌≡◌, ℤ, pos, negsuc, is_pos, is_negsuc, Bytes, codes, Bool, true, false, equal,
  starts_with, c_str, Option, none, some, if◌then◌else◌,
}
use study_and_development_of.World.{Prog, ◌>>=◌, ◌>>◌, pure, leave, World}
use study_and_development_of.Common.TcpBuffer.{TcpBuffer, init_buffer_tcp, tcp_readline}
use study_and_development_of.Server.Logger
use study_and_development_of.Server.Logger.{reply}
use study_and_development_of.Server.Transfer
use study_and_development_of.Server.Remove
use study_and_development_of.Common.Info.{TrInfo}
use study_and_development_of.Server.Transfer.{data_dir}

abbrev pub path_start : Bytes
path_start = codes "../../data_generation/start.sh"

abbrev pub path_stop : Bytes
path_stop = codes "../../data_generation/stop.sh"

abbrev pub logger_name : Bytes
logger_name = codes "voxl-logger"

pub data Command : Type 0 where
  status start stop send_next remove_file remove_dir send_file close invalid : Command

-- The ladder of tests of server_handler.
unfoldable pub command : Bytes → Command
command cmd =
    if equal cmd (codes "STATUS")
    then Command.status
    else if starts_with (codes "START") cmd
    then Command.start
    else if equal cmd (codes "STOP")
    then Command.stop
    else if equal cmd (codes "SEND_NEXT")
    then Command.send_next
    else if starts_with (codes "REMOVE_FILE") cmd
    then Command.remove_file
    else if starts_with (codes "REMOVE_DIR") cmd
    then Command.remove_dir
    else if starts_with (codes "SEND_FILE") cmd
    then Command.send_file
    else if equal cmd (codes "CLOSE")
    then close
    else invalid

-- What the variables of the loop hold between commands.
pub record Child : Type 0 where
  pub b : TcpBuffer
  pub cmd : Bytes

module _ {S : Type 0} (w : World S) (tr0 : TrInfo) where
  -- The handler's value is ignored. The result says whether the connection stays active.
  abbrev pub handled : Prog S ℤ → Prog S Bool
  handled m = m >> pure true

  unfoldable pub execute : Bytes → Command → Prog S Bool
  execute cmd Command.status = handled (Logger.status w logger_name)
  execute cmd Command.start = handled (Logger.start w cmd path_start logger_name)
  execute cmd Command.stop = handled (Logger.stop w path_stop logger_name)
  execute cmd Command.send_next = handled (Transfer.send_next w tr0 logger_name data_dir)
  execute cmd Command.remove_file = handled (Remove.remove_file w cmd data_dir)
  execute cmd Command.remove_dir = handled (Remove.remove_dir w cmd data_dir)
  execute cmd Command.send_file = handled (Transfer.send_file w cmd)
  execute cmd close = pure false
  execute cmd invalid = handled (reply w (codes "Not valid command\n") (pos 0))

  -- One round: the value of tcp_readline is ignored.
  unfoldable pub round : Child → Prog S (Bool × Child)
  unfolding execute command
  round c = tcp_readline w c.b c.cmd >>= λ (ret, b, cmd).
      execute (c_str cmd) (command (c_str cmd)) >>= λ active.
      pure (active, record { b = b; cmd = cmd })

  -- while (active_connection): `none` means that the rounds given were too few.
  unfoldable pub child_loop : ℕ → Child → Prog S (Option Child)
  unfolding round
  child_loop zero c = pure none
  child_loop (suc rounds) c =
      round c >>= λ (active, c'). if active then child_loop rounds c' else pure (some c')

  -- `pid` is what fork returned. The parent goes on to accept connections, and the child serves.
  unfoldable pub server_handler : ℕ → ℤ → Bytes → Bytes → Prog S (Option ℤ)
  unfolding child_loop
  server_handler rounds pid array cmd =
      if is_negsuc pid 0
      then leave (pos 1)
      else if is_pos pid 0
      then (child_loop rounds (record { b = init_buffer_tcp array; cmd = cmd }) >>= λ end.
          elim end [ none ↦ pure none | some _ ↦ pure (some (pos 0)) ])
      else pure (some (pos 1))
