-- ===== src/Client/Main.antt =====
-- The main thread of the client: app/client/client.c, and what it calls of client_lib.c. Its log
-- lines and delays are not modelled.
pub mod Connects
pub mod Rounds
pub mod Answers
use study_and_development_of.Base.{
  ℕ, zero, suc, ◌+◌, ◌-◌, leb, ltb, ℤ, pos, negsuc, is_pos, is_neg, is_negsuc, Bytes, List, [], ◌∷◌,
  ◌++◌, codes, drop, length, starts_with, c_str, Bool, true, false, not, ◌&&◌, ◌||◌, Option, none,
  some, if◌then◌else◌,
}
use study_and_development_of.Libc.Format.{snprintf}
use study_and_development_of.Libc.Scan.{skip_word, scan_d, assigned}
use study_and_development_of.World.{Prog, Outcome, overflow, ◌>>=◌, ◌>>◌, pure, gets, leave, World}
use study_and_development_of.Common.Info.{TrInfo}
use study_and_development_of.Common.TcpBuffer.{TcpBuffer, init_buffer_tcp, tcp_readline}
use study_and_development_of.Client.Request.{max_cmd_len}
use study_and_development_of.Client.Transmission.{Shared}
use study_and_development_of.Client.Console.{
  Console, mvprintw, refresh, get_user_input, init_io, end_io, print_info,
}

abbrev pub ip_len : ℕ
ip_len = 64

abbrev pub log_file : Bytes
log_file = codes "lidar_control.log"

-- What the main thread does with the transmission thread: it reads `t->status`, writes `t->running`,
-- creates the thread and joins it. The two Booleans say whether the pthread call returned 0.
pub record Threads (S : Type 0) : Type 0 where
  pub shared : Shared S
  pub status : S → ℤ
  pub set_running : Bool → Prog S (Unit {0})
  pub create : Prog S Bool
  pub join : Prog S Bool
  pub mutex_init : Prog S Bool

-- The local variables of main that one round leaves to the next.
pub record Local : Type 0 where
  pub control_buffer : TcpBuffer
  pub rec : Bytes
  pub active_connection : Bool
  pub end_client : Bool
  pub logger_status : ℤ

-- snprintf(rec, BUFSIZ+1, ...) of a text that fits.
abbrev pub write_text : Bytes → Bytes → Bytes
write_text array text = text ++ (0 ∷ drop (length text + 1) array)

-- sscanf(rec, "%*s %d", &logger_status)
unfoldable pub scan_status : Bytes → ℤ → ℤ
scan_status rec old = assigned (scan_d (skip_word (some rec))).0 old

module _ {S : Type 0} (w : World S) (c : Console S) (t : Threads S) where
  -- From the stopped thread on.
  unfoldable pub close_client : {A : Type 0} → ℤ → Prog S A
  unfolding end_io
  close_client exit_code = end_io c >> (w.tcp_send (codes "CLOSE\n") >> leave exit_code)

  unfoldable pub exit_main_thread : {A : Type 0} → ℤ → Prog S A
  unfolding close_client end_io
  exit_main_thread exit_code = gets (λ s. is_pos (t.status s) 1 || t.shared.running s) >>= λ alive.
      if alive
      then (t.set_running false
          >> (t.join >>= λ joined.
              if joined then close_client exit_code else (end_io c >> leave (pos 1))))
      else close_client exit_code

  unfoldable pub create_transmission_thread : Prog S ℤ
  create_transmission_thread =
      t.set_running true >> (t.create >>= λ created. pure (if created then pos 0 else negsuc 0))

  -- The value of tcp_readline, and what it stored.
  abbrev pub check_answer : ℤ × TcpBuffer × Bytes → Prog S (ℤ × TcpBuffer × Bytes)
  check_answer (ret, b, rec) =
      if is_negsuc ret 0 || is_pos ret 0
      then pure (negsuc 1, b, write_text rec (codes "ERROR, UNABLE TO READ\n"))
      else if starts_with (codes "ERROR") (c_str rec)
      then exit_main_thread (pos 1)
      else pure (pos 0, b, rec)

  unfoldable pub tcp_send_receive_mt : TcpBuffer → Bytes → Bytes → Prog S (ℤ × TcpBuffer × Bytes)
  unfolding exit_main_thread
  tcp_send_receive_mt b send rec = w.tcp_send send >>= λ sent.
      if is_pos sent 0
      then pure (negsuc 0, b, write_text rec (codes "ERROR, UNABLE TO WRITE\n"))
      else (tcp_readline w b rec >>= check_answer)

  -- Connect: the two flags afterwards; `none` means that the rounds were too few.
  unfoldable pub connect : ℕ → Bool → Bool → Prog S (Option (Bool × Bool))
  unfolding get_user_input
  connect zero connected end = pure none
  connect (suc rounds) connected end =
      let again = connect rounds connected end in
      w.connect >>= λ sk.
      if is_neg sk
      then (c.screen (mvprintw 2 0 (codes "LOGGER: DISCONNECTED"))
          >> (c.screen refresh
              >> (get_user_input c >>= λ ch.
                  if is_pos ch b'5'
                  then pure (some (connected, true))
                  else if connected
                  then pure (some (connected, end))
                  else again)))
      else pure (some (true, end))

  -- A command of the control connection: if it fails the loop is left by `break`. The Boolean says
  -- whether the round goes on.
  unfoldable pub control : Bytes → Local → Prog S (Bool × Local)
  unfolding tcp_send_receive_mt
  control send l = tcp_send_receive_mt l.control_buffer send l.rec >>= λ (ret, b, rec).
      let l' = record l { control_buffer = b; rec = rec } in
      if is_neg ret then pure (false, record l' { active_connection = false }) else pure (true, l')

  -- CreateTransmissionThread, whose failure ends the client.
  unfoldable pub start_thread : Prog S (Unit {0})
  unfolding create_transmission_thread exit_main_thread
  start_thread =
      create_transmission_thread >>= λ ret. if is_neg ret then exit_main_thread (pos 1) else pure tt

  -- What the key does.
  unfoldable pub on_key : ℤ → Local → Prog S (Bool × Local)
  unfolding control start_thread
  on_key ch l =
      if is_pos ch b'1'
      then (c.strftime (codes "%Y%m%d-%H%M%S") >>= λ timestamp.
          control (snprintf max_cmd_len (codes "START " ++ (timestamp ++ (b'\n' ∷ [])))) l)
      else if is_pos ch b'2'
      then control (codes "STOP\n") l
      else if is_pos ch b'3'
      then (gets t.status >>= λ status.
          (if is_pos status 0 then start_thread else pure tt) >> pure (true, l))
      else if is_pos ch b'4'
      then (gets t.status >>= λ status.
          (if is_pos status 1 then t.set_running false else pure tt) >> pure (true, l))
      else if is_pos ch b'5'
      then pure (true, record l { end_client = true })
      else pure (true, l)

  -- The end of a round: an error of the thread ends the client, and the screen is drawn.
  unfoldable pub finish_round : Local → Prog S Local
  unfolding exit_main_thread print_info
  finish_round l = gets t.status >>= λ status.
      if is_negsuc status 0
      then exit_main_thread (pos 1)
      else (gets t.shared.get_tr >>= λ tr. gets t.status >>= λ transmission_status.
          print_info c l.logger_status transmission_status tr >> pure l)

  -- A round behind the answer to STATUS.
  unfoldable pub serve_user : Local → Prog S Local
  unfolding start_thread on_key finish_round get_user_input
  serve_user l = gets t.status >>= λ status.
      (if is_negsuc status 1 then start_thread else pure tt)
      >> (get_user_input c >>= λ ch.
          (if is_negsuc ch 0 then pure (true, l) else on_key ch l) >>= λ (goes_on, l').
          if goes_on then finish_round l' else pure l')

  unfoldable pub main_round : Local → Prog S Local
  unfolding control scan_status serve_user
  main_round l = control (codes "STATUS\n") l >>= λ (goes_on, l').
      if goes_on
      then serve_user (record l' { logger_status = scan_status (c_str l'.rec) l'.logger_status })
      else pure l'

  -- while (active_connection && !end_client)
  unfoldable pub control_loop : ℕ → Local → Prog S (Option Local)
  unfolding main_round
  control_loop zero l = pure none
  control_loop (suc rounds) l =
      let again : Prog S (Option Local) = main_round l >>= control_loop rounds in
      if l.active_connection && not l.end_client then again else pure (some l)

  -- The outer loop; each of its rounds may use all the rounds of Connect and of the inner loop.
  unfoldable pub main_loop : ℕ → ℕ → Local → Prog S (Option Local)
  unfolding connect control_loop
  main_loop zero inner l = pure none
  main_loop (suc rounds) inner l = connect inner l.active_connection l.end_client >>= λ flags.
      elim flags [
        | none ↦ pure none
        | some (active, end) ↦
            control_loop inner (record l { active_connection = active; end_client = end })
            >>= λ ended. elim ended [
              | none ↦ pure none
              | some l' ↦
                  let again = main_loop rounds inner l' in
                  if l'.end_client then pure (some l') else again
            ]
      ]

  -- From InitIO on.
  unfoldable pub run_client : ℕ → ℕ → Local → Prog S (Option (Unit {0}))
  unfolding init_io main_loop exit_main_thread
  run_client rounds inner l =
      init_io c
      >> (main_loop rounds inner l >>= λ ended. elim ended [
        | none ↦ pure none
        | some _ ↦ exit_main_thread (pos 0)
      ])

  -- The arguments are copied, and then their number is tested. What strcpy and atoi do with the null
  -- pointer behind the arguments is undefined, and is given.
  unfoldable pub with_args :
      Prog S (Option (Unit {0})) → ℕ → ℕ → List Bytes → Bytes → Prog S (Option (Unit {0}))
  unfolding run_client
  with_args on_null rounds inner (ip ∷ port ∷ more) array =
      if leb ip_len (length ip)
      then (λ _. overflow)
      else (t.mutex_init >>= λ ready.
          if not ready
          then leave (pos 1)
          else if ltb 0 (length more)
          then leave (pos 1)
          else run_client rounds inner (record {
            control_buffer = init_buffer_tcp array;
            rec = array;
            active_connection = false;
            end_client = false;
            logger_status = pos 0;
          }))
  with_args on_null rounds inner (ip ∷ []) array =
      if leb ip_len (length ip) then (λ _. overflow) else on_null
  with_args on_null rounds inner [] array = on_null

  -- main, with its arguments behind the program's name. strcpy and atoi read argv[1] and argv[2]
  -- before their number is tested. `set_status` and `set_running` start at 0.
  unfoldable pub client_main :
      Prog S (Option (Unit {0})) → ℕ → ℕ → List Bytes → Bytes → Prog S (Option (Unit {0}))
  unfolding with_args
  client_main on_null rounds inner argv array = w.fopen_write log_file >>= λ opened.
      if not opened
      then leave (pos 1)
      else (t.shared.set_status (pos 0)
          >> (t.set_running false >> with_args on_null rounds inner argv array))
