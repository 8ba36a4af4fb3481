-- ===== src/Client/Threads.antt =====
-- The main thread of app/client/client.c and the transmission threads, interleaved: the reads and
-- writes of `t.status` and `t.running`, the creation of threads and the join.
pub mod Prompt
pub mod Races
pub mod Join
use study_and_development_of.Base.{ℕ, ◌≡◌, ◌≢◌, ℤ, pos, negsuc, Bool, true, false, List, [], ◌∷◌}

-- A transmission thread: created, past its store of 1 to `status`, and ended.
pub data Worker : Type 0 where
  starting working finished : Worker

-- The two places that call CreateTransmissionThread: a lost connection, and key 3.
pub data Caller : Type 0 where
  resume key_start : Caller

-- Where the main thread stands. `checking` knows whether key 5 has been pressed.
pub data Pc : Type 0 where
  polling : Pc  -- head of the inner loop, or in Connect
  choosing : Pc  -- before GetUserInput
  storing : Caller → Pc  -- start of CreateTransmissionThread
  creating : Caller → Pc  -- before pthread_create
  stopping : Pc  -- behind the test of key 4
  checking : Bool → Pc  -- before the test for -1
  leaving : Pc  -- start of ExitMainThread
  testing : Pc  -- before its test of `running`
  clearing : Pc  -- before its store to `running`
  joining : Pc  -- before pthread_join
  closed : Pc  -- the mutex is destroyed, and the process ends
  undefined : Pc  -- pthread_join of an identifier that was never stored

-- The newest thread stands first: `thread_id` names it. `failed` records that pthread_create failed.
pub record Client : Type 0 where
  pub status : ℤ
  pub running : Bool
  pub main : Pc
  pub threads : List Worker
  pub failed : Bool

-- Where CreateTransmissionThread returns to.
abbrev pub after : Caller → Pc
after resume = choosing
after key_start = checking false

-- The two stores of a transmission thread to `status`: at its start, and in ExitTransmissionThread,
-- whose code is 0, -1 or -2.
pub data Work : Worker → ℤ → Worker → Type 0 where
  begin : Work starting (pos 1) working
  stop : Work working (pos 0) finished
  error : Work working (negsuc 0) finished
  disconnect : Work working (negsuc 1) finished

-- One of the threads stores `status`.
pub data Turn (status : ℤ) : List Worker → List Worker → Type 0 where
  this : {a b : Worker} {ws : List Worker} → Work a status b → Turn status (a ∷ ws) (b ∷ ws)
  next : {a : Worker} {ws vs : List Worker} → Turn status ws vs → Turn status (a ∷ ws) (a ∷ vs)

-- CreateTransmissionThread. If it fails, its caller goes on to ExitMainThread.
pub data CreateStep (s : Client) : Client → Type 0 where
  store_running :
      (c : Caller)
      → s.main ≡ storing c
      → CreateStep s (record s { running = true; main = creating c })
  create :
      (c : Caller)
      → s.main ≡ creating c
      → CreateStep s (record s { main = after c; threads = starting ∷ s.threads })
  create_fails :
      (c : Caller) → s.main ≡ creating c → CreateStep s (record s { main = leaving; failed = true })

-- ExitMainThread.
pub data ExitStep (s : Client) : Client → Type 0 where
  status_runs : s.main ≡ leaving → s.status ≡ pos 1 → ExitStep s (record s { main = clearing })
  status_idle : s.main ≡ leaving → s.status ≢ pos 1 → ExitStep s (record s { main = testing })
  still_running : s.main ≡ testing → s.running ≡ true → ExitStep s (record s { main = clearing })
  not_running : s.main ≡ testing → s.running ≡ false → ExitStep s (record s { main = closed })
  clear : s.main ≡ clearing → ExitStep s (record s { running = false; main = joining })
  join :
      (ws : List Worker)
      → s.main ≡ joining
      → s.threads ≡ finished ∷ ws
      → ExitStep s (record s { main = closed })
  join_nothing : s.main ≡ joining → s.threads ≡ [] → ExitStep s (record s { main = undefined })

-- The loops of main. Any key may be pressed, the connection may be lost, and the server may answer
-- with an error, at any time.
pub data LoopStep (s : Client) : Client → Type 0 where
  reconnect : s.main ≡ polling → LoopStep s s
  give_up : s.main ≡ polling → LoopStep s (record s { main = leaving })
  lost : s.main ≡ polling → s.status ≡ negsuc 1 → LoopStep s (record s { main = storing resume })
  not_lost : s.main ≡ polling → s.status ≢ negsuc 1 → LoopStep s (record s { main = choosing })
  press_start :
      s.main ≡ choosing → s.status ≡ pos 0 → LoopStep s (record s { main = storing key_start })
  press_stop : s.main ≡ choosing → s.status ≡ pos 1 → LoopStep s (record s { main = stopping })
  stop_thread : s.main ≡ stopping → LoopStep s (record s { running = false; main = checking false })
  press_quit : s.main ≡ choosing → LoopStep s (record s { main = checking true })
  press_other : s.main ≡ choosing → LoopStep s (record s { main = checking false })
  command_lost : s.main ≡ choosing → LoopStep s (record s { main = polling })
  command_error : s.main ≡ choosing → LoopStep s (record s { main = leaving })
  thread_error :
      (end : Bool)
      → s.main ≡ checking end
      → s.status ≡ negsuc 0
      → LoopStep s (record s { main = leaving })
  go_on : s.main ≡ checking false → s.status ≢ negsuc 0 → LoopStep s (record s { main = polling })
  quit : s.main ≡ checking true → s.status ≢ negsuc 0 → LoopStep s (record s { main = leaving })

pub data MainStep (s t : Client) : Type 0 where
  loop : LoopStep s t → MainStep s t
  creates : CreateStep s t → MainStep s t
  exits : ExitStep s t → MainStep s t

pub data Step (s : Client) : Client → Type 0 where
  by_main : {t : Client} → MainStep s t → Step s t
  by_thread :
      (status : ℤ) (ws : List Worker)
      → Turn status s.threads ws
      → Step s (record s { status = status; threads = ws })

-- `t.running = t.status = 0`
abbrev pub init : Client
init = record { status = pos 0; running = false; main = polling; threads = []; failed = false }

pub data Reach : Client → Type 0 where
  start : Reach init
  later : {s t : Client} → Reach s → Step s t → Reach t

-- The steps from `s` on.
pub data Run (s : Client) : Client → Type 0 where
  here : Run s s
  onward : {t u : Client} → Run s t → Step t u → Run s u

-- The threads that have not ended.
abbrev pub live : List Worker → ℕ
live [] = 0
live (finished ∷ ws) = live ws
live (_ ∷ ws) = ℕ.suc (live ws)
