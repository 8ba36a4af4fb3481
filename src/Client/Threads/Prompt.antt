-- ===== src/Client/Threads/Prompt.antt =====
-- If each new thread stores to `status` before the main thread goes on, there is one thread at a time.
use study_and_development_of.Base.{
  ◌≤◌, ◌≡◌, ◌≢◌, refl, sym, subst, ◌⊎◌, inl, inr, ℤ, pos, Bool, true, false, List, [], ◌∷◌, arith,
}
use study_and_development_of.Client.Threads.{
  Worker, starting, working, finished, resume, key_start, Pc, polling, choosing, storing, creating,
  stopping, checking, leaving, testing, clearing, joining, closed, undefined, Client, begin, stop,
  error, disconnect, Turn, this, next, CreateStep, store_running, create, create_fails, ExitStep,
  LoopStep, MainStep, loop, creates, exits, init, live,
}

-- No thread is still to make its first store.
abbrev pub IsSettled : List Worker → Type 0
IsSettled [] = Unit
IsSettled (starting ∷ ws) = ⊥
IsSettled (_ ∷ ws) = IsSettled ws

-- As `Reach`, where the main thread moves only in such states.
pub data PromptReach : Client → Type 0 where
  start : PromptReach init
  main_moves : {s t : Client} → PromptReach s → IsSettled s.threads → MainStep s t → PromptReach t
  thread_moves :
      {s : Client}
      → PromptReach s
      → (status : ℤ) (ws : List Worker) → Turn status s.threads ws
      → PromptReach (record s { status = status; threads = ws })

-- All threads have ended.
abbrev IsQuiet : List Worker → Type 0
IsQuiet [] = Unit
IsQuiet (finished ∷ ws) = IsQuiet ws
IsQuiet (_ ∷ ws) = ⊥

-- Only the newest thread may live, and it works exactly while `status` is 1.
abbrev Agrees : ℤ → List Worker → Type 0
Agrees st [] = st ≢ pos 1
Agrees st (starting ∷ ws) = IsQuiet ws
Agrees st (working ∷ ws) = (st ≡ pos 1) × IsQuiet ws
Agrees st (finished ∷ ws) = (st ≢ pos 1) × IsQuiet ws

-- Where the main thread stands when no thread may live.
abbrev NeedsQuiet : Pc → Type 0
NeedsQuiet (storing c) = Unit
NeedsQuiet (creating c) = Unit
NeedsQuiet testing = Unit
NeedsQuiet closed = Unit
NeedsQuiet undefined = Unit
NeedsQuiet _ = ⊥

-- ... is quiet, or stands elsewhere.
record Inv (s : Client) : Type 0 where
  agrees : Agrees s.status s.threads
  quiet : IsQuiet s.threads ⊎ (¬ NeedsQuiet s.main)

quiet-live : (ws : List Worker) → IsQuiet ws → live ws ≡ 0
quiet-live [] h = refl
quiet-live (finished ∷ ws) h = quiet-live ws h
quiet-live (starting ∷ ws) h = absurd h
quiet-live (working ∷ ws) h = absurd h

-- The newest thread does not work, and none is to start: all have ended.
settled-IsQuiet :
    (st : ℤ) (ws : List Worker) → Agrees st ws → IsSettled ws → st ≢ pos 1 → IsQuiet ws
settled-IsQuiet st [] a h n = tt
settled-IsQuiet st (starting ∷ ws) a h n = absurd h
settled-IsQuiet st (working ∷ ws) a h n = absurd (n a.0)
settled-IsQuiet st (finished ∷ ws) a h n = a.1

Turn-not-IsQuiet : {st : ℤ} {ws vs : List Worker} → Turn st ws vs → ¬ IsQuiet ws
Turn-not-IsQuiet (this begin) q = q
Turn-not-IsQuiet (this stop) q = q
Turn-not-IsQuiet (this error) q = q
Turn-not-IsQuiet (this disconnect) q = q
Turn-not-IsQuiet (next {a = finished} t) q = Turn-not-IsQuiet t q
Turn-not-IsQuiet (next {a = starting} t) q = q
Turn-not-IsQuiet (next {a = working} t) q = q

Turn-Agrees :
    (old : ℤ) {st : ℤ} {ws vs : List Worker} → Turn st ws vs → Agrees old ws → Agrees st vs
Turn-Agrees old (this begin) a = (refl, a)
Turn-Agrees old (this stop) a = ((λ e. cc), a.1)
Turn-Agrees old (this error) a = ((λ e. cc), a.1)
Turn-Agrees old (this disconnect) a = ((λ e. cc), a.1)
Turn-Agrees old (next {a = starting} t) a = absurd (Turn-not-IsQuiet t a)
Turn-Agrees old (next {a = working} t) a = absurd (Turn-not-IsQuiet t a.1)
Turn-Agrees old (next {a = finished} t) a = absurd (Turn-not-IsQuiet t a.1)

module _ {s : Client} (inv : Inv s) (settled : IsSettled s.threads) where
  -- The main thread goes to where threads may live.
  free : (b : Pc) → ¬ NeedsQuiet b → Inv (record s { main = b })
  free b n = record { agrees = inv.agrees; quiet = inr n }

  free_running : (b : Pc) (run : Bool) → ¬ NeedsQuiet b → Inv (record s { running = run; main = b })
  free_running b run n = record { agrees = inv.agrees; quiet = inr n }

  -- Or to where none may, and `status` is not 1.
  idle : (b : Pc) → s.status ≢ pos 1 → Inv (record s { main = b })
  idle b n = record {
    agrees = inv.agrees;
    quiet = inl (settled-IsQuiet s.status s.threads inv.agrees settled n);
  }

  -- Or it stood there already.
  still : (a : Pc) → s.main ≡ a → NeedsQuiet a → IsQuiet s.threads
  still a e h = elim (inv.quiet) [ inl q ↦ q | inr n ↦ absurd (n (subst NeedsQuiet (sym e) h)) ]

  Loop-Inv : {t : Client} → LoopStep s t → Inv t
  Loop-Inv (LoopStep.reconnect e) = inv
  Loop-Inv (LoopStep.give_up e) = free leaving (λ h. h)
  Loop-Inv (LoopStep.lost e st) = idle (storing resume) (λ h. cc)
  Loop-Inv (LoopStep.not_lost e st) = free choosing (λ h. h)
  Loop-Inv (LoopStep.press_start e st) = idle (storing key_start) (λ h. cc)
  Loop-Inv (LoopStep.press_stop e st) = free stopping (λ h. h)
  Loop-Inv (LoopStep.stop_thread e) = free_running (checking false) false (λ h. h)
  Loop-Inv (LoopStep.press_quit e) = free (checking true) (λ h. h)
  Loop-Inv (LoopStep.press_other e) = free (checking false) (λ h. h)
  Loop-Inv (LoopStep.command_lost e) = free polling (λ h. h)
  Loop-Inv (LoopStep.command_error e) = free leaving (λ h. h)
  Loop-Inv (LoopStep.thread_error end e st) = free leaving (λ h. h)
  Loop-Inv (LoopStep.go_on e st) = free polling (λ h. h)
  Loop-Inv (LoopStep.quit e st) = free leaving (λ h. h)

  Create-Inv : {t : Client} → CreateStep s t → Inv t
  Create-Inv (store_running c e) = record {
    agrees = inv.agrees;
    quiet = inl (still (storing c) e tt);
  }
  Create-Inv (create resume e) = record {
    agrees = still (creating resume) e tt;
    quiet = inr (λ h. h);
  }
  Create-Inv (create key_start e) = record {
    agrees = still (creating key_start) e tt;
    quiet = inr (λ h. h);
  }
  Create-Inv (create_fails c e) = record { agrees = inv.agrees; quiet = inr (λ h. h) }

  joined : (ws : List Worker) → s.threads ≡ finished ∷ ws → IsQuiet s.threads
  joined ws e = subst IsQuiet (sym e) (subst (Agrees s.status) e inv.agrees).1

  Exit-Inv : {t : Client} → ExitStep s t → Inv t
  Exit-Inv (ExitStep.status_runs e h) = free clearing (λ h. h)
  Exit-Inv (ExitStep.status_idle e h) = idle testing h
  Exit-Inv (ExitStep.still_running e h) = free clearing (λ h. h)
  Exit-Inv (ExitStep.not_running e h) = record {
    agrees = inv.agrees;
    quiet = inl (still testing e tt);
  }
  Exit-Inv (ExitStep.clear e) = free_running joining false (λ h. h)
  Exit-Inv (ExitStep.join ws e h) = record { agrees = inv.agrees; quiet = inl (joined ws h) }
  Exit-Inv (ExitStep.join_nothing e h) = record {
    agrees = inv.agrees;
    quiet = inl (subst IsQuiet (sym h) tt);
  }

Turn-Inv :
    {s : Client} (st : ℤ) (ws : List Worker)
    → Turn st s.threads ws
    → Inv s
    → Inv (record s { status = st; threads = ws })
Turn-Inv st ws turn inv = record {
  agrees = Turn-Agrees _ turn inv.agrees;
  quiet = elim (inv.quiet) [ inl q ↦ absurd (Turn-not-IsQuiet turn q) | inr n ↦ inr n ];
}

PromptReach-Inv : {s : Client} → PromptReach s → Inv s
PromptReach-Inv start = record { agrees = λ e. cc; quiet = inl tt }
PromptReach-Inv (main_moves r h (loop l)) = Loop-Inv (PromptReach-Inv r) h l
PromptReach-Inv (main_moves r h (creates c)) = Create-Inv (PromptReach-Inv r) h c
PromptReach-Inv (main_moves r h (exits x)) = Exit-Inv (PromptReach-Inv r) h x
PromptReach-Inv (thread_moves r st ws turn) = Turn-Inv st ws turn (PromptReach-Inv r)

-- If every new transmission thread makes its first store to `status` before the main thread goes
-- on, then in every interleaving, when ExitMainThread has come to its end, no transmission thread
-- lives: none uses the mutex that it destroys.
pub closed-quiet : {s : Client} → PromptReach s → s.main ≡ closed → live s.threads ≡ 0
closed-quiet {s} r e =
    let inv = PromptReach-Inv r in
    elim (inv.quiet) [
      | inl q ↦ quiet-live s.threads q
      | inr n ↦ absurd (n (subst NeedsQuiet (sym e) tt))
    ]

-- If every new transmission thread makes its first store to `status` before the main thread goes
-- on, at most one transmission thread lives at a time, in every interleaving.
pub live-le-one : {s : Client} → PromptReach s → live s.threads ≤ 1
live-le-one {s} r = few s.status s.threads (PromptReach-Inv r).agrees
  where
    few : (st : ℤ) (ws : List Worker) → Agrees st ws → live ws ≤ 1
    few st [] a = omega arith
    few st (starting ∷ ws) a = omega (arith, quiet-live ws a)
    few st (working ∷ ws) a = omega (arith, quiet-live ws a.1)
    few st (finished ∷ ws) a = omega (arith, quiet-live ws a.1)
