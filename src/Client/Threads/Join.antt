-- ===== src/Client/Threads/Join.antt =====
-- When pthread_join is called with no thread.
use study_and_development_of.Base.{
  ◌≡◌, ◌≢◌, refl, sym, ◌∙◌, subst, ◌⊎◌, inl, inr, ℤ, pos, true, false, List, [], ◌∷◌, Bool-cases,
  is_pos, arith,
}
use study_and_development_of.Client.Threads.{
  Worker, Caller, resume, key_start, Pc, storing, creating, leaving, clearing, joining, undefined,
  Client, Turn, this, next, CreateStep, store_running, create, create_fails, ExitStep, LoopStep,
  loop, creates, exits, Step, by_main, by_thread, Reach, start, later, Run, here, onward,
}

-- Where the main thread stands.
abbrev IsCreating : Pc → Type 0
IsCreating (creating c) = Unit
IsCreating _ = ⊥

abbrev IsDefined : Pc → Type 0
IsDefined undefined = ⊥
IsDefined _ = Unit

-- Not behind a successful test of ExitMainThread.
abbrev IsCalm : Pc → Type 0
IsCalm clearing = ⊥
IsCalm joining = ⊥
IsCalm undefined = ⊥
IsCalm _ = Unit

-- pthread_create has failed; or there is a thread; or there is none, and then `status` is not 1,
-- `running` is 1 only on the way to pthread_create, and nothing is to be joined.
data Inv (s : Client) : Type 0 where
  has_failed : s.failed ≡ true → Inv s
  some_thread : (w : Worker) (ws : List Worker) → s.threads ≡ w ∷ ws → IsDefined s.main → Inv s
  no_thread :
      s.threads ≡ []
      → s.status ≢ pos 1
      → (s.running ≡ false) ⊎ IsCreating s.main
      → IsCalm s.main
      → Inv s

-- What all steps of the loops have in common.
record IsLoop (s t : Client) : Type 0 where
  threads : t.threads ≡ s.threads
  failed : t.failed ≡ s.failed
  status : t.status ≡ s.status
  running : (t.running ≡ s.running) ⊎ (t.running ≡ false)
  calm : IsCalm t.main
  defined : IsDefined t.main
  not_creating : ¬ IsCreating s.main

at : {a b : Pc} → a ≡ b → ¬ IsCreating b → ¬ IsCreating a
at e h k = h (subst IsCreating e k)

moves :
    {s : Client} {a : Pc} (b : Pc)
    → s.main ≡ a
    → ¬ IsCreating a
    → IsCalm b
    → IsDefined b
    → IsLoop s (record s { main = b })
moves b e n calm d = record {
  threads = refl;
  failed = refl;
  status = refl;
  running = inl refl;
  calm = calm;
  defined = d;
  not_creating = at e n;
}

Loop-IsLoop : {s t : Client} → LoopStep s t → IsLoop s t
Loop-IsLoop (LoopStep.reconnect e) = record {
  threads = refl;
  failed = refl;
  status = refl;
  running = inl refl;
  calm = subst IsCalm (sym e) tt;
  defined = subst IsDefined (sym e) tt;
  not_creating = at e (λ h. h);
}
Loop-IsLoop (LoopStep.give_up e) = moves _ e (λ h. h) tt tt
Loop-IsLoop (LoopStep.lost e _) = moves _ e (λ h. h) tt tt
Loop-IsLoop (LoopStep.not_lost e _) = moves _ e (λ h. h) tt tt
Loop-IsLoop (LoopStep.press_start e _) = moves _ e (λ h. h) tt tt
Loop-IsLoop (LoopStep.press_stop e _) = moves _ e (λ h. h) tt tt
Loop-IsLoop (LoopStep.stop_thread e) = record {
  threads = refl;
  failed = refl;
  status = refl;
  running = inr refl;
  calm = tt;
  defined = tt;
  not_creating = at e (λ h. h);
}
Loop-IsLoop (LoopStep.press_quit e) = moves _ e (λ h. h) tt tt
Loop-IsLoop (LoopStep.press_other e) = moves _ e (λ h. h) tt tt
Loop-IsLoop (LoopStep.command_lost e) = moves _ e (λ h. h) tt tt
Loop-IsLoop (LoopStep.command_error e) = moves _ e (λ h. h) tt tt
Loop-IsLoop (LoopStep.thread_error end e _) = moves _ e (λ h. h) tt tt
Loop-IsLoop (LoopStep.go_on e _) = moves _ e (λ h. h) tt tt
Loop-IsLoop (LoopStep.quit e _) = moves _ e (λ h. h) tt tt

still_idle :
    {s t : Client}
    → IsLoop s t
    → (s.running ≡ false) ⊎ IsCreating s.main
    → (t.running ≡ false) ⊎ IsCreating t.main
still_idle l (inr c) = absurd (l.not_creating c)
still_idle l (inl e) = elim (l.running) [ inl same ↦ inl (same ∙ e) | inr f ↦ inl f ]

Loop-Inv : {s t : Client} → IsLoop s t → Inv s → Inv t
Loop-Inv l (has_failed f) = has_failed (l.failed ∙ f)
Loop-Inv l (some_thread w ws e d) = some_thread w ws (l.threads ∙ e) l.defined
Loop-Inv l (no_thread e st run calm) =
    no_thread (l.threads ∙ e) (λ h. st (sym l.status ∙ h)) (still_idle l run) l.calm

Create-Inv : {s t : Client} → CreateStep s t → Inv s → Inv t
Create-Inv (store_running c e) (has_failed f) = has_failed f
Create-Inv (store_running c e) (some_thread w ws k d) = some_thread w ws k tt
Create-Inv (store_running c e) (no_thread k st run calm) = no_thread k st (inr tt) tt
Create-Inv (create c e) (has_failed f) = has_failed f
Create-Inv {s} (create resume e) _ = some_thread Worker.starting s.threads refl tt
Create-Inv {s} (create key_start e) _ = some_thread Worker.starting s.threads refl tt
Create-Inv (create_fails c e) _ = has_failed refl

Exit-Inv : {s t : Client} → ExitStep s t → Inv s → Inv t
Exit-Inv (ExitStep.status_runs e h) (has_failed f) = has_failed f
Exit-Inv (ExitStep.status_runs e h) (some_thread w ws k d) = some_thread w ws k tt
Exit-Inv (ExitStep.status_runs e h) (no_thread k st run calm) = absurd (st h)
Exit-Inv (ExitStep.status_idle e h) (has_failed f) = has_failed f
Exit-Inv (ExitStep.status_idle e h) (some_thread w ws k d) = some_thread w ws k tt
Exit-Inv (ExitStep.status_idle e h) (no_thread k st (inl r) calm) = no_thread k st (inl r) tt
Exit-Inv (ExitStep.status_idle e h) (no_thread k st (inr c) calm) = absurd (subst IsCreating e c)
Exit-Inv (ExitStep.still_running e h) (has_failed f) = has_failed f
Exit-Inv (ExitStep.still_running e h) (some_thread w ws k d) = some_thread w ws k tt
Exit-Inv (ExitStep.still_running e h) (no_thread k st (inl r) calm) = cc
Exit-Inv (ExitStep.still_running e h) (no_thread k st (inr c) calm) = absurd (subst IsCreating e c)
Exit-Inv (ExitStep.not_running e h) (has_failed f) = has_failed f
Exit-Inv (ExitStep.not_running e h) (some_thread w ws k d) = some_thread w ws k tt
Exit-Inv (ExitStep.not_running e h) (no_thread k st run calm) = no_thread k st (inl h) tt
Exit-Inv (ExitStep.clear e) (has_failed f) = has_failed f
Exit-Inv (ExitStep.clear e) (some_thread w ws k d) = some_thread w ws k tt
Exit-Inv (ExitStep.clear e) (no_thread k st run calm) = absurd (subst IsCalm e calm)
Exit-Inv (ExitStep.join vs e h) (has_failed f) = has_failed f
Exit-Inv (ExitStep.join vs e h) (some_thread w ws k d) = some_thread w ws k tt
Exit-Inv (ExitStep.join vs e h) (no_thread k st run calm) = absurd (subst IsCalm e calm)
Exit-Inv (ExitStep.join_nothing e h) (has_failed f) = has_failed f
Exit-Inv (ExitStep.join_nothing e h) (some_thread w ws k d) = cc
Exit-Inv (ExitStep.join_nothing e h) (no_thread k st run calm) = absurd (subst IsCalm e calm)

-- A thread that stores is there, and is there afterwards.
Turn-some :
    {status : ℤ} {ws vs : List Worker}
    → Turn status ws vs
    → (w : Worker) × (rest : List Worker) × (vs ≡ w ∷ rest)
Turn-some (this {b = b} {ws = ws} _) = (b, ws, refl)
Turn-some (next {a = a} {vs = vs} _) = (a, vs, refl)

Turn-nonempty : {status : ℤ} {ws vs : List Worker} → Turn status ws vs → ws ≢ []
Turn-nonempty (this _) = λ e. cc
Turn-nonempty (next _) = λ e. cc

Step-Inv : {s t : Client} → Step s t → Inv s → Inv t
Step-Inv (by_main (loop l)) inv = Loop-Inv (Loop-IsLoop l) inv
Step-Inv (by_main (creates c)) inv = Create-Inv c inv
Step-Inv (by_main (exits x)) inv = Exit-Inv x inv
Step-Inv (by_thread status ws turn) (has_failed f) = has_failed f
Step-Inv (by_thread status ws turn) (some_thread w rest k d) =
    let (v, vs, e) = Turn-some turn in some_thread v vs e d
Step-Inv (by_thread status ws turn) (no_thread k st run calm) = absurd (Turn-nonempty turn k)

Reach-Inv : {s : Client} → Reach s → Inv s
Reach-Inv start = no_thread refl (λ e. cc) (inl refl) tt
Reach-Inv (later r st) = Step-Inv st (Reach-Inv r)

undefined-failed : {s : Client} → Inv s → s.main ≡ undefined → s.failed ≡ true
undefined-failed (has_failed f) e = f
undefined-failed (some_thread w ws k d) e = absurd (subst IsDefined e d)
undefined-failed (no_thread k st run calm) e = absurd (subst IsCalm e calm)

-- As long as pthread_create has not failed, ExitMainThread never joins a thread that has not been
-- created, in every interleaving.
pub join-defined : {s : Client} → Reach s → s.failed ≡ false → s.main ≢ undefined
join-defined r ok e = cc (undefined-failed (Reach-Inv r) e)

is_one : (z : ℤ) → (z ≡ pos 1) ⊎ (z ≢ pos 1)
is_one z = elim (Bool-cases (is_pos z 1)) [ inl e ↦ inl (ground arith) | inr e ↦ inr (λ k. cc) ]

pub Run-Reach : {s t : Client} → Reach s → Run s t → Reach t
Run-Reach r here = r
Run-Reach r (onward run step) = later (Run-Reach r run) step

-- ExitMainThread passes its test while `running` is 1, whatever `status` is.
leaving-clearing-Run :
    {s0 s : Client}
    → Run s0 s
    → s.main ≡ leaving
    → s.running ≡ true
    → Run s0 (record s { main = clearing })
leaving-clearing-Run {s = s} r e run = elim (is_one s.status) [
  | inl one ↦ onward r (by_main (exits (ExitStep.status_runs e one)))
  | inr other ↦
      onward (onward r (by_main (exits (ExitStep.status_idle e other))))
        (by_main (exits (ExitStep.still_running refl run)))
]

pub leaving-clearing :
    {s : Client}
    → Reach s
    → s.main ≡ leaving
    → s.running ≡ true
    → Reach (record s { main = clearing })
leaving-clearing r e run = Run-Reach r (leaving-clearing-Run here e run)

-- From every state in which the main thread is about to create its first transmission thread there
-- is a run in which pthread_create fails and which leads to pthread_join of an identifier that was
-- never stored, with no thread and `status` as it was.
pub create_fails-undefined :
    {s : Client} {c : Caller}
    → s.main ≡ storing c
    → s.threads ≡ []
    → (t : Client) × Run s t
      × (t.main ≡ undefined)
      × (t.failed ≡ true)
      × (t.threads ≡ [])
      × (t.status ≡ s.status)
create_fails-undefined {s} {c} at_store empty =
    let r1 : Run s (record s { running = true; main = creating c }) =
      onward here (by_main (creates (store_running c at_store))) in
    let r2 = onward r1 (by_main (creates (create_fails c refl))) in
    let r3 = leaving-clearing-Run r2 refl refl in
    let r4 = onward r3 (by_main (exits (ExitStep.clear refl))) in
    (
      record s { running = false; main = undefined; failed = true },
      onward r4 (by_main (exits (ExitStep.join_nothing refl empty))),
      refl,
      refl,
      empty,
      refl,
    )
