-- ===== src/Client/Threads/Races.antt =====
-- Pressing key 3 again before the new thread has stored to `status` starts another thread.
use study_and_development_of.Base.{ℕ, zero, suc, ◌≡◌, refl, ap, pos, true, false, List, [], ◌∷◌}
use study_and_development_of.Client.Threads.{
  Worker, starting, working, finished, key_start, polling, closed, Client, Work, this,
  store_running, create, ExitStep, LoopStep, loop, creates, exits, by_main, by_thread, init, Reach,
  start, later, live,
}
use study_and_development_of.Client.Threads.Join.{leaving-clearing}

-- One round of the loop with key 3, while no thread has stored.
start_again :
    {s : Client}
    → Reach s
    → s.main ≡ polling
    → s.status ≡ pos 0
    → Reach (record s { running = true; main = polling; threads = starting ∷ s.threads })
start_again {s} r e idle =
    let r1 = later r (by_main (loop (LoopStep.not_lost e (λ h. cc)))) in
    let r2 = later r1 (by_main (loop (LoopStep.press_start refl idle))) in
    let r3 = later r2 (by_main (creates (store_running key_start refl))) in
    let r4 = later r3 (by_main (creates (create key_start refl))) in
    later r4 (by_main (loop (LoopStep.go_on refl (λ h. cc))))

starts : ℕ → List Worker
starts zero = []
starts (suc n) = starting ∷ starts n

live-starts : (n : ℕ) → live (starts n) ≡ n
unfolding starts
live-starts zero = refl
live-starts (suc n) = ap suc (live-starts n)

-- As many rounds with key 3.
abbrev crowd : ℕ → Client
crowd zero = init
crowd (suc n) = record {
  status = pos 0;
  running = true;
  main = polling;
  threads = starting ∷ starts n;
  failed = false;
}

Reach-crowd : (n : ℕ) → Reach (crowd n)
unfolding starts
Reach-crowd zero = start
Reach-crowd (suc zero) = start_again start refl refl
Reach-crowd (suc (suc n)) = start_again (Reach-crowd (suc n)) refl refl

-- The newest of them ends, and then the client: the others are not joined.
Reach-closed :
    (n : ℕ)
    → Reach (record {
      status = pos 0;
      running = false;
      main = closed;
      threads = finished ∷ starts n;
      failed = false;
    })
Reach-closed n =
    let r1 =
      later (Reach-crowd (suc n)) (by_thread (pos 1) (working ∷ starts n) (this Work.begin)) in
    let r2 = later r1 (by_thread (pos 0) (finished ∷ starts n) (this Work.stop)) in
    let r3 = later r2 (by_main (loop (LoopStep.give_up refl))) in
    let r4 = leaving-clearing r3 refl refl in
    let r5 = later r4 (by_main (exits (ExitStep.clear refl))) in
    later r5 (by_main (exits (ExitStep.join (starts n) refl refl)))

-- For every number there is a run in which ExitMainThread comes to its end while that many
-- transmission threads live, since key 3 starts another thread until the first store to `status`.
pub closed-live :
    (n : ℕ) → (s : Client) × Reach s × (s.main ≡ closed) × (s.failed ≡ false) × (live s.threads ≡ n)
closed-live n = (_, Reach-closed n, refl, refl, live-starts n)
