-- ===== src/Tests/Threading.antt =====
-- Runs of the main thread and the transmission threads.
use study_and_development_of.Base.{◌≤◌, ◌≡◌, ◌≢◌, refl, pos, true, false, [], ◌∷◌}
use study_and_development_of.Client.Threads.{
  working, finished, key_start, Pc, polling, storing, closed, undefined, Client, Work, this,
  store_running, create, ExitStep, LoopStep, loop, creates, exits, by_main, Reach, Run, start,
  later, live,
}
use study_and_development_of.Client.Threads.Join.{join-defined, create_fails-undefined}
use study_and_development_of.Client.Threads.Prompt.{
  PromptReach, main_moves, thread_moves, closed-quiet, live-le-one,
}
use study_and_development_of.Client.Threads.Races.{closed-live}

abbrev at_start : Client
at_start = record {
  status = pos 0;
  running = false;
  main = storing key_start;
  threads = [];
  failed = false;
}

Reach-at_start : Reach at_start
Reach-at_start =
    later (later start (by_main (loop (LoopStep.not_lost refl (λ h. cc)))))
      (by_main (loop (LoopStep.press_start refl refl)))

create_fails-undefined_example :
    (t : Client) × Run at_start t
    × (t.main ≡ undefined)
    × (t.failed ≡ true)
    × (t.threads ≡ [])
    × (t.status ≡ pos 0)
create_fails-undefined_example = create_fails-undefined refl refl

join-defined_example : at_start.main ≢ undefined
join-defined_example = join-defined Reach-at_start refl

closed-live_example :
    (s : Client) × Reach s × (s.main ≡ closed) × (s.failed ≡ false) × (live s.threads ≡ 2)
closed-live_example = closed-live 2

abbrev one_works : Client
one_works = record {
  status = pos 1;
  running = true;
  main = polling;
  threads = working ∷ [];
  failed = false;
}

-- Key 3, and the thread stores.
one_works-PromptReach : PromptReach (record one_works { main = Pc.checking false })
one_works-PromptReach =
    let r1 = main_moves PromptReach.start tt (loop (LoopStep.not_lost refl (λ h. cc))) in
    let r2 = main_moves r1 tt (loop (LoopStep.press_start refl refl)) in
    let r3 = main_moves r2 tt (creates (store_running key_start refl)) in
    let r4 = main_moves r3 tt (creates (create key_start refl)) in
    thread_moves r4 (pos 1) (working ∷ []) (this Work.begin)

live-le-one_example : live (working ∷ []) ≤ 1
live-le-one_example = live-le-one one_works-PromptReach

-- The thread ends, and then the client.
after_quit : PromptReach (record {
  status = pos 0;
  running = false;
  main = closed;
  threads = finished ∷ [];
  failed = false;
})
after_quit =
    let r1 = thread_moves one_works-PromptReach (pos 0) (finished ∷ []) (this Work.stop) in
    let r2 = main_moves r1 tt (loop (LoopStep.go_on refl (λ h. cc))) in
    let r3 = main_moves r2 tt (loop (LoopStep.give_up refl)) in
    let r4 = main_moves r3 tt (exits (ExitStep.status_idle refl (λ h. cc))) in
    let r5 = main_moves r4 tt (exits (ExitStep.still_running refl refl)) in
    let r6 = main_moves r5 tt (exits (ExitStep.clear refl)) in
    main_moves r6 tt (exits (ExitStep.join [] refl refl))

closed-quiet_example : live (finished ∷ []) ≡ 0
closed-quiet_example = closed-quiet after_quit refl
