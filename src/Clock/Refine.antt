-- ===== src/Clock/Refine.antt =====
-- Whole runs of the clock, clock.cc, against the schedule.
use cube_sim.Common.{List, [], ap, refl, ℕ, ◌++◌, ◌+◌, ◌<◌, ◌∙◌, ◌∷◌, ◌≡◌}
use cube_sim.Clock.{Clock, add_deferred_task, increment_time}
use cube_sim.Clock.Schedule.{
  AllWait, add_task-AllWait, due_after, due_by, insert_at, pass_queue-AllWait, schedule,
  schedule-add_task, schedule-pass_queue,
}

-- What is asked of the clock.
pub data Call (T : Type 0) : Type 0 where
  defer : T → ℕ → Call T
  pass : ℕ → Call T

module _ {T : Type 0} where
  -- The tasks that the clock executes, in order.
  unfoldable pub run : List (Call T) → Clock T → List T
  run [] c = []
  run (defer x ns ∷ cs) c = run cs (add_deferred_task x ns c)
  run (pass ns ∷ cs) c = (increment_time ns c).1 ++ run cs (increment_time ns c).0

  -- The same of a schedule at time `now`.
  unfoldable pub run_schedule : List (Call T) → ℕ → List (ℕ × T) → List T
  run_schedule [] now s = []
  run_schedule (defer x ns ∷ cs) now s = run_schedule cs now (insert_at (now + ns) x s)
  run_schedule (pass ns ∷ cs) now s =
      due_by (now + ns) s ++ run_schedule cs (now + ns) (due_after (now + ns) s)

  -- What the program asserts of the times that it is given.
  abbrev pub AllPositive : List (Call T) → Type 0
  AllPositive [] = Unit
  AllPositive (defer x ns ∷ cs) = (0 < ns) × AllPositive cs
  AllPositive (pass ns ∷ cs) = AllPositive cs

  -- The clock keeps a schedule. Whatever tasks are added and whatever times pass, in any order, the
  -- queue of differences executes the tasks that a list sorted by absolute time executes, in the order
  -- of that list, as long as the waiting times that are given and those in the queue are not 0.
  pub run_refines :
      (cs : List (Call T)) (now : ℕ) (c : Clock T)
      → AllPositive cs
      → AllWait c.deferred_tasks
      → run cs c ≡ run_schedule cs now (schedule now c.deferred_tasks)
  unfolding run run_schedule add_deferred_task increment_time
  run_refines [] now c p w = refl
  run_refines (defer x ns ∷ cs) now c p w =
      run_refines cs now (add_deferred_task x ns c) p.1
        (add_task-AllWait x ns c.deferred_tasks p.0 w)
      ∙ ap (run_schedule cs now) (schedule-add_task now x ns c.deferred_tasks w)
  run_refines (pass ns ∷ cs) now c p w =
      let one = schedule-pass_queue now ns c.deferred_tasks w in
      let rest =
        run_refines cs (now + ns) (increment_time ns c).0 p
          (pass_queue-AllWait ns c.deferred_tasks w) in
      ap (λ (l : List T). l ++ run cs (increment_time ns c).0) one.1
      ∙ ap (λ (l : List T). due_by (now + ns) (schedule now c.deferred_tasks) ++ l)
          (rest ∙ ap (run_schedule cs (now + ns)) one.0)
