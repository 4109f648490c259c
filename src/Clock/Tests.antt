-- ===== src/Clock/Tests.antt =====
-- Concrete runs of the clock, clock.cc.
use cube_sim.Common.{List, [], arith, none, refl, ℕ, ◌∷◌, ◌≡◌}
use cube_sim.Clock.{Clock, add_deferred_task, add_task, increment_time, pass_queue}
use cube_sim.Clock.Schedule.{schedule}
use cube_sim.Clock.Refine.{Call, defer, pass, run, run_refines, run_schedule}

abbrev start : Clock ℕ
start = record {
  time = record { tv_sec = 0; tv_nsec = 0 };
  last_real = none;
  spill_ns = 0;
  deferred_tasks = [];
}

abbrev script : List (Call ℕ)
script = defer 7 30 ∷ defer 8 10 ∷ pass 10 ∷ defer 9 20 ∷ pass 25 ∷ []

run-script : run script start ≡ 8 ∷ 7 ∷ 9 ∷ []
unfolding run add_deferred_task increment_time add_task pass_queue
run-script = refl

run_refines_example : run script start ≡ run_schedule script 100 []
unfolding schedule
run_refines_example = run_refines script 100 start (omega arith) tt
