-- ===== src/Clock/Schedule.antt =====
-- The queue of waiting times of clock.cc against a plain schedule: the list of the tasks with the time
-- at which each comes due.
use cube_sim.Common.{
  Bool-cases, List, [], ap, append-nil, arith, if◌then◌else◌, inl, inr, ltb, ltb→lt, lt→ltb, refl,
  sym, ℕ, ◌++◌, ◌+◌, ◌-◌, ◌<◌, ◌==◌, ◌∙◌, ◌∷◌, ◌≡◌, ◌≤◌,
}
use cube_sim.Clock.{DeferredTasks, add_task, pass_queue}

module _ {T : Type 0} where
  -- The schedule that a queue means at time `now`.
  abbrev pub at_time : ℕ → List T → List (ℕ × T)
  at_time t [] = []
  at_time t (x ∷ xs) = (t, x) ∷ at_time t xs

  unfoldable pub schedule : ℕ → List (DeferredTasks T) → List (ℕ × T)
  schedule now [] = []
  schedule now (d ∷ ds) =
      at_time (now + d.nanoseconds_left) d.tasks ++ schedule (now + d.nanoseconds_left) ds

  -- A task is put behind those that come due no later.
  unfoldable pub insert_at : ℕ → T → List (ℕ × T) → List (ℕ × T)
  insert_at t x [] = (t, x) ∷ []
  insert_at t x ((u, y) ∷ s) = if ltb t u then (t, x) ∷ (u, y) ∷ s else (u, y) ∷ insert_at t x s

  unfoldable pub due_after : ℕ → List (ℕ × T) → List (ℕ × T)
  due_after t [] = []
  due_after t ((u, y) ∷ s) = if ltb t u then (u, y) ∷ due_after t s else due_after t s

  unfoldable pub due_by : ℕ → List (ℕ × T) → List T
  due_by t [] = []
  due_by t ((u, y) ∷ s) = if ltb t u then due_by t s else y ∷ due_by t s

  -- The waiting times are not 0.
  abbrev pub AllWait : List (DeferredTasks T) → Type 0
  AllWait [] = Unit
  AllWait (d ∷ ds) = (0 < d.nanoseconds_left) × AllWait ds

  -- Every time of the schedule is after `t`.
  abbrev AllAfter : ℕ → List (ℕ × T) → Type 0
  AllAfter t [] = Unit
  AllAfter t ((u, y) ∷ s) = (t < u) × AllAfter t s

  at_time-AllAfter :
      (t u : ℕ) (xs : List T) (s : List (ℕ × T))
      → t < u
      → AllAfter t s
      → AllAfter t (at_time u xs ++ s)
  at_time-AllAfter t u [] s lt a = a
  at_time-AllAfter t u (x ∷ xs) s lt a = (lt, at_time-AllAfter t u xs s lt a)

  schedule-AllAfter :
      (t now : ℕ) (q : List (DeferredTasks T)) → t ≤ now → AllWait q → AllAfter t (schedule now q)
  unfolding schedule
  schedule-AllAfter t now [] le w = tt
  schedule-AllAfter t now (d ∷ ds) le w =
      at_time-AllAfter t (now + d.nanoseconds_left) d.tasks _ (omega arith)
        (schedule-AllAfter t (now + d.nanoseconds_left) ds (omega arith) w.1)

  insert_at-first : (t : ℕ) (x : T) (s : List (ℕ × T)) → AllAfter t s → insert_at t x s ≡ (t, x) ∷ s
  unfolding insert_at
  insert_at-first t x [] a = refl
  insert_at-first t x ((u, y) ∷ s) a = rw (lt→ltb t u a.0) refl

  insert_at-at_time :
      (t u : ℕ) (x : T) (xs : List T) (s : List (ℕ × T))
      → u ≤ t
      → insert_at t x (at_time u xs ++ s) ≡ at_time u xs ++ insert_at t x s
  unfolding insert_at
  insert_at-at_time t u x [] s le = refl
  insert_at-at_time t u x (y ∷ xs) s le = ground (arith, insert_at-at_time t u x xs s le)

  at_time-append :
      (t : ℕ) (x : T) (xs : List T) (s : List (ℕ × T))
      → at_time t (xs ++ x ∷ []) ++ s ≡ at_time t xs ++ (t, x) ∷ s
  at_time-append t x [] s = refl
  at_time-append t x (y ∷ xs) s = ap (λ r. (t, y) ∷ r) (at_time-append t x xs s)

  -- Whatever waits, adding a task to the queue puts it into the schedule at its time, behind those that
  -- come due no later, and changes the time of no other task.
  pub schedule-add_task :
      (now : ℕ) (x : T) (ns : ℕ) (q : List (DeferredTasks T))
      → AllWait q
      → schedule now (add_task x ns q) ≡ insert_at (now + ns) x (schedule now q)
  unfolding schedule add_task insert_at
  schedule-add_task now x ns [] w = refl
  schedule-add_task now x ns (d ∷ ds) w =
      let rest = schedule (now + d.nanoseconds_left) ds in
      elim (Bool-cases (ltb ns d.nanoseconds_left)) [
        | inl lt ↦
            let ns-lt = ltb→lt ns d.nanoseconds_left lt in
            let e : now + ns + (d.nanoseconds_left - ns) ≡ now + d.nanoseconds_left = omega arith in
            simp lt (
              simp e (
                sym (
                  insert_at-first (now + ns) x (at_time (now + d.nanoseconds_left) d.tasks ++ rest)
                    (at_time-AllAfter (now + ns) (now + d.nanoseconds_left) d.tasks rest
                      (omega arith)
                      (schedule-AllAfter (now + ns) (now + d.nanoseconds_left) ds (omega arith)
                        w.1)))))
        | inr ge ↦ elim (Bool-cases (ns == d.nanoseconds_left)) [
          | inl same ↦
              let e : now + ns ≡ now + d.nanoseconds_left = ground arith in
              simp (ge, same)
                (rw e (
                  at_time-append (now + d.nanoseconds_left) x d.tasks rest
                  ∙ ap (λ (r : List (ℕ × T)). at_time (now + d.nanoseconds_left) d.tasks ++ r)
                      (sym (
                        insert_at-first (now + d.nanoseconds_left) x rest (
                          schedule-AllAfter (now + d.nanoseconds_left) (now + d.nanoseconds_left) ds
                            (omega arith) w.1)))
                  ∙ sym (
                      insert_at-at_time (now + d.nanoseconds_left) (now + d.nanoseconds_left) x
                        d.tasks rest (omega arith))))
          | inr more ↦
              let le : d.nanoseconds_left ≤ ns = ground arith in
              let e : now + d.nanoseconds_left + (ns - d.nanoseconds_left) ≡ now + ns =
                omega arith in
              simp (ge, more)
                (ap (λ (r : List (ℕ × T)). at_time (now + d.nanoseconds_left) d.tasks ++ r)
                    (schedule-add_task (now + d.nanoseconds_left) x (ns - d.nanoseconds_left) ds w.1
                      ∙ ap (λ (t : ℕ). insert_at t x rest) e)
                  ∙ sym (
                      insert_at-at_time (now + ns) (now + d.nanoseconds_left) x d.tasks rest
                        (omega arith)))
        ]
      ]

  pub pass_queue-AllWait :
      (ns : ℕ) (q : List (DeferredTasks T)) → AllWait q → AllWait (pass_queue ns q).0
  unfolding pass_queue
  pass_queue-AllWait ns [] w = tt
  pass_queue-AllWait ns (d ∷ ds) w =
      ground (arith, pass_queue-AllWait (ns - d.nanoseconds_left) ds w.1)

  pub add_task-AllWait :
      (x : T) (ns : ℕ) (q : List (DeferredTasks T)) → 0 < ns → AllWait q → AllWait (add_task x ns q)
  unfolding add_task
  add_task-AllWait x ns [] h w = (h, tt)
  add_task-AllWait x ns (d ∷ ds) h w =
      ground (arith, add_task-AllWait x (ns - d.nanoseconds_left) ds)

  due_after-at_time_early :
      (t u : ℕ) (xs : List T) (s : List (ℕ × T))
      → u ≤ t
      → due_after t (at_time u xs ++ s) ≡ due_after t s
  unfolding due_after
  due_after-at_time_early t u [] s le = refl
  due_after-at_time_early t u (x ∷ xs) s le = ground (arith, due_after-at_time_early t u xs s le)

  due_by-at_time_early :
      (t u : ℕ) (xs : List T) (s : List (ℕ × T))
      → u ≤ t
      → due_by t (at_time u xs ++ s) ≡ xs ++ due_by t s
  unfolding due_by
  due_by-at_time_early t u [] s le = refl
  due_by-at_time_early t u (x ∷ xs) s le = ground (arith, due_by-at_time_early t u xs s le)

  AllAfter-due_after : (t : ℕ) (s : List (ℕ × T)) → AllAfter t s → due_after t s ≡ s
  unfolding due_after
  AllAfter-due_after t [] a = refl
  AllAfter-due_after t ((u, y) ∷ s) a = ground (arith, AllAfter-due_after t s a.1)

  AllAfter-due_by : (t : ℕ) (s : List (ℕ × T)) → AllAfter t s → due_by t s ≡ []
  unfolding due_by
  AllAfter-due_by t [] a = refl
  AllAfter-due_by t ((u, y) ∷ s) a = ground (arith, AllAfter-due_by t s a.1)

  -- Passing time executes exactly the tasks that come due by then, in the order of the schedule, and the
  -- schedule at the new time is what is left of the old one.
  pub schedule-pass_queue :
      (now ns : ℕ) (q : List (DeferredTasks T))
      → AllWait q
      → (schedule (now + ns) (pass_queue ns q).0 ≡ due_after (now + ns) (schedule now q))
        × ((pass_queue ns q).1 ≡ due_by (now + ns) (schedule now q))
  unfolding schedule pass_queue due_after due_by
  schedule-pass_queue now ns [] w = (refl, refl)
  schedule-pass_queue now ns (d ∷ ds) w =
      let t = now + d.nanoseconds_left in
      let rest = schedule t ds in
      let later : AllAfter t rest = schedule-AllAfter t t ds (omega arith) w.1 in
      elim (Bool-cases (ltb ns d.nanoseconds_left)) [
        | inl lt ↦
            let ns-lt = ltb→lt ns d.nanoseconds_left lt in
            let e : now + ns + (d.nanoseconds_left - ns) ≡ t = omega arith in
            let all : AllAfter (now + ns) (at_time t d.tasks ++ rest) =
              at_time-AllAfter (now + ns) t d.tasks rest (omega arith)
                (schedule-AllAfter (now + ns) t ds (omega arith) w.1) in
            simp lt (
              simp e (sym (AllAfter-due_after (now + ns) (at_time t d.tasks ++ rest) all)),
              sym (AllAfter-due_by (now + ns) (at_time t d.tasks ++ rest) all),
            )
        | inr ge ↦ elim (Bool-cases (ns == d.nanoseconds_left)) [
          | inl same ↦
              let e : now + ns ≡ t = ground arith in
              simp (ge, same)
                (
                  rw e (
                      sym (
                        due_after-at_time_early t t d.tasks rest (omega arith)
                        ∙ AllAfter-due_after t rest later)),
                  rw e (
                      sym (
                        due_by-at_time_early t t d.tasks rest (omega arith)
                        ∙ ap (λ (r : List T). d.tasks ++ r) (AllAfter-due_by t rest later)
                        ∙ append-nil d.tasks)),
                )
          | inr more ↦
              let le : d.nanoseconds_left ≤ ns = ground arith in
              let e : t + (ns - d.nanoseconds_left) ≡ now + ns = omega arith in
              let ih = schedule-pass_queue t (ns - d.nanoseconds_left) ds w.1 in
              simp (ge, more)
                (
                  rw (← e) (
                      ih.0
                      ∙ sym (
                          due_after-at_time_early (t + (ns - d.nanoseconds_left)) t d.tasks rest
                            (omega arith))),
                  rw (← e) (
                      ap (λ (r : List T). d.tasks ++ r) ih.1
                      ∙ sym (
                          due_by-at_time_early (t + (ns - d.nanoseconds_left)) t d.tasks rest
                            (omega arith))),
                )
        ]
      ]
