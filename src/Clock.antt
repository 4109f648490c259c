-- ===== src/Clock.antt =====
-- `Clock`, clock.h and clock.cc: the simulated time, and the queue of tasks that wait, each group with
-- the time that is left once the groups before it have come due. A task is of any type `T`; those that
-- are executed are part of a result, so a task that itself adds tasks is not modelled. A `long` is a
-- number: the assertions of the program keep the waiting times above 0. `gettimeofday` is an argument.
mod Tests
pub mod Schedule
pub mod Refine
use cube_sim.Common.{
  List, Option, [], if◌then◌else◌, leb, ltb, none, some, suc, zero, ℕ, ◌++◌, ◌+◌, ◌-◌, ◌/◌, ◌==◌,
  ◌∷◌,
}

-- `timespec`
pub record TimeSpec : Type 0 where
  pub tv_sec : ℕ
  pub tv_nsec : ℕ

abbrev pub second : ℕ
second = 1000000000

unfoldable pub timespecadd : TimeSpec → TimeSpec → TimeSpec
timespecadd v u =
    let sec = v.tv_sec + u.tv_sec in
    let nsec = v.tv_nsec + u.tv_nsec in
    if leb second nsec
    then record { tv_sec = sec + 1; tv_nsec = nsec - second }
    else record { tv_sec = sec; tv_nsec = nsec }

-- A time that runs backwards gives no seconds, which the program does not tell from a negative number.
unfoldable pub timespecsub : TimeSpec → TimeSpec → TimeSpec
timespecsub v u =
    if ltb v.tv_nsec u.tv_nsec
    then record { tv_sec = v.tv_sec - u.tv_sec - 1; tv_nsec = v.tv_nsec + second - u.tv_nsec }
    else record { tv_sec = v.tv_sec - u.tv_sec; tv_nsec = v.tv_nsec - u.tv_nsec }

pub record DeferredTasks (T : Type 0) : Type 0 where
  pub nanoseconds_left : ℕ
  pub tasks : List T

-- `then` is the last time of `gettimeofday`, once there is one.
pub record Clock (T : Type 0) : Type 0 where
  pub time : TimeSpec
  pub last_real : Option TimeSpec
  pub spill_ns : ℕ
  pub deferred_tasks : List (DeferredTasks T)

abbrev pub or_time : Option TimeSpec → TimeSpec → TimeSpec
or_time none t = t
or_time (some u) t = u

module _ {T : Type 0} where
  -- The loop of `increment_time` with `pass_time`: the queue after it and the tasks it executes.
  unfoldable pub pass_queue : ℕ → List (DeferredTasks T) → List (DeferredTasks T) × List T
  pass_queue ns [] = ([], [])
  pass_queue ns (d ∷ ds) =
      let (q, fired) = pass_queue (ns - d.nanoseconds_left) ds in
      if ltb ns d.nanoseconds_left
      then (record d { nanoseconds_left = d.nanoseconds_left - ns } ∷ ds, [])
      else (if ns == d.nanoseconds_left then (ds, d.tasks) else (q, d.tasks ++ fired))

  unfoldable pub increment_time : ℕ → Clock T → Clock T × List T
  increment_time ns c =
      let (q, fired) = pass_queue ns c.deferred_tasks in
      (
        record c {
          time = timespecadd c.time (record { tv_sec = 0; tv_nsec = ns });
          deferred_tasks = q;
        },
        fired,
      )

  -- The loop of `add_deferred_task`.
  unfoldable pub add_task : T → ℕ → List (DeferredTasks T) → List (DeferredTasks T)
  add_task x ns [] = record { nanoseconds_left = ns; tasks = x ∷ [] } ∷ []
  add_task x ns (d ∷ ds) =
      let rest = add_task x (ns - d.nanoseconds_left) ds in
      if ltb ns d.nanoseconds_left
      then record { nanoseconds_left = ns; tasks = x ∷ [] }
        ∷ record d { nanoseconds_left = d.nanoseconds_left - ns }
        ∷ ds
      else (if ns == d.nanoseconds_left
          then record d { tasks = d.tasks ++ x ∷ [] } ∷ ds
          else d ∷ rest)

  unfoldable pub add_deferred_task : T → ℕ → Clock T → Clock T
  add_deferred_task x ns c = record c { deferred_tasks = add_task x ns c.deferred_tasks }

  -- The loop of `pass_realtime`, one simulated step for each second.
  unfoldable pub pass_seconds : ℕ → ℕ → Clock T → Clock T × List T
  pass_seconds zero step c = (c, [])
  pass_seconds (suc n) step c =
      let (c₁, fired) = increment_time step c in
      let (c₂, more) = pass_seconds n step c₁ in (c₂, fired ++ more)

  unfoldable pub pass_rest : ℕ → ℕ → Clock T → Clock T × List T
  pass_rest timeratio nsec c =
      let increase = (nsec + c.spill_ns) / timeratio in
      if increase == 0
      then (record c { spill_ns = nsec + c.spill_ns }, [])
      else increment_time increase (record c { spill_ns = 0 })

  -- `first` is what `gettimeofday` says on the first call, if this is it, and `current` what it says then.
  unfoldable pub pass_realtime : ℕ → TimeSpec → TimeSpec → Clock T → Clock T × List T
  pass_realtime timeratio first current c =
      let now = timespecsub current (or_time c.last_real first) in
      let (c₁, fired) = pass_seconds now.tv_sec (second / timeratio) c in
      let (c₂, more) = pass_rest timeratio now.tv_nsec c₁ in
      (record c₂ { last_real = some current }, fired ++ more)
