-- ===== src/Schedx/Pool.antt =====
-- The pool of workers over a bounded queue that pkg/schedx/scheduler.go and
-- pkg/schedx/retrievable_scheduler.go both are: the shared state, and `Push` and the worker's loop
-- as the atomic steps of one goroutine. Loads, stores, compare-and-swaps, calls of the container and
-- lock operations are one step each; between two steps any other goroutine may move.
use concx.Prelude.{
  ◌==◌, Bool, true, false, not, Option, none, some, List, [], ◌∷◌, ◌++◌, if◌then◌else◌,
}
use concx.Prelude.Int.{ℤ, is_neg, leb_ℤ, add_one, sub_one, eq_ℤ}
use concx.Codex.{Codex, SchedError, sched, scheduler_not_running, scheduler_canceled}
use concx.Schedx.Tasks.{Tasks}
pub mod System
pub mod Counts
pub mod Pending
pub mod Invariant
pub mod History
pub mod Staffing
pub mod Runners
pub mod Workers
pub mod Conservation
pub mod Past

-- The fields that the goroutines share. `locked`: `cond.L` is held. `waking`: the goroutine that the
-- nest's hook starts before the close is there. `world`: what the scheduler's own callbacks work on.
-- The last three are history: the values given to `tasks.Push`, those taken by `tasks.Pop`, and
-- those whose job ended with how it ended, each in order.
pub record Pool (S T E W : Type 0) : Type 0 where
  pub tasks : S
  pub pending : ℤ
  pub running : Bool
  pub locked : Bool
  pub waking : Bool
  pub world : W
  pub appended : List T
  pub taken : List T
  pub finished : List (T × E)

-- Where a call of `Push` stands.
pub data PushPc (Err : Type 0) : Type 0 where
  -- before `s.running.Load()`
  entered : PushPc Err
  -- before `s.nest.Canceled()`
  is_running : PushPc Err
  -- before the test of `s.maxPending`, and at the head of the loop
  admitted : PushPc Err
  looping : PushPc Err
  -- before the compare-and-swap, with `current`
  loaded : (current : ℤ) → PushPc Err
  -- before `s.tasks.Push(v)`, and before `s.cond.Broadcast()`
  appending : PushPc Err
  broadcasting : PushPc Err
  returned : Option Err → PushPc Err

-- Where a worker stands.
pub data WorkPc (T : Type 0) : Type 0 where
  -- before `s.cond.L.Lock()`
  idle : WorkPc T
  -- holding the lock: before `s.tasks.Len()`, before `s.nest.Canceled()`, before `s.cond.Wait()`
  checking : WorkPc T
  saw_none : WorkPc T
  before_wait : WorkPc T
  -- in `Wait` without the lock: not woken yet, and woken
  asleep : WorkPc T
  woken : WorkPc T
  -- holding the lock: after the loop, before `s.tasks.Pop()`, and before the two calls of `Unlock`
  past_loop : WorkPc T
  popping : WorkPc T
  popped : Option T → WorkPc T
  leaving : WorkPc T
  -- before `s.pending.Add(-1)`
  counting : T → WorkPc T
  -- in `s.do`, where `detached` says that `ctx` went through `context.WithoutCancel`
  doing : (detached : Bool) → T → WorkPc T
  -- has returned
  gone : WorkPc T

-- The options that the pool reads, and `done`, the end of `do`.
pub record Config (T E W : Type 0) : Type 0 where
  pub max_pending : ℤ
  pub parallel : ℤ
  pub disable_detached : Bool
  pub done : T → E → W → W

module _ {S T E W Err : Type 0} ⦃x : Codex Err⦄ (t : Tasks S T) (o : Config T E W) where
  -- One step of a call of `Push` with `v`. `canceled` is what `s.nest != nil && s.nest.Canceled()`
  -- gives.
  unfoldable pub push_step : Bool → T → PushPc Err → Pool S T E W → Pool S T E W × PushPc Err
  push_step canceled v entered p =
      (p, if p.running then is_running else returned (some (x.new (sched scheduler_not_running))))
  push_step canceled v is_running p =
      (p, if canceled then returned (some (x.new (sched scheduler_canceled))) else admitted)
  push_step canceled v admitted p =
      if is_neg o.max_pending
      then (record p { pending = add_one p.pending }, appending)
      else (p, looping)
  push_step canceled v looping p = (
    p,
    if leb_ℤ o.max_pending p.pending
        then returned (some (x.new (sched SchedError.reach_max_pending)))
        else loaded p.pending,
  )
  push_step canceled v (loaded current) p =
      if eq_ℤ p.pending current
      then (record p { pending = add_one current }, appending)
      else (p, looping)
  push_step canceled v appending p =
      (record p { tasks = t.push v p.tasks; appended = p.appended ++ v ∷ [] }, broadcasting)
  push_step canceled v broadcasting p = (p, returned none)
  push_step canceled v (returned e) p = (p, returned e)

module _ {S T E W : Type 0} (t : Tasks S T) (o : Config T E W) where
  -- `Lock`, from `idle` or `woken`.
  abbrev lock : WorkPc T → Pool S T E W → Pool S T E W × WorkPc T
  lock here p = if p.locked then (p, here) else (record p { locked = true }, checking)

  -- `v, ok := s.tasks.Pop()`
  abbrev take : Option (T × S) → Pool S T E W → Pool S T E W × WorkPc T
  take none p = (p, popped none)
  take (some (v, rest)) p = (record p { tasks = rest; taken = p.taken ++ v ∷ [] }, popped (some v))

  -- One step of a worker; a job ends with `e`.
  unfoldable pub work_step : Bool → E → WorkPc T → Pool S T E W → Pool S T E W × WorkPc T
  work_step canceled e idle p = lock idle p
  work_step canceled e checking p = (p, if t.len p.tasks == 0 then saw_none else past_loop)
  work_step canceled e saw_none p = (p, if canceled then past_loop else before_wait)
  work_step canceled e before_wait p = (record p { locked = false }, asleep)
  work_step canceled e asleep p = (p, asleep)
  work_step canceled e woken p = lock woken p
  work_step canceled e past_loop p = (p, if canceled then leaving else popping)
  work_step canceled e popping p = take (t.pop p.tasks) p
  work_step canceled e (popped none) p = (record p { locked = false }, idle)
  work_step canceled e (popped (some v)) p = (record p { locked = false }, counting v)
  work_step canceled e leaving p = (record p { locked = false }, gone)
  work_step canceled e (counting v) p =
      (record p { pending = sub_one p.pending }, doing (not o.disable_detached) v)
  work_step canceled e (doing d v) p =
      (record p { world = o.done v e p.world; finished = p.finished ++ (v, e) ∷ [] }, idle)
  work_step canceled e gone p = (p, gone)

-- `Broadcast` wakes every sleeping worker.
unfoldable pub wake_one : {T : Type 0} → WorkPc T → WorkPc T
wake_one asleep = woken
wake_one w = w

unfoldable pub broadcast : {T : Type 0} → List (WorkPc T) → List (WorkPc T)
broadcast [] = []
broadcast (w ∷ ws) = wake_one w ∷ broadcast ws
