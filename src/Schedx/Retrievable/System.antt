-- ===== src/Schedx/Retrievable/System.antt =====
-- pkg/schedx/retrievable_scheduler.go: the retrievable scheduler, as the pool with results, and with
-- `dismiss` as the steps of the goroutine that closes the nest.
pub mod Invariant
pub mod Finish
pub mod Answers
pub mod Conserved
pub mod Pending
pub mod Closing
mod Tests
use concx.Prelude.{
  ℕ, ◌==◌, Bool, true, false, not, ◌&&◌, Option, none, some, List, [], ◌∷◌, ◌++◌, length,
  if◌then◌else◌,
}
use concx.Prelude.Int.{sub_one}
use concx.Codex.{Codex, Panic, error, other, sched, scheduler_job_panicked}
use concx.Nest
use concx.Schedx.Tasks.{Tasks}
use concx.Schedx.Canceled.{wrap_canceled}
use concx.Schedx.Retrievable.{RetrievableOptions}
use concx.Schedx.Retrievable.Result
use concx.Schedx.Retrievable.Result.{Once, unsettled}
use concx.Schedx.Pool.{Pool, PushPc, WorkPc, push_step, work_step}
use concx.Schedx.Pool.System
use concx.Schedx.Pool.System.{
  System, is_opening, RunPc, ClosePc, run_step, close_step, Scheme, init, Event, push, run, close,
  push_at, work_at, run_at, close_at, advance, timer, deadline, watch_inherited, watch_dispatched,
  parent_done, wake,
}

-- `task`. `ret` is the result that the call of `Push` has made: they are numbered as the calls are.
pub record Task (In : Type 0) : Type 0 where
  pub input : In
  pub ret : ℕ

-- What the results share, `cause` and `closed`, and of each what its `once` has done.
pub record Results (Out Err : Type 0) : Type 0 where
  pub cause : Option Err
  pub closed : Bool
  pub rets : ℕ → Once Out Err

-- How `r.fn.Do` ends.
pub data Outcome (Out Err : Type 0) : Type 0 where
  returns : Out → Option Err → Outcome Out Err
  panics : Panic Err → Outcome Out Err

-- Where `dismiss` stands.
pub data Dismissal (In Err : Type 0) : Type 0 where
  -- the hook has not begun
  before : Dismissal In Err
  -- in `shutdownReason`: before `r.cause.Load()`, and before `context.Cause`
  reading asking : Dismissal In Err
  -- with the reason: before `r.cause.Store`, `close(r.closed)`, `r.tasks.Pop()`
  storing closing popping : Err → Dismissal In Err
  -- before `r.pending.Add(-1)`, and before `t.ret.failed`
  counting failing : Err → Task In → Dismissal In Err
  -- has returned
  over : Dismissal In Err

-- The scheduler, with `dismiss` and, in order, the tasks that it has failed.
pub record Retrievable (S In Out Err : Type 0) : Type 0 where
  pub base : System S (Task In) (Outcome Out Err) (Results Out Err) Err
  pub dismissal : Dismissal In Err
  pub dismissed : List (Task In)

-- `dismiss` takes its next step, or something else happens.
pub data Act (In Out Err : Type 0) : Type 0 where
  dismiss : Act In Out Err
  pool : Event In (Outcome Out Err) Err → Act In Out Err

-- The events with the inputs as tasks: a call of `Push` makes the result `ret`.
abbrev pub as_task : {In E Err : Type 0} → ℕ → Event In E Err → Event (Task In) E Err
as_task ret (push v) = push (record { input = v; ret = ret })
as_task ret run = run
as_task ret close = close
as_task ret (push_at i) = push_at i
as_task ret (work_at i e) = work_at i e
as_task ret (run_at i) = run_at i
as_task ret (close_at i) = close_at i
as_task ret advance = advance
as_task ret timer = timer
as_task ret deadline = deadline
as_task ret watch_inherited = watch_inherited
as_task ret watch_dispatched = watch_dispatched
as_task ret (parent_done c) = parent_done c
as_task ret wake = wake

abbrev pub is_advance : {T E Err : Type 0} → Event T E Err → Bool
is_advance advance = true
is_advance _ = false

abbrev pub is_over : {In Err : Type 0} → Dismissal In Err → Bool
is_over over = true
is_over _ = false

abbrev pub begin : {In Err : Type 0} → Dismissal In Err → Dismissal In Err
begin before = reading
begin d = d

-- `context.Cause(r.nest.Parent())`
abbrev pub parent_cause : {Err : Type 0} → Option (Nest.State Err) → Option Err
parent_cause none = none
parent_cause (some n) = n.inherited

module _ {Out Err : Type 0} ⦃x : Codex Err⦄ (zero_out : Out) where
  -- The result `k`, as Result has it.
  abbrev pub view : ℕ → Results Out Err → Result.Shared Out Err
  view k r = record { once = r.rets k; closed = r.closed; cause = r.cause }

  -- `finish` on the result `k`, from the choice in its `once` to `close(r.done)`.
  unfoldable pub finish : ℕ → Out → Option Err → Results Out Err → Results Out Err
  finish k out err r = record r {
    rets = λ m.
        if m == k
        then (Result.step zero_out Result.publish
            (Result.step zero_out (Result.finish out err) (view m r))).once
        else r.rets m;
  }

  unfoldable pub failed : ℕ → Err → Results Out Err → Results Out Err
  unfolding finish
  failed k e r = finish k zero_out (some e) r

  -- The `out` and `err` of `do` after its deferred function has recovered.
  unfoldable pub outcome : Outcome Out Err → Out × Option Err
  outcome (returns out err) = (out, err)
  outcome (panics (error e)) = (zero_out, some (x.wrap (sched scheduler_job_panicked) e))
  outcome (panics other) = (zero_out, some (x.errorf (sched scheduler_job_panicked)))

  module _ {In : Type 0} where
    -- The end of `do`.
    unfoldable pub do_end : Task In → Outcome Out Err → Results Out Err → Results Out Err
    unfolding outcome finish
    do_end t e r = let (out, err) = outcome e in finish (t.ret) out err r

module _ {S In Out Err : Type 0} ⦃x : Codex Err⦄ (t : Tasks S (Task In)) (zero_out : Out)
    (o : RetrievableOptions) where
  -- What the hook does after `dismiss`: it starts the goroutine that broadcasts.
  unfoldable pub before_close :
      Pool S (Task In) (Outcome Out Err) (Results Out Err)
      → Pool S (Task In) (Outcome Out Err) (Results Out Err)
  before_close p = record p { waking = true }

  -- `r.cause.Store`
  unfoldable pub store_cause : Err → Results Out Err → Results Out Err
  store_cause e r = record r { cause = some e }

  abbrev pub retrievable : Scheme S (Task In) (Outcome Out Err) (Results Out Err) Err
  retrievable = record {
    config = record {
      max_pending = o.max_pending;
      parallel = o.parallel;
      disable_detached = o.disable_detached;
      done = do_end zero_out;
    };
    nest_options = record {
      shutdown_timeout = o.close_timeout;
      before_close = some before_close;
      after_close = none;
    };
    run_cause = λ e. wrap_canceled (some e);
    note = store_cause;
  }

  -- `NewRetrievableScheduler`, over a context that has ended if there is a cause.
  unfoldable pub new_retrievable : Option Err → Retrievable S In Out Err
  unfolding init
  new_retrievable parent = record {
    base = init t o.mode (record { cause = none; closed = false; rets = λ k. unsettled }) parent;
    dismissal = before;
    dismissed = [];
  }

  -- A step of `Push`, of `loop`, of `Run`, and of `Close`: those of the pool.
  abbrev pub push_call :
      Bool
      → Task In
      → PushPc Err
      → Pool S (Task In) (Outcome Out Err) (Results Out Err)
      → Pool S (Task In) (Outcome Out Err) (Results Out Err) × PushPc Err
  push_call = push_step t retrievable.config

  abbrev pub loop :
      Bool
      → Outcome Out Err
      → WorkPc (Task In)
      → Pool S (Task In) (Outcome Out Err) (Results Out Err)
      → Pool S (Task In) (Outcome Out Err) (Results Out Err) × WorkPc (Task In)
  loop = work_step t retrievable.config

  abbrev pub run_call :
      ℕ
      → RunPc Err
      → Option (Nest.State Err)
      → System S (Task In) (Outcome Out Err) (Results Out Err) Err
      → System S (Task In) (Outcome Out Err) (Results Out Err) Err
  run_call = run_step t retrievable

  abbrev pub close_call :
      ℕ
      → ClosePc Err
      → Option (Nest.State Err)
      → System S (Task In) (Outcome Out Err) (Results Out Err) Err
      → System S (Task In) (Outcome Out Err) (Results Out Err) Err
  close_call = close_step t retrievable

  -- `t, ok := r.tasks.Pop()` in `dismiss`.
  abbrev pub take : Err → Option (Task In × S) → Retrievable S In Out Err → Retrievable S In Out Err
  take e none s = record s { dismissal = over }
  take e (some (v, rest)) s = record s {
    base = record (s.base) {
      pool = record (s.base.pool) { tasks = rest; taken = s.base.pool.taken ++ v ∷ [] };
    };
    dismissal = counting e v;
  }

  -- One step of `dismiss(r.shutdownReason())`.
  unfoldable pub dismiss_step :
      Dismissal In Err → Retrievable S In Out Err → Retrievable S In Out Err
  unfolding failed store_cause
  dismiss_step before s = s
  dismiss_step reading s = record s {
    dismissal = elim (s.base.pool.world.cause) [ none ↦ asking | some e ↦ storing e ];
  }
  dismiss_step asking s = record s {
    dismissal = storing (wrap_canceled (parent_cause s.base.nest));
  }
  dismiss_step (storing e) s = record s {
    base = record (s.base) {
      pool = record (s.base.pool) { world = store_cause e s.base.pool.world };
    };
    dismissal = closing e;
  }
  dismiss_step (closing e) s = record s {
    base = record (s.base) {
      pool = record (s.base.pool) { world = record (s.base.pool.world) { closed = true } };
    };
    dismissal = popping e;
  }
  dismiss_step (popping e) s = take e (t.pop s.base.pool.tasks) s
  dismiss_step (counting e v) s = record s {
    base = record (s.base) {
      pool = record (s.base.pool) { pending = sub_one s.base.pool.pending };
    };
    dismissal = failing e v;
  }
  dismiss_step (failing e v) s = record s {
    base = record (s.base) {
      pool = record (s.base.pool) { world = failed zero_out v.ret e s.base.pool.world };
    };
    dismissal = popping e;
    dismissed = s.dismissed ++ v ∷ [];
  }
  dismiss_step over s = s

  -- The close of the nest waits at its hook until `dismiss` has returned.
  unfoldable pub pool_step :
      Event In (Outcome Out Err) Err → Retrievable S In Out Err → Retrievable S In Out Err
  pool_step e s =
      if is_advance e && is_opening s.base.nest && not (is_over s.dismissal)
      then record s { dismissal = begin s.dismissal }
      else record s { base = System.step t retrievable (as_task (length s.base.pushers) e) s.base }

  unfoldable pub step : Act In Out Err → Retrievable S In Out Err → Retrievable S In Out Err
  unfolding dismiss_step pool_step
  step dismiss s = dismiss_step s.dismissal s
  step (pool e) s = pool_step e s

  -- A history: what happens in its order.
  unfoldable pub history :
      List (Act In Out Err) → Retrievable S In Out Err → Retrievable S In Out Err
  history [] s = s
  history (a ∷ acts) s = history acts (step a s)
