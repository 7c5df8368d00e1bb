-- ===== src/Schedx/Pool/System.antt =====
-- `Run` and `Close` of the two schedulers, and any number of goroutines that call `Push`, `Run` and
-- `Close`, over one pool and its nest.
use concx.Prelude.{
  ℕ, zero, suc, ◌≡◌, refl, Bool, true, false, Option, none, some, List, [], ◌∷◌, ◌++◌,
  if◌then◌else◌, get_elem?, set, or_else,
}
use concx.Prelude.Int.{pos, rounds}
use concx.Codex.{Codex, nest, nest_close_timeout, sched, scheduler_rerun, scheduler_canceled}
use concx.Nest
use concx.Schedx.Tasks.{Tasks, ScheduleMode}
use concx.Schedx.Pool.{
  Pool, PushPc, WorkPc, Config, entered, broadcasting, idle, leaving, push_step, work_step,
  broadcast,
}

-- A call of `Push`, of `Run`, of `Close`.
pub record Pusher (T Err : Type 0) : Type 0 where
  pub value : T
  pub at : PushPc Err

pub data RunPc (Err : Type 0) : Type 0 where
  -- before `s.running.CompareAndSwap(false, true)`
  starting : RunPc Err
  -- before `nest.New`
  making_nest : RunPc Err
  -- in the loop over `s.parallel`, with the rounds that are left
  spawning : ℕ → RunPc Err
  -- in the deferred function, with `err`: before what is noted down, before `s.nest.Cancel`, before
  -- `<-s.nest.Done()`
  failing : Err → RunPc Err
  refusing : Err → RunPc Err
  awaiting : Err → RunPc Err
  ran : Option Err → RunPc Err

pub data ClosePc (Err : Type 0) : Type 0 where
  -- before the test of `s.nest`, before `s.nest.Cancel`, before `s.nest.Err()`
  begun : ClosePc Err
  canceling : ClosePc Err
  joining : ClosePc Err
  closed : Option Err → ClosePc Err

-- What the two schedulers do differently: the options of the nest, the error with which a failed
-- `Run` cancels the nest, and what `Run` and `Close` note down before they cancel it.
pub record Scheme (S T E W Err : Type 0) : Type 0 where
  pub config : Config T E W
  pub nest_options : Nest.Options (Pool S T E W) Err
  pub run_cause : Err → Err
  pub note : Err → W → W

-- `nest` is none until `Run` has made one; `parent` is the cause with which the context given to
-- `Run` ended.
pub record System (S T E W Err : Type 0) : Type 0 where
  pub pool : Pool S T E W
  pub nest : Option (Nest.State Err)
  pub parent : Option Err
  pub pushers : List (Pusher T Err)
  pub workers : List (WorkPc T)
  pub runners : List (RunPc Err)
  pub closers : List (ClosePc Err)

pub data Event (T E Err : Type 0) : Type 0 where
  -- a call begins
  push : T → Event T E Err
  run : Event T E Err
  close : Event T E Err
  -- the goroutine at an index takes its next step; a job that ends there ends with the `E`
  push_at : ℕ → Event T E Err
  work_at : ℕ → E → Event T E Err
  run_at : ℕ → Event T E Err
  close_at : ℕ → Event T E Err
  -- the nest's own goroutines, and its timers
  advance timer deadline watch_inherited watch_dispatched : Event T E Err
  -- the context given to `Run` ends
  parent_done : Err → Event T E Err
  -- a round of the goroutine that broadcasts during the close
  wake : Event T E Err

abbrev pub nest_canceled : {Err : Type 0} → Option (Nest.State Err) → Bool
nest_canceled none = false
nest_canceled (some n) = n.canceled

-- The nest's close is before its hook.
abbrev pub is_opening : {Err : Type 0} → Option (Nest.State Err) → Bool
is_opening none = false
is_opening (some n) = Nest.is_opening n.phase

abbrev pub with_nest :
    {Err : Type 0}
    → (Nest.State Err → Nest.State Err)
    → Option (Nest.State Err)
    → Option (Nest.State Err)
with_nest f none = none
with_nest f (some n) = some (f n)

abbrev pub is_broadcasting : {Err : Type 0} → PushPc Err → Bool
is_broadcasting broadcasting = true
is_broadcasting _ = false

abbrev pub is_leaving : {T : Type 0} → WorkPc T → Bool
is_leaving leaving = true
is_leaving _ = false

-- A scheduler that nobody has called yet, over a context that has ended if there is a cause.
unfoldable pub init :
    {S T E W Err : Type 0} → Tasks S T → ScheduleMode → W → Option Err → System S T E W Err
init t mode w parent = record {
  pool = record {
    tasks = t.new mode;
    pending = pos 0;
    running = false;
    locked = false;
    waking = false;
    world = w;
    appended = [];
    taken = [];
    finished = [];
  };
  nest = none;
  parent = parent;
  pushers = [];
  workers = [];
  runners = [];
  closers = [];
}

module _ {S T E W Err : Type 0} ⦃x : Codex Err⦄ (t : Tasks S T) (k : Scheme S T E W Err) where
  -- A step of a call of `Push`.
  abbrev pub put_pusher :
      System S T E W Err → ℕ → Pusher T Err → Pool S T E W × PushPc Err → System S T E W Err
  put_pusher s i c (p, at) = record s {
    pool = p;
    pushers = set s.pushers i (record c { at = at });
    workers = if is_broadcasting c.at then broadcast s.workers else s.workers;
  }

  unfoldable pub push_at_step : ℕ → Option (Pusher T Err) → System S T E W Err → System S T E W Err
  push_at_step i none s = s
  push_at_step i (some c) s =
      put_pusher s i c (push_step t k.config (nest_canceled s.nest) c.value c.at s.pool)

  -- A step of a worker. One that returns is a goroutine less in the nest.
  abbrev pub put_worker :
      System S T E W Err → ℕ → WorkPc T → Pool S T E W × WorkPc T → System S T E W Err
  put_worker s i w (p, w') = record s {
    pool = p;
    workers = set s.workers i w';
    nest = if is_leaving w then with_nest Nest.wg_done s.nest else s.nest;
  }

  unfoldable pub work_at_step : ℕ → E → Option (WorkPc T) → System S T E W Err → System S T E W Err
  work_at_step i e none s = s
  work_at_step i e (some w) s =
      put_worker s i w (work_step t k.config (nest_canceled s.nest) e w s.pool)

  -- The loop of `Run`: what `s.nest.Spawn` returned, with the rounds that are left.
  abbrev pub spawned : System S T E W Err → ℕ → ℕ → Nest.State Err × Option Err → System S T E W Err
  spawned s i n (m, none) = record s {
    nest = some m;
    workers = s.workers ++ idle ∷ [];
    runners = set s.runners i (spawning n);
  }
  spawned s i n (m, some e) = record s { nest = some m; runners = set s.runners i (failing e) }

  unfoldable pub run_step :
      ℕ → RunPc Err → Option (Nest.State Err) → System S T E W Err → System S T E W Err
  run_step i starting n s =
      if s.pool.running
      then record s { runners = set s.runners i (ran (some (x.new (sched scheduler_rerun)))) }
      else record s {
        pool = record (s.pool) { running = true };
        runners = set s.runners i making_nest;
      }
  run_step i making_nest n s = record s {
    nest = some (Nest.new s.parent);
    runners = set s.runners i (spawning (rounds k.config.parallel));
  }
  run_step i (spawning zero) n s = record s { runners = set s.runners i (ran none) }
  run_step i (spawning (suc m)) (some n) s =
      if Nest.is_free n.phase then spawned s i m (Nest.spawn_locked n) else s
  run_step i (failing e) n s = record s {
    pool = record (s.pool) { world = k.note (k.run_cause e) s.pool.world };
    runners = set s.runners i (refusing e);
  }
  run_step i (refusing e) (some n) s =
      if Nest.is_free n.phase
      then record s {
        nest = some (Nest.cancel_locked (some (k.run_cause e)) n);
        runners = set s.runners i (awaiting e);
      }
      else s
  run_step i (awaiting e) (some n) s =
      if n.done then record s { runners = set s.runners i (ran (some e)) } else s
  run_step i r n s = s

  unfoldable pub run_at_step : ℕ → Option (RunPc Err) → System S T E W Err → System S T E W Err
  unfolding run_step
  run_at_step i none s = s
  run_at_step i (some r) s = run_step i r s.nest s

  -- What `Close` returns for the error of the nest.
  abbrev pub timeout_only : Option Err → Option Err
  timeout_only e = if x.is_code e (nest nest_close_timeout) then e else none

  unfoldable pub close_step :
      ℕ → ClosePc Err → Option (Nest.State Err) → System S T E W Err → System S T E W Err
  close_step i begun none s = record s { closers = set s.closers i (closed none) }
  close_step i begun (some n) s = record s {
    pool = record (s.pool) { world = k.note (x.new (sched scheduler_canceled)) s.pool.world };
    closers = set s.closers i canceling;
  }
  close_step i canceling (some n) s =
      if Nest.is_free n.phase
      then record s {
        nest = some (Nest.cancel_locked (some (x.new (sched scheduler_canceled))) n);
        closers = set s.closers i joining;
      }
      else s
  close_step i joining (some n) s =
      if n.done then record s { closers = set s.closers i (closed (timeout_only n.err)) } else s
  close_step i c n s = s

  unfoldable pub close_at_step : ℕ → Option (ClosePc Err) → System S T E W Err → System S T E W Err
  unfolding close_step
  close_at_step i none s = s
  close_at_step i (some c) s = close_step i c s.nest s

  -- An event of the nest itself, with its hooks at work on the pool.
  unfoldable pub nest_step :
      Nest.Event Err → Option (Nest.State Err) → System S T E W Err → System S T E W Err
  nest_step e none s = s
  nest_step e (some n) s =
      let (m, p) = Nest.step k.nest_options e n s.pool in record s { nest = some m; pool = p }

  -- The goroutine started before the close broadcasts until the context that it got is done.
  unfoldable pub wake_step :
      Bool → Option (Nest.State Err) → System S T E W Err → System S T E W Err
  wake_step true (some n) s =
      if n.close_ctx_done then s else record s { workers = broadcast s.workers }
  wake_step _ _ s = s

  unfoldable pub step : Event T E Err → System S T E W Err → System S T E W Err
  step (push v) s = record s { pushers = s.pushers ++ record { value = v; at = entered } ∷ [] }
  step run s = record s { runners = s.runners ++ starting ∷ [] }
  step close s = record s { closers = s.closers ++ begun ∷ [] }
  step (push_at i) s = push_at_step i (get_elem? s.pushers i) s
  step (work_at i e) s = work_at_step i e (get_elem? s.workers i) s
  step (run_at i) s = run_at_step i (get_elem? s.runners i) s
  step (close_at i) s = close_at_step i (get_elem? s.closers i) s
  step advance s = nest_step Nest.advance s.nest s
  step timer s = nest_step Nest.timer s.nest s
  step deadline s = nest_step Nest.deadline s.nest s
  step watch_inherited s = nest_step Nest.watch_inherited s.nest s
  step watch_dispatched s = nest_step Nest.watch_dispatched s.nest s
  step (parent_done c) s =
      nest_step (Nest.parent_done c) s.nest (record s { parent = some (or_else s.parent c) })
  step wake s = wake_step s.pool.waking s.nest s

  -- A history: the events in their order.
  unfoldable pub history : List (Event T E Err) → System S T E W Err → System S T E W Err
  history [] s = s
  history (e ∷ es) s = history es (step e s)

  pub history-append :
      (xs bs : List (Event T E Err)) (s : System S T E W Err)
      → history (xs ++ bs) s ≡ history bs (history xs s)
  unfolding history
  history-append [] bs s = refl
  history-append (e ∷ xs) bs s = history-append xs bs (step e s)
