-- ===== src/Schedx/Retrievable/Result.antt =====
-- `result` of pkg/schedx/retrievable_scheduler.go: what `Push` returns. Any number of goroutines
-- call `finish` and `Result` on it, while the scheduler notes down a cause and closes.
pub mod Laws
use concx.Prelude.{Bool, true, false, Option, none, some, List, [], ◌∷◌, or_else, if◌then◌else◌}
use concx.Codex.{Codex, sched, scheduler_canceled}

-- Where the function that `once.Do` runs stands: not begun, after the assignment to `out` and `err`
-- and before `close(r.done)`, and after it.
pub data Once (Out Err : Type 0) : Type 0 where
  unsettled : Once Out Err
  assigned : Out → Option Err → Once Out Err
  settled : Out → Option Err → Once Out Err

-- `closed`: the channel `closed` is. `cause` is what the atomic value holds.
pub record Shared (Out Err : Type 0) : Type 0 where
  pub once : Once Out Err
  pub closed : Bool
  pub cause : Option Err

pub data Event (Out Err : Type 0) : Type 0 where
  -- a call of `finish` gets to `once.Do`: it waits for one that has begun, or makes its choice
  finish : Out → Option Err → Event Out Err
  -- `close(r.done)`
  publish : Event Out Err
  -- the scheduler's `cause.Store` and `close(r.closed)`
  store : Err → Event Out Err
  close : Event Out Err

-- Where a call of `Result` stands: before its first `select`, in the second, and past `r.closed`.
pub data WaitPc (Out Err : Type 0) : Type 0 where
  first : WaitPc Out Err
  second : WaitPc Out Err
  saw_closed : WaitPc Out Err
  got : Out → Option Err → WaitPc Out Err

-- The case that `select` takes where several are ready.
pub data Choice (Err : Type 0) : Type 0 where
  -- `ctx.Done()`, with `ctx.Err()`
  by_context : Err → Choice Err
  by_done : Choice Err
  by_closed : Choice Err

-- An event, or a step of the call of `Result` that is watched.
pub data Action (Out Err : Type 0) : Type 0 where
  happens : Event Out Err → Action Out Err
  waits : Choice Err → Action Out Err

module _ {Out Err : Type 0} ⦃x : Codex Err⦄ (zero_out : Out) where
  abbrev pub reason : Option Err → Err
  reason cause = or_else cause (x.new (sched scheduler_canceled))

  -- The `select` of `finish`.
  abbrev pub choose : Out → Option Err → Shared Out Err → Once Out Err
  choose out err s =
      if s.closed then assigned zero_out (some (reason s.cause)) else assigned out err

  abbrev pub begin : Once Out Err → Once Out Err → Once Out Err
  begin unsettled o = o
  begin o _ = o

  abbrev pub published : Once Out Err → Once Out Err
  published (assigned out err) = settled out err
  published o = o

  unfoldable pub step : Event Out Err → Shared Out Err → Shared Out Err
  step (finish out err) s = record s { once = begin s.once (choose out err s) }
  step publish s = record s { once = published s.once }
  step (store e) s = record s { cause = some e }
  step close s = record s { closed = true }

  unfoldable pub run : List (Event Out Err) → Shared Out Err → Shared Out Err
  run [] s = s
  run (e ∷ es) s = run es (step e s)

  -- One step of a call of `Result`. A case that is not ready is not taken.
  abbrev pub after_done : Once Out Err → WaitPc Out Err → WaitPc Out Err
  after_done (settled out err) w = got out err
  after_done o w = w

  unfoldable pub wait_step : Choice Err → WaitPc Out Err → Shared Out Err → WaitPc Out Err
  wait_step c first s = after_done s.once second
  wait_step (by_context e) second s = got zero_out (some e)
  wait_step by_done second s = after_done s.once second
  wait_step by_closed second s = if s.closed then saw_closed else second
  wait_step c saw_closed s = after_done s.once (got zero_out (some (reason s.cause)))
  wait_step c (got out err) s = got out err

  -- A history with one call of `Result`, which other goroutines interleave with.
  unfoldable pub play : List (Action Out Err) → Shared Out Err → WaitPc Out Err → WaitPc Out Err
  play [] s w = w
  play (happens e ∷ acts) s w = play acts (step e s) w
  play (waits c ∷ acts) s w = play acts s (wait_step c w s)
