-- ===== src/Orch/Pipe/Run.antt =====
-- pkg/orch/pipe/pipe.go: any number of calls of `Run` and `Close` on a pipeline that was built, over its
-- nest, whose hook calls `shutdown`, with the steps of `shutdown`; and `drive`. The test of the lifetime
-- in `Run` and the assignments of `closed` and `sche` after it are one step. The pumps of the stages are
-- goroutines of the nest.
pub mod Once
pub mod Shutting
pub mod Closing
use concx.Prelude.{
  ℕ, zero, suc, ◌+◌, Bool, true, false, not, ◌&&◌, Option, none, some, List, [], ◌∷◌, ◌++◌,
  if◌then◌else◌, get_elem?, set, or_else,
}
use concx.Prelude.Int.{ℤ}
use concx.Codex.{Codex, nest, nest_close_timeout, pipe, pipeline_canceled}
use concx.Nest
use concx.Orch.Pipe.Ticket
use concx.Orch.Pipe.Lifetime.{
  Lifetime, built, is_at, Running, unshut, is_over, begin_shutdown, shut_step, shutdown,
}

-- Where a call of `Run` stands.
pub data RunPc (Err : Type 0) : Type 0 where
  -- before `p.mtx.Lock()`
  entered : RunPc Err
  -- holding the mutex: before the test of the lifetime, before `nest.New`, before `p.nest.Spawn` with the
  -- pumps that are left, before `p.sche.Run`, before the compare-and-swap, before `p.mtx.Unlock()`
  testing making_nest : RunPc Err
  spawning : ℕ → RunPc Err
  starting marking unlocking : RunPc Err
  -- in `abort`: before `p.mtx.Unlock()`, before `p.nest.Cancel`, before `<-p.nest.Done()`
  aborting canceling awaiting : Err → RunPc Err
  -- has returned; has panicked, holding the mutex
  ran : Option Err → RunPc Err
  panicked : RunPc Err

-- Where a call of `Close` stands: before the compare-and-swap, in `p.shutdown`, before
-- `p.nest.Cancel` and `p.nest.Err()`, with the error of `shutdown`; returned; or panicked, with a nest
-- that `abort` has set to nil before `p.nest.Err()`.
pub data ClosePc (Err : Type 0) : Type 0 where
  begun shutting : ClosePc Err
  canceling joining : Option Err → ClosePc Err
  closed : Option Err → ClosePc Err
  crashed : ClosePc Err

-- `locked`: `p.mtx` is held. `parent` is the cause with which the context given to `Run` ended.
pub record Line (Err : Type 0) : Type 0 where
  pub pipeline : Running Err
  pub locked : Bool
  pub nest : Option (Nest.State Err)
  pub parent : Option Err
  pub runners : List (RunPc Err)
  pub closers : List (ClosePc Err)

pub data Event (Err : Type 0) : Type 0 where
  -- a call begins, or takes its next step; `p.sche.Run` returns the error
  run close : Event Err
  run_at : ℕ → Option Err → Event Err
  close_at : ℕ → Event Err
  -- the call that runs the function of `shutdown` takes its next step
  shutdown_step : Event Err
  -- an event of the nest, of its own or of its goroutines
  by_nest : Nest.Event Err → Event Err

abbrev pub is_advance : {Err : Type 0} → Nest.Event Err → Bool
is_advance Nest.advance = true
is_advance _ = false

module _ {Err : Type 0} ⦃x : Codex Err⦄ (timeout : ℤ) (stages : ℕ) where
  -- The hook before the close is `shutdown`, whose steps are below; it does nothing after them.
  abbrev pub nest_options : Nest.Options (Unit {0}) Err
  nest_options = record { shutdown_timeout = timeout; before_close = none; after_close = none }

  abbrev pub put_run : ℕ → RunPc Err → Line Err → Line Err
  put_run i r l = record l { runners = set l.runners i r }

  abbrev pub put_close : ℕ → ClosePc Err → Line Err → Line Err
  put_close i c l = record l { closers = set l.closers i c }

  -- What `p.nest.Spawn` returned, with the pumps that are left.
  abbrev pub spawned : ℕ → ℕ → Nest.State Err × Option Err → Line Err → Line Err
  spawned i m (n, none) l = put_run i (spawning m) (record l { nest = some n })
  spawned i m (n, some e) l = put_run i (aborting e) (record l { nest = some n })

  -- What `p.sche.Run` returned.
  abbrev pub started : Option Err → RunPc Err
  started none = marking
  started (some e) = aborting e

  unfoldable pub run_step :
      ℕ → Option Err → Option (RunPc Err) → Option (Nest.State Err) → Line Err → Line Err
  run_step i e (some entered) n l =
      if l.locked then l else put_run i testing (record l { locked = true })
  run_step i e (some testing) n l =
      if is_at l.pipeline.lifetime built
      then put_run i making_nest
          (record l { pipeline = record (l.pipeline) { is_closed = some false; sche = some 0 } })
      else put_run i panicked l
  run_step i e (some making_nest) n l =
      put_run i (spawning (suc stages)) (record l { nest = some (Nest.new l.parent) })
  run_step i e (some (spawning zero)) n l = put_run i starting l
  run_step i e (some (spawning (suc m))) (some n) l =
      if Nest.is_free n.phase then spawned i m (Nest.spawn_locked n) l else l
  run_step i e (some starting) n l = put_run i (started e) l
  run_step i e (some marking) n l =
      if is_at l.pipeline.lifetime built
      then put_run i unlocking
          (record l { pipeline = record (l.pipeline) { lifetime = Lifetime.running } })
      else put_run i panicked l
  run_step i e (some unlocking) n l = put_run i (ran none) (record l { locked = false })
  run_step i e (some (aborting c)) n l = put_run i (RunPc.canceling c) (record l { locked = false })
  run_step i e (some (RunPc.canceling c)) none l = put_run i (ran (some c)) l
  run_step i e (some (RunPc.canceling c)) (some n) l =
      if Nest.is_free n.phase
      then put_run i (awaiting c) (record l { nest = some (Nest.cancel_locked (some c) n) })
      else l
  run_step i e (some (awaiting c)) (some n) l =
      if n.done then put_run i (ran (some c)) (record l { nest = none }) else l
  run_step i e r n l = l

  -- The reason with which `Close` and the hook call `shutdown`.
  abbrev pub own_reason : Option Err
  own_reason = some (x.new (pipe pipeline_canceled))

  abbrev pub enter_shutdown : Line Err → Line Err
  enter_shutdown l = record l { pipeline = begin_shutdown own_reason l.pipeline.shut l.pipeline }

  -- `p.shutdown` in `Close`: what it returned, or else it has to begin or to wait.
  abbrev pub shut_call : ℕ → Option (Option Err) → Line Err → Line Err
  shut_call i none l = enter_shutdown l
  shut_call i (some e) l = put_close i (ClosePc.canceling e) l

  -- What `Close` returns for the error of the nest.
  abbrev pub timeout_only : Option Err → Option Err
  timeout_only e = if x.is_code e (nest nest_close_timeout) then e else none

  unfoldable pub close_step :
      ℕ → Option (ClosePc Err) → Option (Nest.State Err) → Line Err → Line Err
  close_step i (some begun) n l =
      if l.pipeline.stopping
      then put_close i (closed none) l
      else put_close i shutting (record l { pipeline = record (l.pipeline) { stopping = true } })
  close_step i (some shutting) n l = shut_call i (shutdown own_reason l.pipeline) l
  close_step i (some (ClosePc.canceling e)) none l = put_close i (closed none) l
  close_step i (some (ClosePc.canceling e)) (some n) l =
      if Nest.is_free n.phase
      then put_close i (joining e) (record l { nest = some (Nest.cancel_locked e n) })
      else l
  close_step i (some (joining e)) (some n) l =
      if n.done then put_close i (closed (timeout_only n.err)) l else l
  close_step i (some (joining e)) none l = put_close i crashed l
  close_step i c n l = l

  -- An event of the nest, whose close waits at its hook until `shutdown` has returned.
  unfoldable pub nest_step : Nest.Event Err → Option (Nest.State Err) → Line Err → Line Err
  nest_step e none l = l
  nest_step e (some n) l =
      if is_advance e && Nest.is_opening n.phase && not (is_over l.pipeline.shut)
      then enter_shutdown l
      else record l { nest = some (Nest.step nest_options e n tt).0 }

  unfoldable pub step : Event Err → Line Err → Line Err
  unfolding run_step close_step
  step run l = record l { runners = l.runners ++ entered ∷ [] }
  step close l = record l { closers = l.closers ++ begun ∷ [] }
  step (run_at i e) l = run_step i e (get_elem? l.runners i) l.nest l
  step (close_at i) l = close_step i (get_elem? l.closers i) l.nest l
  step shutdown_step l = record l { pipeline = shut_step l.pipeline.shut l.pipeline }
  step (by_nest e) l = nest_step e l.nest l

  unfoldable pub history : List (Event Err) → Line Err → Line Err
  history [] l = l
  history (e ∷ es) l = history es (step e l)

-- A built pipeline that nobody has called, with the channels to cancel.
unfoldable pub start : {Err : Type 0} → Option Err → List ℕ → Line Err
start parent cancels = record {
  pipeline = record {
    lifetime = built;
    stopping = false;
    shut = unshut;
    cause = none;
    is_closed = none;
    cancels = cancels;
    canceled = [];
    sche = none;
  };
  locked = false;
  nest = none;
  parent = parent;
  runners = [];
  closers = [];
}

-- Where a call of `drive` stands: before `p.origin.Send`, and in `tk.wait`.
pub data DrivePc (Tail Err : Type 0) : Type 0 where
  sending : DrivePc Tail Err
  waiting : Ticket.WaitPc Tail Err → DrivePc Tail Err

-- One step of `drive`, where its ticket and `closed` are as given.
unfoldable pub drive_step :
    {Tail Err : Type 0} ⦃x : Codex Err⦄
    → Tail
    → Ticket.Choice Err
    → DrivePc Tail Err
    → Ticket.Ticket Tail Err × Bool
    → DrivePc Tail Err
drive_step zero_tail c sending s = waiting Ticket.first
drive_step zero_tail c (waiting w) s = waiting (Ticket.wait_step zero_tail c w s)
