-- ===== src/Nest.antt =====
-- pkg/nest/nest.go: a nest of goroutines with one lifetime.
--
-- The goroutines that share a nest are interleaved by events: an event is one atomic step of one of
-- them, and a step that has to wait leaves the state as it is. `Env` is what the two hooks work on,
-- the state of the nest's owner.
pub mod Invariant
pub mod Closing
pub mod Hooks
pub mod Progress
pub mod Owner
pub mod Past
mod Tests
use concx.Prelude.{
  ℕ, ◌+◌, ◌-◌, Bool, true, false, Option, none, some, List, [], ◌∷◌, if◌then◌else◌, or_else, ◌==◌,
  not, ◌&&◌,
}
use concx.Prelude.Int.{ℤ, pos, is_positive}
use concx.Codex.{Codex, nest, nest_closed, nest_close_timeout, join_errors}

-- `option`: a hook that is nil is `none`. A hook before the close gets the owner's state; a hook
-- after it gets the error of the close too, and returns an error of its own.
pub record Options (Env Err : Type 0) : Type 0 where
  pub shutdown_timeout : ℤ
  pub before_close : Option (Env → Env)
  pub after_close : Option (Option Err → Env → Env × Option Err)

-- What `new` gives before any applier.
abbrev pub no_options : {Env Err : Type 0} → Options Env Err
no_options = record { shutdown_timeout = pos 0; before_close = none; after_close = none }

module _ {Env Err : Type 0} where
  pub with_shutdown_timeout : ℤ → Options Env Err → Options Env Err
  with_shutdown_timeout timeout o = record o { shutdown_timeout = timeout }

  pub with_before_close_func : (Env → Env) → Options Env Err → Options Env Err
  with_before_close_func f o = record o { before_close = some f }

  pub with_after_close_func :
      (Option Err → Env → Env × Option Err) → Options Env Err → Options Env Err
  with_after_close_func f o = record o { after_close = some f }

-- How far the call of `Cancel` that holds the mutex has come. `free`: nobody holds it.
pub data Phase (Err : Type 0) : Type 0 where
  free : Phase Err
  -- before `beforeCloseFunc`, with the cause that `Cancel` was given
  opening : Option Err → Phase Err
  -- before `x.cancel(cause)`
  cutting : Option Err → Phase Err
  -- in the wait for the goroutines
  waiting : Option Err → Phase Err
  -- in the deferred function, with `err` and the cause
  leaving : Option Err → Option Err → Phase Err
  -- before `afterCloseFunc`
  after : Phase Err
  -- before `close(x.done)`
  closing : Phase Err

-- The fields of `nest`, and what its contexts know: `inherited` and `dispatched` are the causes with
-- which the two contexts ended, `close_ctx_done` says that the context given to `beforeCloseFunc`
-- has ended, and `live` counts what `wg` waits for.
pub record State (Err : Type 0) : Type 0 where
  pub inherited : Option Err
  pub dispatched : Option Err
  pub live : ℕ
  pub canceled : Bool
  pub phase : Phase Err
  pub close_ctx_done : Bool
  pub err : Option Err
  pub done : Bool

pub data Event (Err : Type 0) : Type 0 where
  -- a goroutine calls `Spawn`, or `Cancel` with a cause, and gets the mutex
  spawn : Event Err
  cancel : Option Err → Event Err
  -- a spawned goroutine returns
  exit : Event Err
  -- the running `Cancel` takes its next step; its timer fires
  advance : Event Err
  timer : Event Err
  -- the context of `beforeCloseFunc` meets its own deadline
  deadline : Event Err
  -- the inherited context ends with a cause
  parent_done : Err → Event Err
  -- the goroutine of `New` sees that the inherited context has ended, or the dispatched one
  watch_inherited : Event Err
  watch_dispatched : Event Err

abbrev pub is_free : {Err : Type 0} → Phase Err → Bool
is_free free = true
is_free _ = false

-- `Cancel` is before its hook.
abbrev pub is_opening : {Err : Type 0} → Phase Err → Bool
is_opening (opening c) = true
is_opening _ = false

module _ {Err : Type 0} where
  -- `New`, over a context that has ended if there is a cause.
  unfoldable pub new : Option Err → State Err
  new cause = record {
    inherited = cause;
    dispatched = cause;
    live = 0;
    canceled = false;
    phase = free;
    close_ctx_done = false;
    err = none;
    done = false;
  }

  -- `Err` waits until `Done` is closed: `none` while it has to wait.
  unfoldable pub wait_err : State Err → Option (Option Err)
  wait_err s = if s.done then some s.err else none

  -- `Cancel`, once it has the mutex.
  unfoldable pub cancel_locked : Option Err → State Err → State Err
  cancel_locked cause s =
      if s.canceled then s else record s { canceled = true; phase = opening cause }

  -- A goroutine of `wg.Go` returns.
  unfoldable pub wg_done : State Err → State Err
  wg_done s = record s { live = s.live - 1 }

  -- The inherited context ends, and the dispatched one with it.
  unfoldable pub end_parent : Err → State Err → State Err
  end_parent cause s = record s {
    inherited = some (or_else s.inherited cause);
    dispatched = some (or_else s.dispatched (or_else s.inherited cause));
  }

  -- The goroutine of `New`: `Cancel` with the cause with which a context ended.
  unfoldable pub watch : Option Err → State Err → State Err
  unfolding cancel_locked
  watch none s = s
  watch (some cause) s = if is_free s.phase then cancel_locked (some cause) s else s

module _ {Err : Type 0} ⦃x : Codex Err⦄ where
  -- `Spawn`, once it has the mutex: the state after, and what it returns.
  unfoldable pub spawn_locked : State Err → State Err × Option Err
  spawn_locked s =
      if s.canceled
      then (s, some (x.new (nest nest_closed)))
      else (record s { live = s.live + 1 }, none)

  -- `x.cancel(cause)`: a context keeps its first cause, and a nil cause is `context.Canceled`.
  abbrev cut : Option Err → Option Err → Option Err
  cut (some e) cause = some e
  cut none cause = some (or_else cause x.context_canceled)

abbrev pub run_before : {Env : Type 0} → Option (Env → Env) → Env → Env
run_before none env = env
run_before (some f) env = f env

module _ {Env Err : Type 0} ⦃x : Codex Err⦄ where
  run_after : Option (Option Err → Env → Env × Option Err) → State Err → Env → State Err × Env
  run_after none s env = (record s { phase = closing }, env)
  run_after (some f) s env =
      let (env', e) = f s.err env in (record s { phase = closing; err = join_errors s.err e }, env')

  -- The next step of the call of `Cancel` that won the compare-and-swap.
  advance_phase : Options Env Err → Phase Err → State Err → Env → State Err × Env
  unfolding run_after
  advance_phase o free s env = (s, env)
  advance_phase o (opening cause) s env =
      (record s { phase = cutting cause }, run_before o.before_close env)
  advance_phase o (cutting cause) s env =
      (record s { phase = waiting cause; dispatched = cut s.dispatched cause }, env)
  advance_phase o (waiting cause) s env =
      (if s.live == 0 then record s { phase = leaving none cause } else s, env)
  advance_phase o (leaving e cause) s env =
      (record s { phase = after; close_ctx_done = true; err = join_errors e cause }, env)
  advance_phase o after s env = run_after o.after_close s env
  advance_phase o closing s env = (record s { phase = free; done = true }, env)

  unfoldable pub advance_close : Options Env Err → State Err → Env → State Err × Env
  unfolding advance_phase
  advance_close o s env = advance_phase o s.phase s env

  -- `case <-time.After(x.shutdownTimeout)`
  fire : Options Env Err → Phase Err → State Err → State Err
  fire o (waiting cause) s =
      if is_positive o.shutdown_timeout
      then record s { phase = leaving (some (x.new (nest nest_close_timeout))) cause }
      else s
  fire o _ s = s

  -- One event, where what has to wait changes nothing.
  unfoldable pub step : Options Env Err → Event Err → State Err → Env → State Err × Env
  unfolding fire wg_done
  step o spawn s env = (if is_free s.phase then (spawn_locked s).0 else s, env)
  step o (cancel cause) s env = (if is_free s.phase then cancel_locked cause s else s, env)
  step o exit s env = (wg_done s, env)
  step o advance s env = advance_close o s env
  step o timer s env = (fire o s.phase s, env)
  step o deadline s env = (
    if is_positive o.shutdown_timeout && not (is_free s.phase)
        then record s { close_ctx_done = true }
        else s,
    env,
  )
  step o (parent_done cause) s env = (end_parent cause s, env)
  step o watch_inherited s env = (watch s.inherited s, env)
  step o watch_dispatched s env = (watch s.dispatched s, env)

  -- A history.
  unfoldable pub run : Options Env Err → List (Event Err) → State Err → Env → State Err × Env
  run o [] s env = (s, env)
  run o (e ∷ es) s env = let (s', env') = step o e s env in run o es s' env'
