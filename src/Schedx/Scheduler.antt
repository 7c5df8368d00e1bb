-- ===== src/Schedx/Scheduler.antt =====
-- pkg/schedx/scheduler.go: the fire-and-forget scheduler, as the pool with its own end of a job and
-- its own hooks of the nest.
pub mod Pending
pub mod Wakeup
pub mod Order
pub mod Workers
pub mod Exit
mod Tests
use concx.Prelude.{Bool, true, false, Option, none, some, List, if◌then◌else◌}
use concx.Codex.{Codex, Panic, error, other, sched, scheduler_job_panicked}
use concx.Nest
use concx.Schedx.Tasks.{Tasks}
use concx.Schedx.Options.{Options, configure}
use concx.Schedx.Canceled.{wrap_canceled}
use concx.Schedx.Pool.{Pool, Config}
use concx.Schedx.Pool.System.{Scheme, System, init}

-- `exitCbCalled`, and the state that the user's callbacks work on.
pub record Exits (W : Type 0) : Type 0 where
  pub exit_cb_called : Bool
  pub user : W

-- How the user's job ends.
pub data Outcome (Err : Type 0) : Type 0 where
  returns : Option Err → Outcome Err
  panics : Panic Err → Outcome Err

module _ {Err : Type 0} ⦃x : Codex Err⦄ where
  -- The `err` of `do` after its deferred function has recovered.
  unfoldable pub outcome_err : Outcome Err → Option Err
  outcome_err (returns e) = e
  outcome_err (panics (error e)) = some (x.wrap (sched scheduler_job_panicked) e)
  outcome_err (panics other) = some (x.errorf (sched scheduler_job_panicked))

abbrev pub apply_callback :
    {T Err W : Type 0} → Option (T → Option Err → W → W) → T → Option Err → W → W
apply_callback none v e w = w
apply_callback (some f) v e w = f v e w

module _ {S T Err W : Type 0} ⦃x : Codex Err⦄ (t : Tasks S T) (o : Options T Err W) where
  -- The end of `do`: the callback, if there is one, gets the value and the error.
  unfoldable pub do_end : T → Outcome Err → Exits W → Exits W
  unfolding outcome_err
  do_end v out w = record w { user = apply_callback o.callback v (outcome_err out) w.user }

  -- `scheExitCallback`, which `NewScheduler` makes of the user's callback.
  unfoldable pub sche_exit_callback : Option (List T → Err → W → W) → Err → S → Exits W → Exits W
  sche_exit_callback none reason tasks w = w
  sche_exit_callback (some cb) reason tasks w = record w { user = cb (t.range tasks) reason w.user }

  -- The hooks that `Run` gives to the nest.
  unfoldable pub before_close : Pool S T (Outcome Err) (Exits W) → Pool S T (Outcome Err) (Exits W)
  before_close p = record p { waking = true }

  unfoldable pub after_close :
      Option Err → Pool S T (Outcome Err) (Exits W) → Pool S T (Outcome Err) (Exits W) × Option Err
  unfolding sche_exit_callback
  after_close cause p = (
    if p.world.exit_cb_called then p else record p {
      world =
          sche_exit_callback o.user_exit_callback (wrap_canceled cause) p.tasks
            (record (p.world) { exit_cb_called = true });
    },
    none,
  )

  abbrev pub nest_options : Nest.Options (Pool S T (Outcome Err) (Exits W)) Err
  nest_options = record {
    shutdown_timeout = o.close_timeout;
    before_close = some before_close;
    after_close = some after_close;
  }

  abbrev pub scheduler : Scheme S T (Outcome Err) (Exits W) Err
  scheduler = record {
    config = record {
      max_pending = o.max_pending;
      parallel = o.parallel;
      disable_detached = o.disable_detached;
      done = do_end;
    };
    nest_options = nest_options;
    run_cause = λ e. e;
    note = λ _ w. w;
  }

  -- `NewScheduler`, over a context that has ended if there is a cause.
  unfoldable pub new_scheduler : W → Option Err → System S T (Outcome Err) (Exits W) Err
  unfolding init
  new_scheduler w parent = init t o.mode (record { exit_cb_called = false; user = w }) parent
