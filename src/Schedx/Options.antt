-- ===== src/Schedx/Options.antt =====
-- pkg/schedx/option.go: the options of the two schedulers.
pub mod Settings
mod Tests
use concx.Prelude.{Bool, true, false, Option, none, some, List, [], ◌∷◌, if◌then◌else◌}
use concx.Prelude.Int.{ℤ, pos, negsuc, is_zero, min_ℤ}
use concx.Schedx.Tasks.{ScheduleMode, fifo, lifo}

-- `MaxParallel`, and `3 * time.Second` in nanoseconds
abbrev pub max_parallel : ℤ
max_parallel = pos 10000

abbrev pub three_seconds : ℤ
three_seconds = pos 3000000000

-- `option`. A callback works on `W`, the state of the program that uses the scheduler. Here
-- `exitCbCalled` is left out: it is a flag of the running scheduler and stands in `Scheduler.Exits`.
-- `scheExitCallback` is set by `NewScheduler` and stands there.
pub record Options (T Err W : Type 0) : Type 0 where
  pub max_pending : ℤ
  pub parallel : ℤ
  pub callback : Option (T → Option Err → W → W)
  pub user_exit_callback : Option (List T → Err → W → W)
  pub close_timeout : ℤ
  pub disable_detached : Bool
  pub mode : ScheduleMode

abbrev pub or_default : ℤ → ℤ → ℤ
or_default n d = if is_zero n then d else n

-- The loop over the appliers, of options of any kind.
unfoldable pub apply : {O : Type 0} → List (O → O) → O → O
apply [] o = o
apply (f ∷ fs) o = apply fs (f o)

module _ {T Err W : Type 0} where
  -- The zero value of `option`.
  abbrev pub zero_options : Options T Err W
  zero_options = record {
    max_pending = pos 0;
    parallel = pos 0;
    callback = none;
    user_exit_callback = none;
    close_timeout = pos 0;
    disable_detached = false;
    mode = fifo;
  }

  unfoldable pub set_default : Options T Err W → Options T Err W
  set_default o = record o {
    max_pending = or_default o.max_pending (pos 1);
    parallel = or_default o.parallel (pos 1);
    close_timeout = or_default o.close_timeout three_seconds;
  }

  unfoldable pub with_max_pending : ℤ → Options T Err W → Options T Err W
  with_max_pending n o = record o { max_pending = n }

  unfoldable pub with_parallel : ℤ → Options T Err W → Options T Err W
  with_parallel n o = record o { parallel = min_ℤ n max_parallel }

  unfoldable pub without_pending_limitation : Options T Err W → Options T Err W
  without_pending_limitation o = record o { max_pending = negsuc 0 }

  unfoldable pub with_callback : (T → Option Err → W → W) → Options T Err W → Options T Err W
  with_callback f o = record o { callback = some f }

  unfoldable pub with_exit_callback : (List T → Err → W → W) → Options T Err W → Options T Err W
  with_exit_callback f o = record o { user_exit_callback = some f }

  unfoldable pub with_fifo_schedule_mode : Options T Err W → Options T Err W
  with_fifo_schedule_mode o = record o { mode = fifo }

  unfoldable pub with_lifo_schedule_mode : Options T Err W → Options T Err W
  with_lifo_schedule_mode o = record o { mode = lifo }

  unfoldable pub with_close_timeout : ℤ → Options T Err W → Options T Err W
  with_close_timeout du o = record o { close_timeout = du }

  unfoldable pub without_detached : Options T Err W → Options T Err W
  without_detached o = record o { disable_detached = true }

  -- What `NewScheduler` makes of its appliers.
  unfoldable pub configure : List (Options T Err W → Options T Err W) → Options T Err W
  unfolding set_default apply
  configure appliers = apply appliers (set_default zero_options)
