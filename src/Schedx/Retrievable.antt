-- ===== src/Schedx/Retrievable.antt =====
-- pkg/schedx/retrievable_scheduler.go and its part of pkg/schedx/option.go: the options, and the
-- result that a caller of `Push` waits for (Result).
pub mod Settings
pub mod Result
pub mod System
mod Tests
use concx.Prelude.{Bool, true, false, List}
use concx.Prelude.Int.{ℤ, pos, negsuc, min_ℤ}
use concx.Schedx.Tasks.{ScheduleMode, fifo, lifo}
use concx.Schedx.Options.{max_parallel, three_seconds, or_default, apply}

-- `retrievableOption`
pub record RetrievableOptions : Type 0 where
  pub max_pending : ℤ
  pub parallel : ℤ
  pub close_timeout : ℤ
  pub disable_detached : Bool
  pub mode : ScheduleMode

-- Its zero value.
abbrev pub zero_retrievable : RetrievableOptions
zero_retrievable = record {
  max_pending = pos 0;
  parallel = pos 0;
  close_timeout = pos 0;
  disable_detached = false;
  mode = fifo;
}

unfoldable pub set_retrievable_default : RetrievableOptions → RetrievableOptions
set_retrievable_default o = record o {
  max_pending = or_default o.max_pending (pos 1);
  parallel = or_default o.parallel (pos 1);
  close_timeout = or_default o.close_timeout three_seconds;
}

unfoldable pub with_retrievable_max_pending : ℤ → RetrievableOptions → RetrievableOptions
with_retrievable_max_pending n o = record o { max_pending = n }

unfoldable pub without_retrievable_pending_limitation : RetrievableOptions → RetrievableOptions
without_retrievable_pending_limitation o = record o { max_pending = negsuc 0 }

unfoldable pub with_retrievable_parallel : ℤ → RetrievableOptions → RetrievableOptions
with_retrievable_parallel n o = record o { parallel = min_ℤ n max_parallel }

unfoldable pub with_retrievable_fifo_schedule_mode : RetrievableOptions → RetrievableOptions
with_retrievable_fifo_schedule_mode o = record o { mode = fifo }

unfoldable pub with_retrievable_lifo_schedule_mode : RetrievableOptions → RetrievableOptions
with_retrievable_lifo_schedule_mode o = record o { mode = lifo }

unfoldable pub with_retrievable_close_timeout : ℤ → RetrievableOptions → RetrievableOptions
with_retrievable_close_timeout d o = record o { close_timeout = d }

unfoldable pub without_retrievable_detached : RetrievableOptions → RetrievableOptions
without_retrievable_detached o = record o { disable_detached = true }

-- What `NewRetrievableScheduler` makes of its appliers.
unfoldable pub configure_retrievable :
    List (RetrievableOptions → RetrievableOptions) → RetrievableOptions
unfolding set_retrievable_default
configure_retrievable appliers = apply appliers (set_retrievable_default zero_retrievable)
