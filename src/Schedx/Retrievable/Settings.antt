-- ===== src/Schedx/Retrievable/Settings.antt =====
-- pkg/schedx/option.go: what a list of settings of a retrievable scheduler comes to.
use concx.Prelude.{◌≡◌, refl, Bool, true, false, Option, none, some, List, map, last_or, or_else}
use concx.Prelude.Int.{ℤ, pos, negsuc, min_ℤ}
use concx.Schedx.Tasks.{ScheduleMode, fifo, lifo}
use concx.Schedx.Options.{max_parallel, three_seconds}
use concx.Schedx.Options.Settings.{apply_last}
use concx.Schedx.Retrievable.{
  RetrievableOptions, set_retrievable_default, with_retrievable_max_pending,
  without_retrievable_pending_limitation, with_retrievable_parallel,
  with_retrievable_fifo_schedule_mode, with_retrievable_lifo_schedule_mode,
  with_retrievable_close_timeout, without_retrievable_detached, configure_retrievable,
}

-- A call of one of the functions that make an option.
pub data Setting : Type 0 where
  max_pending parallel close_timeout : ℤ → Setting
  unlimited fifo_mode lifo_mode undetached : Setting

abbrev pub applier : Setting → RetrievableOptions → RetrievableOptions
applier (max_pending n) = with_retrievable_max_pending n
applier (parallel n) = with_retrievable_parallel n
applier (close_timeout n) = with_retrievable_close_timeout n
applier unlimited = without_retrievable_pending_limitation
applier fifo_mode = with_retrievable_fifo_schedule_mode
applier lifo_mode = with_retrievable_lifo_schedule_mode
applier undetached = without_retrievable_detached

-- What a setting says of each option.
abbrev pub pending_of : Setting → Option ℤ
pending_of (max_pending n) = some n
pending_of unlimited = some (negsuc 0)
pending_of _ = none

abbrev pub parallel_of : Setting → Option ℤ
parallel_of (parallel n) = some (min_ℤ n max_parallel)
parallel_of _ = none

abbrev pub timeout_of : Setting → Option ℤ
timeout_of (close_timeout n) = some n
timeout_of _ = none

abbrev pub mode_of : Setting → Option ScheduleMode
mode_of fifo_mode = some fifo
mode_of lifo_mode = some lifo
mode_of _ = none

abbrev pub undetached_of : Setting → Option Bool
undetached_of undetached = some true
undetached_of _ = none

applier-lem :
    (a : Setting) (o : RetrievableOptions)
    → let o' = applier a o in
      (o'.max_pending ≡ or_else (pending_of a) o.max_pending)
      × (o'.parallel ≡ or_else (parallel_of a) o.parallel)
      × (o'.close_timeout ≡ or_else (timeout_of a) o.close_timeout)
      × (o'.mode ≡ or_else (mode_of a) o.mode)
      × (o'.disable_detached ≡ or_else (undetached_of a) o.disable_detached)
unfolding with_retrievable_max_pending without_retrievable_pending_limitation
    with_retrievable_parallel with_retrievable_fifo_schedule_mode
    with_retrievable_lifo_schedule_mode with_retrievable_close_timeout without_retrievable_detached
applier-lem (max_pending n) o = (refl, refl, refl, refl, refl)
applier-lem (parallel n) o = (refl, refl, refl, refl, refl)
applier-lem (close_timeout n) o = (refl, refl, refl, refl, refl)
applier-lem unlimited o = (refl, refl, refl, refl, refl)
applier-lem fifo_mode o = (refl, refl, refl, refl, refl)
applier-lem lifo_mode o = (refl, refl, refl, refl, refl)
applier-lem undetached o = (refl, refl, refl, refl, refl)

-- `NewRetrievableScheduler` with any list of settings: for each option the last setting decides,
-- whatever the others are, and without one it is the default.
pub retrievable_last :
    (ss : List Setting)
    → let o = configure_retrievable (map applier ss) in
      (o.max_pending ≡ last_or pending_of ss (pos 1))
      × (o.parallel ≡ last_or parallel_of ss (pos 1))
      × (o.close_timeout ≡ last_or timeout_of ss three_seconds)
      × (o.mode ≡ last_or mode_of ss fifo)
      × (o.disable_detached ≡ last_or undetached_of ss false)
unfolding configure_retrievable set_retrievable_default
retrievable_last ss = (
  apply_last applier (λ o. o.max_pending) pending_of (λ a o. (applier-lem a o).0) ss _,
  apply_last applier (λ o. o.parallel) parallel_of (λ a o. (applier-lem a o).1) ss _,
  apply_last applier (λ o. o.close_timeout) timeout_of (λ a o. (applier-lem a o).2) ss _,
  apply_last applier (λ o. o.mode) mode_of (λ a o. (applier-lem a o).3) ss _,
  apply_last applier (λ o. o.disable_detached) undetached_of (λ a o. (applier-lem a o).4) ss _,
)
