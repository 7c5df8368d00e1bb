-- ===== src/Schedx/Canceled.antt =====
-- `wrapCanceled` of pkg/schedx/error.go.
use concx.Prelude.{◌≡◌, true, Option, none, some, if◌then◌else◌, arith}
use concx.Codex.{Codex, sched, scheduler_canceled}

module _ {Err : Type 0} ⦃x : Codex Err⦄ where
  unfoldable pub wrap_canceled : Option Err → Err
  wrap_canceled none = x.new (sched scheduler_canceled)
  wrap_canceled (some cause) =
      if x.is_code (some cause) (sched scheduler_canceled)
      then cause
      else x.wrap (sched scheduler_canceled) cause

  -- Whatever the cause of a shutdown, what it is mapped to has the code `SCHEDULER_CANCELED`, and
  -- mapping it again changes nothing.
  pub wrap_canceled_code :
      (cause : Option Err)
      → (x.is_code (some (wrap_canceled cause)) (sched scheduler_canceled) ≡ true)
        × (wrap_canceled (some (wrap_canceled cause)) ≡ wrap_canceled cause)
  unfolding wrap_canceled
  wrap_canceled_code none =
      ground (arith, x.is_code-new (sched scheduler_canceled) (sched scheduler_canceled))
  wrap_canceled_code (some cause) = ground (arith, x.is_code-wrap (sched scheduler_canceled) cause)
