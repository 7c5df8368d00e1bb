-- ===== src/Schedx/Retrievable/Tests.antt =====
-- Tests of the retrievable options and results, and the theorems on them at concrete histories.
use concx.Prelude.{ℕ, ◌≡◌, ◌≤◌, refl, true, false, none, some, arith, List, [], ◌∷◌, is_some}
use concx.Codex.{sched, scheduler_canceled}
use concx.Codex.Sample.{SampleErr, sample_codex, coded, plain}
use concx.Schedx.Retrievable.Result.{
  unsettled, settled, Shared, finish, publish, close, first, got, by_context, by_closed, Action,
  happens, waits, step, run, wait_step, play,
}
use concx.Schedx.Retrievable.Result.Laws.{settled_forever, closed_first, result_from_finish}

abbrev fresh : Shared ℕ SampleErr
fresh = record { once = unsettled; closed = false; cause = none }

abbrev answered : Shared ℕ SampleErr
answered = record { once = settled 5 none; closed = false; cause = none }

settled_forever_example :
    wait_step 0 (by_context (plain 1)) first (run 0 (close ∷ finish 8 none ∷ publish ∷ []) answered)
    ≡ got 5 none
settled_forever_example =
    settled_forever 0 (close ∷ finish 8 none ∷ publish ∷ []) answered 5 none (by_context (plain 1))
      refl

abbrev shut : Shared ℕ SampleErr
shut = record { once = unsettled; closed = true; cause = none }

abbrev late : List (Action ℕ SampleErr)
late = happens (finish 8 none) ∷ happens publish ∷ waits by_closed ∷ []

closed_first_example : ◌≡◌ {A = ℕ} 0 0 × (is_some (some (coded (sched scheduler_canceled))) ≡ true)
closed_first_example =
    closed_first 0 late shut 0 (some (coded (sched scheduler_canceled))) refl refl
      (unfold play step wait_step in refl)

abbrev early : List (Action ℕ SampleErr)
early =
    waits by_closed
    ∷ happens (finish 8 none)
    ∷ happens close
    ∷ happens publish
    ∷ waits by_closed
    ∷ waits by_closed
    ∷ []

result_from_finish_example : 8 ≤ 9
result_from_finish_example =
    result_from_finish 0 (λ n. n ≤ 9) early fresh 8 (tt, (omega arith, (tt, (tt, (tt, (tt, tt))))))
      refl (unfold play step wait_step in refl)

-- Two calls may disagree: one gives up at the close while a finish that began before it has not
-- been published yet.
abbrev gives_up : List (Action ℕ SampleErr)
gives_up =
    waits by_closed
    ∷ happens (finish 8 none)
    ∷ happens close
    ∷ waits by_closed
    ∷ waits by_closed
    ∷ happens publish
    ∷ []

disagree : play 0 gives_up fresh first ≡ got 0 (some (coded (sched scheduler_canceled)))
unfolding play step wait_step
disagree = refl
