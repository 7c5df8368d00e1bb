-- ===== src/Schedx/Scheduler/Pending.antt =====
-- pkg/schedx/scheduler.go: `Pending` and its limit.
use concx.Prelude.{ℕ, ◌+◌, ◌≤◌, ◌≡◌, refl, Option, List, arith, total, ap, subst, ◌∙◌}
use concx.Prelude.Int.{pos, pos_part}
use concx.Codex.{Codex}
use concx.Schedx.Tasks.{Tasks, TasksLaws}
use concx.Schedx.Options.{Options}
use concx.Schedx.Pool.Counts.{reserved_by, uncounted, IsWithin, IsWithin-zero}
use concx.Schedx.Pool.System.{Event, history}
use concx.Schedx.Pool.Pending.{Inv, HooksCount, history-Inv}
use concx.Schedx.Scheduler.{Outcome, scheduler, new_scheduler, before_close, after_close}

module _ {S T Err W : Type 0} ⦃x : Codex Err⦄ (t : Tasks S T) (l : TasksLaws t)
    (o : Options T Err W) where
  open l use {items}

  hooks : HooksCount t l (scheduler t o) 0
  unfolding before_close after_close
  hooks r = (λ p h. h, λ e p h. ground arith)

  new-Inv : (w : W) (parent : Option Err) → Inv t l (scheduler t o) 0 (new_scheduler t o w parent)
  unfolding new_scheduler total
  new-Inv w parent = record {
    counted = rw (l.items-new o.mode) refl;
    within = IsWithin-zero o.max_pending;
    below = tt;
  }

  reached-Inv :
      (es : List (Event T (Outcome Err) Err)) (w : W) (parent : Option Err)
      → Inv t l (scheduler t o) 0 (history t (scheduler t o) es (new_scheduler t o w parent))
  reached-Inv es w parent =
      history-Inv t l (scheduler t o) 0 hooks es (new_scheduler t o w parent) (new-Inv w parent)

  -- After every history of a new scheduler, `Pending` is never negative: it is the length of the
  -- queue, with the calls of `Push` that have counted their value and not appended it yet, and the
  -- workers that have popped a value and not counted it down yet.
  pub pending_counts :
      (es : List (Event T (Outcome Err) Err)) (w : W) (parent : Option Err)
      → let s = history t (scheduler t o) es (new_scheduler t o w parent) in
        s.pool.pending
        ≡ pos (t.len s.pool.tasks + total reserved_by s.pushers + total uncounted s.workers)
  pending_counts es w parent =
      let s = history t (scheduler t o) es (new_scheduler t o w parent) in
      (reached-Inv es w parent).counted ∙ ap pos (omega (arith, l.len-items s.pool.tasks))

  -- With a limit that is not negative, after every history of a new scheduler the queue never holds
  -- more values than `Pending` says, and `Pending` is never above the limit.
  pub queue_bounded :
      (es : List (Event T (Outcome Err) Err)) (w : W) (parent : Option Err) (m : ℕ)
      → o.max_pending ≡ pos m
      → let p = (history t (scheduler t o) es (new_scheduler t o w parent)).pool in
        (t.len p.tasks ≤ pos_part p.pending) × (pos_part p.pending ≤ m)
  queue_bounded es w parent m h =
      let s = history t (scheduler t o) es (new_scheduler t o w parent) in
      (
        omega (arith, ap pos_part (pending_counts es w parent)),
        subst (λ n. IsWithin n s.pool.pending) h (reached-Inv es w parent).within,
      )
