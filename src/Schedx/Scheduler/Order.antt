-- ===== src/Schedx/Scheduler/Order.antt =====
-- pkg/schedx/scheduler.go: in which order jobs are taken, and that none is lost or made up.
use concx.Prelude.{
  ℕ, ◌+◌, ◌≡◌, refl, ◌∙◌, inl, inr, Bool, Option, List, [], ◌∷◌, ◌++◌, arith, total,
}
use mathlib.Core.List.{append_assoc}
use concx.Codex.{Codex}
use concx.Schedx.Tasks.{fifo, Tasks, TasksLaws}
use concx.Schedx.Options.{Options}
use concx.Schedx.Pool.{Pool, PushPc, WorkPc, appending, popping, push_step, work_step}
use concx.Schedx.Pool.System.{Event, history, init}
use concx.Schedx.Pool.Invariant.{Keeps, history_keeps}
use concx.Schedx.Pool.History.{accepted_by, in_hand, ended}
use concx.Schedx.Pool.Conservation.{Kept, HooksKeep, history-Kept}
use concx.Schedx.Scheduler.{Outcome, Exits, scheduler, new_scheduler, before_close, after_close}

module _ {S T Err W : Type 0} ⦃x : Codex Err⦄ (t : Tasks S T) (l : TasksLaws t)
    (o : Options T Err W) where
  open l use {items, mode}

  abbrev IsInOrder : Pool S T (Outcome Err) (Exits W) → Type 0
  IsInOrder p = (mode p.tasks ≡ fifo) × (p.taken ++ items p.tasks ≡ p.appended)

  push_keeps_order :
      (b : Bool) (v : T) (at : PushPc Err) (p : Pool S T (Outcome Err) (Exits W))
      → IsInOrder p
      → IsInOrder (push_step t (scheduler t o).config b v at p).0
  unfolding push_step
  push_keeps_order b v appending p h = (
    l.mode-push v p.tasks ∙ h.0,
    ground (arith, l.items-push v p.tasks, append_assoc p.taken (items p.tasks) (v ∷ [])),
  )
  push_keeps_order b v at p h = ground arith

  work_keeps_order :
      (b : Bool) (e : Outcome Err) (at : WorkPc T) (p : Pool S T (Outcome Err) (Exits W))
      → IsInOrder p
      → IsInOrder (work_step t (scheduler t o).config b e at p).0
  unfolding work_step
  work_keeps_order b e popping p h = elim (l.pop-items p.tasks) [
    | inl (none_left, _) ↦ rw none_left h
    | inr (v, rest, some_left, split, same) ↦
        rw some_left (same ∙ h.0, append_assoc p.taken (v ∷ []) (items rest) ∙ rw (← split) (h.1))
  ]
  work_keeps_order b e at p h = ground arith

  order_kept : Keeps t (scheduler t o) IsInOrder
  unfolding before_close after_close
  order_kept = record {
    by_push = push_keeps_order;
    by_work = work_keeps_order;
    by_run = λ p h. h;
    by_note = λ p w h. h;
    by_hooks = (λ p h. h, λ e p h. ground arith);
  }

  -- In FIFO mode, after every history of a new scheduler, the values that workers have taken and
  -- then those in the queue are the values that calls of `Push` have appended, in the same order.
  pub fifo_order :
      (es : List (Event T (Outcome Err) Err)) (w : W) (parent : Option Err)
      → o.mode ≡ fifo
      → let p = (history t (scheduler t o) es (new_scheduler t o w parent)).pool in
        p.taken ++ items p.tasks ≡ p.appended
  fifo_order es w parent m =
      (history_keeps t (scheduler t o) IsInOrder order_kept es (new_scheduler t o w parent)
        (unfold new_scheduler init in (l.mode-new o.mode ∙ m, l.items-new o.mode))).1

  module _ (v : T → ℕ) where
    hooks : HooksKeep t l v (scheduler t o) 0
    unfolding before_close after_close
    hooks a b c = (λ p h. h, λ e p h. ground arith)

    new-Kept :
        (w : W) (parent : Option Err) → Kept t l v (scheduler t o) 0 (new_scheduler t o w parent)
    unfolding new_scheduler total
    new-Kept w parent = record { sent = refl; split = rw (l.items-new o.mode) refl; served = refl }

    -- No job is lost and none is made up. After every history of a new scheduler, by any measure of
    -- the values: those whose `Push` has appended them, and so those of every `Push` that returned no
    -- error, are the ones in the queue, with those in the hands of a worker and those whose job has
    -- ended. (With the measure that counts one value: each as often as it was pushed.)
    pub jobs_conserved :
        (es : List (Event T (Outcome Err) Err)) (w : W) (parent : Option Err)
        → let s = history t (scheduler t o) es (new_scheduler t o w parent) in
          total (accepted_by v) s.pushers
          ≡ total v (items s.pool.tasks)
            + total (in_hand v) s.workers
            + total (ended v) s.pool.finished
    jobs_conserved es w parent =
        let kept =
          history-Kept t l v (scheduler t o) 0 hooks es (new_scheduler t o w parent)
            (new-Kept w parent) in
        omega (arith, kept.sent, kept.split, kept.served)
