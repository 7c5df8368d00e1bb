-- ===== src/Schedx/Retrievable/System/Conserved.antt =====
-- pkg/schedx/retrievable_scheduler.go: no task is lost or made up, with those that `dismiss` takes,
-- and `Pending` counts them.
use concx.Prelude.{
  ℕ, ◌+◌, ◌≡◌, refl, inl, inr, not, ◌&&◌, Option, none, some, List, [], ◌∷◌, arith, total,
  total-append, total-one, total-cons, All, true, if_elim, length, ◌∙◌,
}
use concx.Codex.{Codex}
use concx.Schedx.Tasks.{Tasks, TasksLaws}
use concx.Schedx.Retrievable.{RetrievableOptions}
use concx.Schedx.Pool.System.{init, is_opening}
use concx.Schedx.Pool.History.{accepted_by, in_hand, ended}
use concx.Schedx.Pool.Conservation.{Kept, HooksKeep, step-Kept}
use concx.Schedx.Retrievable.System.{
  Task, Dismissal, before, reading, asking, storing, closing, popping, counting, failing, over,
  Retrievable, Act, dismiss, pool, is_advance, is_over, as_task, begin, store_cause, before_close,
  retrievable, take, dismiss_step, pool_step, step, history, new_retrievable, Outcome,
}
use concx.Schedx.Retrievable.System.Answers.{reached-Fine}
use concx.Schedx.Retrievable.System.Finish.{is_settled}

-- The task that `dismiss` has popped and not failed yet.
abbrev pub at_hand : {In Err : Type 0} → (Task In → ℕ) → Dismissal In Err → ℕ
at_hand w (counting e v) = w v
at_hand w (failing e v) = w v
at_hand w _ = 0

-- One that it has popped and not counted down yet.
abbrev pub uncounted_by : {In Err : Type 0} → Dismissal In Err → ℕ
uncounted_by (counting e v) = 1
uncounted_by _ = 0

pub begin_same :
    {In Err : Type 0} (w : Task In → ℕ) (d : Dismissal In Err)
    → (at_hand w (begin d) ≡ at_hand w d) × (uncounted_by (begin d) ≡ uncounted_by d)
begin_same w before = (refl, refl)
begin_same w reading = (refl, refl)
begin_same w asking = (refl, refl)
begin_same w (storing e) = (refl, refl)
begin_same w (closing e) = (refl, refl)
begin_same w (popping e) = (refl, refl)
begin_same w (counting e v) = (refl, refl)
begin_same w (failing e v) = (refl, refl)
begin_same w over = (refl, refl)

module _ {S In Out Err : Type 0} ⦃x : Codex Err⦄ (t : Tasks S (Task In)) (l : TasksLaws t)
    (zero_out : Out) (o : RetrievableOptions) where
  open l use {items}

  module _ (w : Task In → ℕ) where
    abbrev apart : Retrievable S In Out Err → ℕ
    apart s = at_hand w s.dismissal + total w s.dismissed

    abbrev IsKept : ℕ → Retrievable S In Out Err → Type 0
    IsKept n s = Kept t l w (retrievable t zero_out o) n s.base

    hooks : HooksKeep {Err = Err} t l w (retrievable t zero_out o) 0
    unfolding before_close
    hooks a b c = (λ p h. h, tt)

    taken-Kept :
        (e : Err) (u : Task In) (rest : S) (s : Retrievable S In Out Err)
        → items s.base.pool.tasks ≡ u ∷ items rest
        → IsKept (at_hand {Err = Err} w (popping e) + total w s.dismissed) s
        → let s' = take t zero_out o e (some (u, rest)) s in IsKept (apart s') s'
    taken-Kept e u rest s split v = record {
      sent = v.sent;
      split = ground (
        arith,
        v.split,
        split,
        total-cons w u (items rest),
        total-append w s.base.pool.taken (u ∷ []),
        total-one w u,
      );
      served = total-append w s.base.pool.taken (u ∷ []) ∙ omega (arith, v.served, total-one w u);
    }

    dismiss-Kept :
        (d : Dismissal In Err) (s : Retrievable S In Out Err)
        → IsKept (at_hand w d + total w s.dismissed) s
        → IsKept (apart s) s
        → let s' = dismiss_step t zero_out o d s in IsKept (apart s') s'
    unfolding dismiss_step store_cause
    dismiss-Kept before s v g = g
    dismiss-Kept reading s v g =
        elim (s.base.pool.world.cause)
          as (λ r.
            IsKept
              (at_hand w (elim r as (λ _. Dismissal In Err) [ none ↦ asking | some e ↦ storing e ])
                + total w s.dismissed)
              s) [ none ↦ v | some e ↦ v ]
    dismiss-Kept asking s v g = v
    dismiss-Kept (storing e) s v g = record { sent = v.sent; split = v.split; served = v.served }
    dismiss-Kept (closing e) s v g = record { sent = v.sent; split = v.split; served = v.served }
    dismiss-Kept (popping e) s v g = elim (l.pop-items s.base.pool.tasks) [
      | inl (none_left, _) ↦ rw none_left v
      | inr (u, rest, some_left, split, _) ↦ rw some_left (taken-Kept e u rest s split v)
    ]
    dismiss-Kept (counting e u) s v g = record { sent = v.sent; split = v.split; served = v.served }
    dismiss-Kept (failing e u) s v g = record {
      sent = v.sent;
      split = v.split;
      served = v.served ∙ omega (arith, total-append w s.dismissed (u ∷ []), total-one w u);
    }
    dismiss-Kept over s v g = g

    step-IsKept :
        (a : Act In Out Err) (s : Retrievable S In Out Err)
        → IsKept (apart s) s
        → let s' = step t zero_out o a s in IsKept (apart s') s'
    unfolding step pool_step
    step-IsKept dismiss s v = dismiss-Kept s.dismissal s v v
    step-IsKept (pool e) s v =
        if_elim (λ u. IsKept (apart u) u)
          (is_advance e && is_opening s.base.nest && not (is_over s.dismissal)) _ _
          (rw (begin_same w s.dismissal).0 v)
          (step-Kept t l w (retrievable t zero_out o) (apart s) hooks
            (as_task (length s.base.pushers) e) s.base v)

    history-IsKept :
        (acts : List (Act In Out Err)) (s : Retrievable S In Out Err)
        → IsKept (apart s) s
        → let s' = history t zero_out o acts s in IsKept (apart s') s'
    unfolding history
    history-IsKept [] s v = v
    history-IsKept (a ∷ acts) s v = history-IsKept acts (step t zero_out o a s) (step-IsKept a s v)

    new-IsKept :
        (parent : Option Err) → let s = new_retrievable t zero_out o parent in IsKept (apart s) s
    unfolding new_retrievable init total
    new-IsKept parent = record {
      sent = refl;
      split = rw (l.items-new o.mode) refl;
      served = omega arith;
    }

    -- No accepted task is lost, none is made up, and none ends without its answer. After every history
    -- of a new scheduler, by any measure of the tasks: those that calls of `Push` have appended are the
    -- ones in the queue, in the hands of a worker or of `dismiss`, those whose job has ended, and those
    -- that `dismiss` has failed; and each result of the last two kinds is settled.
    pub tasks_conserved :
        (acts : List (Act In Out Err)) (parent : Option Err)
        → let s = history t zero_out o acts (new_retrievable t zero_out o parent) in
          let p = s.base.pool in
          (total (accepted_by w) s.base.pushers
            ≡ total w (items p.tasks)
              + (total (in_hand w) s.base.workers + at_hand w s.dismissal)
              + (total (ended w) p.finished + total w s.dismissed))
          × All
              (λ (j : Task In × Outcome Out Err). is_settled (p.world.rets (j.0).ret) ≡ true)
              p.finished
          × All (λ (v : Task In). is_settled (p.world.rets v.ret) ≡ true) s.dismissed
    tasks_conserved acts parent =
        let s = history t zero_out o acts (new_retrievable t zero_out o parent) in
        let kept = history-IsKept acts (new_retrievable t zero_out o parent) (new-IsKept parent) in
        let (c, fine, answers) = reached-Fine t zero_out o acts parent in
        (omega (arith, kept.sent, kept.split, kept.served), answers.1, fine)
