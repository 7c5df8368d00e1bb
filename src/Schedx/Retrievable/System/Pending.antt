-- ===== src/Schedx/Retrievable/System/Pending.antt =====
-- pkg/schedx/retrievable_scheduler.go: `Pending` and its limit, with the tasks that `dismiss` takes.
use concx.Prelude.{
  ℕ, ◌+◌, ◌≡◌, refl, inl, inr, not, ◌&&◌, Option, none, some, List, [], ◌∷◌, arith, total,
  total-cons, if_elim, length, ap, ◌∙◌,
}
use concx.Prelude.Int.{pos}
use concx.Codex.{Codex}
use concx.Schedx.Tasks.{Tasks, TasksLaws}
use concx.Schedx.Retrievable.{RetrievableOptions}
use concx.Schedx.Pool.System.{init, is_opening}
use concx.Schedx.Pool.Counts.{reserved_by, uncounted, one, IsWithin, IsWithin-zero}
use concx.Schedx.Pool.Pending.{Inv, HooksCount, step-Inv}
use concx.Schedx.Retrievable.System.{
  Task, Dismissal, before, reading, asking, storing, closing, popping, counting, failing, over,
  Retrievable, Act, dismiss, pool, is_advance, is_over, as_task, store_cause, before_close,
  retrievable, take, dismiss_step, pool_step, step, history, new_retrievable,
}
use concx.Schedx.Retrievable.System.Conserved.{uncounted_by, begin_same}

module _ {S In Out Err : Type 0} ⦃x : Codex Err⦄ (t : Tasks S (Task In)) (l : TasksLaws t)
    (zero_out : Out) (o : RetrievableOptions) where
  open l use {items}

  abbrev IsCounted : ℕ → Retrievable S In Out Err → Type 0
  IsCounted n s = Inv t l (retrievable t zero_out o) n s.base

  hooks : HooksCount {Err = Err} t l (retrievable t zero_out o) 0
  unfolding before_close
  hooks r = (λ p h. h, tt)

  taken-IsCounted :
      (e : Err) (u : Task In) (rest : S) (s : Retrievable S In Out Err)
      → items s.base.pool.tasks ≡ u ∷ items rest
      → IsCounted 0 s
      → let s' = take t zero_out o e (some (u, rest)) s in IsCounted 1 s'
  taken-IsCounted e u rest s split v = record {
    counted = v.counted ∙ ap pos (ground (arith, split, total-cons one u (items rest)));
    within = v.within;
    below = v.below;
  }

  count_down-IsCounted :
      (e : Err) (u : Task In) (s : Retrievable S In Out Err)
      → IsCounted 1 s
      → IsCounted 0 (dismiss_step t zero_out o (counting e u) s)
  unfolding dismiss_step
  count_down-IsCounted e u s v = record {
    counted = ground (arith, v.counted);
    within = ground (arith, v.counted, v.within);
    below = v.below;
  }

  dismiss-IsCounted :
      (d : Dismissal In Err) (s : Retrievable S In Out Err)
      → IsCounted (uncounted_by d) s
      → IsCounted (uncounted_by s.dismissal) s
      → let s' = dismiss_step t zero_out o d s in IsCounted (uncounted_by s'.dismissal) s'
  unfolding dismiss_step store_cause
  dismiss-IsCounted before s v g = g
  dismiss-IsCounted reading s v g =
      elim (s.base.pool.world.cause)
        as (λ r.
          IsCounted
            (uncounted_by
              (elim r as (λ _. Dismissal In Err) [ none ↦ asking | some e ↦ storing e ]))
            s) [ none ↦ v | some e ↦ v ]
  dismiss-IsCounted asking s v g = v
  dismiss-IsCounted (storing e) s v g = record {
    counted = v.counted;
    within = v.within;
    below = v.below;
  }
  dismiss-IsCounted (closing e) s v g = record {
    counted = v.counted;
    within = v.within;
    below = v.below;
  }
  dismiss-IsCounted (popping e) s v g = elim (l.pop-items s.base.pool.tasks) [
    | inl (none_left, _) ↦ rw none_left v
    | inr (u, rest, some_left, split, _) ↦ rw some_left (taken-IsCounted e u rest s split v)
  ]
  dismiss-IsCounted (counting e u) s v g = count_down-IsCounted e u s v
  dismiss-IsCounted (failing e u) s v g = record {
    counted = v.counted;
    within = v.within;
    below = v.below;
  }
  dismiss-IsCounted over s v g = g

  step-IsCounted :
      (a : Act In Out Err) (s : Retrievable S In Out Err)
      → IsCounted (uncounted_by s.dismissal) s
      → let s' = step t zero_out o a s in IsCounted (uncounted_by s'.dismissal) s'
  unfolding step pool_step
  step-IsCounted dismiss s v = dismiss-IsCounted s.dismissal s v v
  step-IsCounted (pool e) s v =
      if_elim (λ u. IsCounted (uncounted_by u.dismissal) u)
        (is_advance e && is_opening s.base.nest && not (is_over s.dismissal)) _ _
        (rw (begin_same one s.dismissal).1 v)
        (step-Inv t l (retrievable t zero_out o) (uncounted_by s.dismissal) hooks
          (as_task (length s.base.pushers) e) s.base v)

  history-IsCounted :
      (acts : List (Act In Out Err)) (s : Retrievable S In Out Err)
      → IsCounted (uncounted_by s.dismissal) s
      → let s' = history t zero_out o acts s in IsCounted (uncounted_by s'.dismissal) s'
  unfolding history
  history-IsCounted [] s v = v
  history-IsCounted (a ∷ acts) s v =
      history-IsCounted acts (step t zero_out o a s) (step-IsCounted a s v)

  new-IsCounted : (parent : Option Err) → IsCounted 0 (new_retrievable t zero_out o parent)
  unfolding new_retrievable init total
  new-IsCounted parent = record {
    counted = rw (l.items-new o.mode) refl;
    within = IsWithin-zero o.max_pending;
    below = tt;
  }

  -- After every history of a new scheduler, `Pending` is never negative: it is the length of the
  -- queue, with the calls of `Push` that have counted their task and not appended it yet, and the
  -- workers, and `dismiss`, that have popped a task and not counted it down yet. And it is never above
  -- a limit that is not negative.
  pub pending_with_dismissal :
      (acts : List (Act In Out Err)) (parent : Option Err)
      → let s = history t zero_out o acts (new_retrievable t zero_out o parent) in
        let p = s.base.pool in
        (p.pending
          ≡ pos (
              t.len p.tasks
              + total reserved_by s.base.pushers
              + (total uncounted s.base.workers + uncounted_by s.dismissal)))
        × IsWithin o.max_pending p.pending
  pending_with_dismissal acts parent =
      let s = history t zero_out o acts (new_retrievable t zero_out o parent) in
      let kept =
        history-IsCounted acts (new_retrievable t zero_out o parent)
          (unfold new_retrievable in new-IsCounted parent) in
      (kept.counted ∙ ap pos (omega (arith, l.len-items s.base.pool.tasks)), kept.within)
