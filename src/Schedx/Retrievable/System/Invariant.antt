-- ===== src/Schedx/Retrievable/System/Invariant.antt =====
-- pkg/schedx/retrievable_scheduler.go: properties of the pool, and of the results alone, that every
-- step keeps.
use concx.Prelude.{
  ◌≡◌, refl, Bool, not, ◌&&◌, Option, none, some, List, [], ◌∷◌, ◌++◌, if_elim, arith, length,
}
use concx.Codex.{Codex}
use concx.Schedx.Tasks.{Tasks}
use concx.Schedx.Retrievable.{RetrievableOptions}
use concx.Schedx.Pool.{Pool, PushPc, WorkPc, popping, push_step, work_step}
use concx.Schedx.Pool.System.{is_opening}
use concx.Schedx.Pool.Invariant.{Keeps, step_keeps}
use concx.Schedx.Retrievable.System.{
  Task, Results, Outcome, Dismissal, Retrievable, Act, dismiss, pool, is_advance, is_over, as_task,
  begin, do_end, before_close, store_cause, retrievable, dismiss_step, pool_step, step, history,
}

module _ {ℓ} {S In Out Err : Type 0} ⦃x : Codex Err⦄ (t : Tasks S (Task In)) (zero_out : Out)
    (o : RetrievableOptions)
    (P : Dismissal In Err
      → List (Task In)
      → Pool S (Task In) (Outcome Out Err) (Results Out Err)
      → Type ℓ) where
  abbrev pub Q : Retrievable S In Out Err → Type ℓ
  Q s = P s.dismissal s.dismissed s.base.pool

  -- What has to be shown: the steps of the pool keep the property, and so do the hook, when it
  -- begins, and the steps of `dismiss`.
  pub record AllKeep : Type ℓ where
    pub by_pool :
        (d : Dismissal In Err) (ts : List (Task In)) → Keeps t (retrievable t zero_out o) (P d ts)
    pub by_begin :
        (d : Dismissal In Err) (ts : List (Task In))
        (p : Pool S (Task In) (Outcome Out Err) (Results Out Err))
        → P d ts p
        → P (begin d) ts p
    pub by_dismiss :
        (d : Dismissal In Err) (s : Retrievable S In Out Err)
        → P d s.dismissed s.base.pool
        → Q s
        → Q (dismiss_step t zero_out o d s)

  module _ (keeps : AllKeep) where
    step-keeps :
        (a : Act In Out Err) (s : Retrievable S In Out Err) → Q s → Q (step t zero_out o a s)
    unfolding step pool_step
    step-keeps dismiss s h = keeps.by_dismiss s.dismissal s h h
    step-keeps (pool e) s h =
        if_elim Q (is_advance e && is_opening s.base.nest && not (is_over s.dismissal)) _ _
          (keeps.by_begin s.dismissal s.dismissed s.base.pool h)
          (step_keeps t (retrievable t zero_out o) (P s.dismissal s.dismissed)
            (keeps.by_pool s.dismissal s.dismissed) (as_task (length s.base.pushers) e) s.base h)

    pub history-keeps :
        (acts : List (Act In Out Err)) (s : Retrievable S In Out Err)
        → Q s
        → Q (history t zero_out o acts s)
    unfolding history
    history-keeps [] s h = h
    history-keeps (a ∷ acts) s h = history-keeps acts (step t zero_out o a s) (step-keeps a s h)

-- The pool's steps change the results at the end of a job and by a stored cause only.
module _ {S In Out Err : Type 0} ⦃x : Codex Err⦄ (t : Tasks S (Task In)) (zero_out : Out)
    (o : RetrievableOptions) where
  pub push_world :
      (b : Bool) (v : Task In) (at : PushPc Err)
      (p : Pool S (Task In) (Outcome Out Err) (Results Out Err))
      → let q = (push_step t (retrievable t zero_out o).config b v at p).0 in
        (q.world ≡ p.world) × (q.finished ≡ p.finished)
  unfolding push_step
  push_world b v at p = ground arith

  module _ {ℓ} (P : Results Out Err → List (Task In × Outcome Out Err) → Type ℓ) where
    -- For a property of the results and of the ended jobs.
    pub record ResultsKeep : Type ℓ where
      pub by_end :
          (v : Task In) (e : Outcome Out Err) (r : Results Out Err)
          (js : List (Task In × Outcome Out Err))
          → P r js
          → P (do_end zero_out v e r) (js ++ (v, e) ∷ [])
      pub by_store :
          (e : Err) (r : Results Out Err) (js : List (Task In × Outcome Out Err))
          → P r js
          → P (record r { cause = some e }) js

    module _ (keeps : ResultsKeep) where
      push_keeps :
          (b : Bool) (v : Task In) (at : PushPc Err)
          (p : Pool S (Task In) (Outcome Out Err) (Results Out Err))
          → P p.world p.finished
          → let q = (push_step t (retrievable t zero_out o).config b v at p).0 in
            P q.world q.finished
      push_keeps b v at p h = let (w, f) = push_world b v at p in rw w (rw f h)

      pop_keeps :
          (b : Bool) (e : Outcome Out Err)
          (p : Pool S (Task In) (Outcome Out Err) (Results Out Err)) (r : Option (Task In × S))
          → t.pop p.tasks ≡ r
          → P p.world p.finished
          → let q = (work_step t (retrievable t zero_out o).config b e popping p).0 in
            P q.world q.finished
      unfolding work_step
      pop_keeps b e p none f h = rw f h
      pop_keeps b e p (some (v, rest)) f h = rw f h

      work_keeps :
          (b : Bool) (e : Outcome Out Err) (at : WorkPc (Task In))
          (p : Pool S (Task In) (Outcome Out Err) (Results Out Err))
          → P p.world p.finished
          → let q = (work_step t (retrievable t zero_out o).config b e at p).0 in
            P q.world q.finished
      unfolding work_step
      work_keeps b e (WorkPc.doing d v) p h = keeps.by_end v e p.world p.finished h
      work_keeps b e popping p h = pop_keeps b e p (t.pop p.tasks) refl h
      work_keeps b e WorkPc.idle p h =
          if_elim {A = Pool S (Task In) (Outcome Out Err) (Results Out Err) × WorkPc (Task In)}
            (λ r. P (r.0).world (r.0).finished) p.locked _ _ h h
      work_keeps b e WorkPc.woken p h =
          if_elim {A = Pool S (Task In) (Outcome Out Err) (Results Out Err) × WorkPc (Task In)}
            (λ r. P (r.0).world (r.0).finished) p.locked _ _ h h
      work_keeps b e (WorkPc.popped none) p h = h
      work_keeps b e (WorkPc.popped (some v)) p h = h
      work_keeps b e at p h = h

      pub results-Keeps : Keeps t (retrievable t zero_out o) (λ p. P p.world p.finished)
      unfolding store_cause before_close
      results-Keeps = record {
        by_push = push_keeps;
        by_work = work_keeps;
        by_run = λ p h. h;
        by_note = λ p e h. keeps.by_store e p.world p.finished h;
        by_hooks = (λ p h. h, tt);
      }
