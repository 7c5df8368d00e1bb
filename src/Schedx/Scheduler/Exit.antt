-- ===== src/Schedx/Scheduler/Exit.antt =====
-- pkg/schedx/scheduler.go: the user's exit callback.
use concx.Prelude.{
  ℕ, suc, ◌+◌, ◌≤◌, ◌≡◌, refl, inl, inr, Bool, true, false, Option, none, some, List, arith,
  Option-cases, if_split, if◌then◌else◌,
}
use concx.Codex.{Codex}
use concx.Schedx.Tasks.{Tasks}
use concx.Schedx.Options.{Options}
use concx.Schedx.Pool.{Pool, PushPc, WorkPc, doing, popping, push_step, work_step}
use concx.Schedx.Pool.System.{Event, history, init}
use concx.Schedx.Pool.Invariant.{Keeps, history_keeps}
use concx.Schedx.Scheduler.{
  Outcome, outcome_err, Exits, apply_callback, scheduler, new_scheduler, before_close, after_close,
  do_end, sche_exit_callback,
}

module _ {S T Err W : Type 0} ⦃x : Codex Err⦄ (t : Tasks S T) (o : Options T Err W) (n : W → ℕ)
    (job_keeps : (v : T) (e : Option Err) (w : W) → n (apply_callback o.callback v e w) ≡ n w)
    (exit_adds : (cb : List T → Err → W → W) (ts : List T) (reason : Err) (w : W)
      → o.user_exit_callback ≡ some cb
      → n (cb ts reason w) ≡ suc (n w))
    (w : W) where
  -- The callback has counted at most once, and not at all before its flag was set.
  abbrev IsCounted : Pool S T (Outcome Err) (Exits W) → Type 0
  IsCounted p = n p.world.user ≤ n w + (if p.world.exit_cb_called then 1 else 0)

  push_keeps :
      (b : Bool) (v : T) (at : PushPc Err) (p : Pool S T (Outcome Err) (Exits W))
      → IsCounted p
      → IsCounted (push_step t (scheduler t o).config b v at p).0
  unfolding push_step
  push_keeps b v at p h = ground arith

  work_keeps :
      (b : Bool) (e : Outcome Err) (at : WorkPc T) (p : Pool S T (Outcome Err) (Exits W))
      → IsCounted p
      → IsCounted (work_step t (scheduler t o).config b e at p).0
  unfolding work_step do_end
  work_keeps b e popping p h = elim (Option-cases (t.pop p.tasks)) [
    | inl none_left ↦ rw none_left h
    | inr ((v, rest), some_left) ↦ rw some_left h
  ]
  work_keeps b e (doing d v) p h = omega (arith, h, job_keeps v (outcome_err e) p.world.user)
  work_keeps b e at p h = ground arith

  exit_once :
      (c : Option (List T → Err → W → W)) (reason : Err) (s : S) (u : Exits W)
      → o.user_exit_callback ≡ c
      → u.exit_cb_called ≡ true
      → n u.user ≤ n w
      → let u' = sche_exit_callback t o c reason s u in
        n u'.user ≤ n w + (if u'.exit_cb_called then 1 else 0)
  unfolding sche_exit_callback
  exit_once none reason s u e f h = rw f (omega (arith, h))
  exit_once (some cb) reason s u e f h =
      rw f (omega (arith, h, exit_adds cb (t.range s) reason u.user e))

  not_yet :
      (p : Pool S T (Outcome Err) (Exits W))
      → IsCounted p
      → p.world.exit_cb_called ≡ false
      → n p.world.user ≤ n w
  not_yet p h c = ground (arith, h, c)

  at_most : (p : Pool S T (Outcome Err) (Exits W)) → IsCounted p → n p.world.user ≤ n w + 1
  at_most p h = ground (arith, h)

  after_close_keeps :
      (e : Option Err) (p : Pool S T (Outcome Err) (Exits W))
      → IsCounted p
      → IsCounted (after_close t o e p).0
  unfolding after_close sche_exit_callback
  after_close_keeps e p h =
      if_split IsCounted p.world.exit_cb_called p _ (λ c. h)
        (λ c. exit_once o.user_exit_callback _ p.tasks _ refl refl (not_yet p h c))

  IsCounted-kept : Keeps t (scheduler t o) IsCounted
  unfolding before_close
  IsCounted-kept = record {
    by_push = push_keeps;
    by_work = work_keeps;
    by_run = λ p h. h;
    by_note = λ p e h. h;
    by_hooks = (λ p h. h, λ e p h. after_close_keeps e p h);
  }

  -- The user's exit callback is called at most once: if no callback of a job moves a counter of the
  -- user's state and the exit callback adds one to it, then after every history of a new scheduler the
  -- counter is at most one higher than at the start.
  pub exit_callback_once :
      (es : List (Event T (Outcome Err) Err)) (parent : Option Err)
      → n (history t (scheduler t o) es (new_scheduler t o w parent)).pool.world.user ≤ n w + 1
  exit_callback_once es parent =
      let p = (history t (scheduler t o) es (new_scheduler t o w parent)).pool in
      at_most p (
        history_keeps t (scheduler t o) IsCounted IsCounted-kept es (new_scheduler t o w parent)
          (unfold new_scheduler init in omega arith))
