-- ===== src/Orch/Pipe/Lifetime/Shutdown.antt =====
-- pkg/orch/pipe/pipe.go: `Push` answers with the pipeline's own errors.
use concx.Prelude.{◌≡◌, refl, sym, ap, ◌∙◌, Bool, true, false, Option, none, some, subst, if_elim}
use concx.Prelude.Int.{leb_ℤ, is_neg, eq_ℤ}
use concx.Codex.{
  Codex, SchedError, PipeError, pipe, sched, pipeline_canceled, pipeline_not_running,
  scheduler_not_running, scheduler_canceled,
}
use concx.Schedx.Tasks.{Tasks}
use concx.Schedx.Pool.{
  Pool, PushPc, Config, entered, is_running, admitted, looping, loaded, appending, broadcasting,
  returned, push_step,
}
use concx.Orch.Pipe.Lifetime.{map_error, map_pushed}

module _ {Err : Type 0} ⦃x : Codex Err⦄ where
  -- The error that a scheduler's `Push` returns at a step: the one of the scheduler, and what the
  -- pipeline's `Push` makes of it.
  abbrev sched_error : PushPc Err → Option Err
  sched_error entered = some (x.new (sched scheduler_not_running))
  sched_error is_running = some (x.new (sched scheduler_canceled))
  sched_error looping = some (x.new (sched SchedError.reach_max_pending))
  sched_error _ = none

  abbrev pub pipe_error : PushPc Err → Option Err
  pipe_error entered = some (x.new (pipe pipeline_not_running))
  pipe_error is_running = some (x.new (pipe pipeline_canceled))
  pipe_error looping = some (x.new (pipe PipeError.reach_max_pending))
  pipe_error _ = none

  abbrev Ends : PushPc Err → PushPc Err → Type 0
  Ends at (returned (some e)) = sched_error at ≡ some e
  Ends at _ = Unit

  -- A call of `Push` that is under way has not returned yet.
  abbrev pub is_under_way : PushPc Err → Bool
  is_under_way (returned e) = false
  is_under_way _ = true

  map_error_lem : (at : PushPc Err) → map_pushed (sched_error at) ≡ pipe_error at
  unfolding map_error
  map_error_lem entered = simp (x.is_code-new)
  map_error_lem is_running = simp (x.is_code-new)
  map_error_lem looping = simp (x.is_code-new)
  map_error_lem admitted = refl
  map_error_lem (loaded c) = refl
  map_error_lem appending = refl
  map_error_lem broadcasting = refl
  map_error_lem (returned e) = refl

  module _ {S T E W : Type 0} (t : Tasks S T) (o : Config T E W) where
    push_step-Ends :
        (b : Bool) (v : T) (at : PushPc Err) (p : Pool S T E W)
        → is_under_way at ≡ true
        → Ends at (push_step t o b v at p).1
    unfolding push_step
    push_step-Ends b v entered p h = if_elim (Ends entered) p.running _ _ tt refl
    push_step-Ends b v is_running p h = if_elim (Ends is_running) b _ _ refl tt
    push_step-Ends b v admitted p h =
        if_elim {A = Pool S T E W × PushPc Err} (λ r. Ends admitted r.1) (is_neg o.max_pending) _ _
          tt tt
    push_step-Ends b v looping p h =
        if_elim (Ends looping) (leb_ℤ o.max_pending p.pending) _ _ refl tt
    push_step-Ends b v (loaded c) p h =
        if_elim {A = Pool S T E W × PushPc Err} (λ r. Ends (loaded c) r.1) (eq_ℤ p.pending c) _ _ tt
          tt
    push_step-Ends b v appending p h = tt
    push_step-Ends b v broadcasting p h = tt
    push_step-Ends b v (returned e) p h = absurd (cc)

    -- What the pipeline's `Push` makes of an error of its scheduler: when a step of the scheduler's
    -- `Push` returns the error, in whatever state, the pipeline's is `PIPELINE_NOT_RUNNING` at the test
    -- whether the scheduler runs, `PIPELINE_CANCELED` at the test whether its nest is canceled, and
    -- `REACH_MAX_PENDING` in the loop over the count; no other step returns an error.
    pub push_error_mapped :
        (b : Bool) (v : T) (at : PushPc Err) (p : Pool S T E W) (e : Err)
        → is_under_way at ≡ true
        → (push_step t o b v at p).1 ≡ returned (some e)
        → pipe_error at ≡ some (map_error e)
    push_error_mapped b v at p e h r =
        sym (map_error_lem at) ∙ ap map_pushed (subst (Ends at) r (push_step-Ends b v at p h))
