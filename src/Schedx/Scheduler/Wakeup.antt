-- ===== src/Schedx/Scheduler/Wakeup.antt =====
-- pkg/schedx/scheduler.go: `Push` broadcasts without holding the lock of the condition, so its
-- broadcast can fall between a worker's test of the queue and its wait.
use concx.Prelude.{
  ℕ, zero, suc, ◌==◌, if◌then◌else◌, ◌≡◌, refl, Bool, true, false, none, some, List, [], ◌∷◌, ◌++◌,
  arith, ap, ◌∙◌, total,
}
use concx.Prelude.Int.{pos, rounds}
use concx.Codex.{Codex}
use concx.Nest
use concx.Schedx.Tasks.{Tasks, TasksLaws}
use concx.Schedx.Options.{Options}
use concx.Schedx.Pool.{
  WorkPc, checking, saw_none, past_loop, asleep, before_wait, returned, push_step, work_step,
  broadcast, wake_one,
}
use concx.Schedx.Pool.System.{
  System, Event, spawning, ran, push, run, close, push_at, work_at, run_at, parent_done, history,
  history-append, Scheme, step, push_at_step, work_at_step, run_at_step, run_step, close_at_step,
  nest_step, wake_step,
}
use concx.Schedx.Scheduler.{Outcome, Exits, scheduler, new_scheduler}

module _ {S T Err W : Type 0} ⦃x : Codex Err⦄ (t : Tasks S T) (l : TasksLaws t)
    (o : Options T Err W) where
  open l use {items}

  -- `Run` has started its one worker, which has found the queue empty and is about to wait.
  abbrev pub until_wait : Outcome Err → List (Event T (Outcome Err) Err)
  until_wait e =
      run ∷ run_at 0 ∷ run_at 0 ∷ run_at 0 ∷ run_at 0 ∷ work_at 0 e ∷ work_at 0 e ∷ work_at 0 e ∷ []

  -- Then `v` is pushed, and then the worker waits.
  abbrev pub push_then_wait : T → Outcome Err → List (Event T (Outcome Err) Err)
  push_then_wait v e =
      push v
      ∷ push_at 0
      ∷ push_at 0
      ∷ push_at 0
      ∷ push_at 0
      ∷ push_at 0
      ∷ push_at 0
      ∷ push_at 0
      ∷ work_at 0 e
      ∷ []

  abbrev waiting_state : W → System S T (Outcome Err) (Exits W) Err
  waiting_state w = record {
    pool = record {
      tasks = t.new o.mode;
      pending = pos 0;
      running = true;
      locked = true;
      waking = false;
      world = record { exit_cb_called = false; user = w };
      appended = [];
      taken = [];
      finished = [];
    };
    nest = some (record (Nest.new none) { live = 1 });
    parent = none;
    pushers = [];
    workers = before_wait ∷ [];
    runners = ran none ∷ [];
    closers = [];
  }

  abbrev stalled : W → T → System S T (Outcome Err) (Exits W) Err
  stalled w v = record (waiting_state w) {
    pool = record ((waiting_state w).pool) {
      tasks = t.push v (t.new o.mode);
      pending = pos 1;
      locked = false;
      appended = v ∷ [];
    };
    pushers = record { value = v; at = returned none } ∷ [];
    workers = asleep ∷ [];
  }

  len-new : t.len (t.new o.mode) ≡ 0
  unfolding total
  len-new = l.len-items (t.new o.mode) ∙ ap (total (λ (v : T). 1)) (l.items-new o.mode)

  -- On the way there: `Run` is in its loop, and the worker has the lock.
  abbrev spawning_state : W → ℕ → System S T (Outcome Err) (Exits W) Err
  spawning_state w n = record (waiting_state w) {
    pool = record ((waiting_state w).pool) { locked = false };
    nest = some (Nest.new none);
    workers = [];
    runners = spawning n ∷ [];
  }

  abbrev checking_state : W → WorkPc T → System S T (Outcome Err) (Exits W) Err
  checking_state w pc = record (waiting_state w) { workers = pc ∷ [] }

  -- The empty queue sends the worker on to its test of the nest.
  sees_none :
      (w : W) (e : Outcome Err)
      → step t (scheduler t o) (work_at 0 e) (checking_state w checking) ≡ checking_state w saw_none
  unfolding step work_at_step work_step
  sees_none w e = ap (λ n. checking_state w (if n == 0 then saw_none else past_loop)) len-new

  reaches_wait :
      (w : W) (e : Outcome Err)
      → o.parallel ≡ pos 1
      → history t (scheduler t o) (until_wait e) (new_scheduler t o w none) ≡ waiting_state w
  unfolding history step run_at_step run_step work_at_step work_step new_scheduler Nest.new
      Nest.spawn_locked
  reaches_wait w e h =
      ap
        (λ n.
          history t (scheduler t o)
            (run_at 0 ∷ run_at 0 ∷ work_at 0 e ∷ work_at 0 e ∷ work_at 0 e ∷ [])
            (spawning_state w (rounds n)))
        h
      ∙ ap (history t (scheduler t o) (work_at 0 e ∷ [])) (sees_none w e)

  stalls :
      (w : W) (v : T) (e : Outcome Err) (m : ℕ)
      → o.max_pending ≡ pos (suc m)
      → history t (scheduler t o) (push_then_wait v e) (waiting_state w) ≡ stalled w v
  unfolding history step push_at_step push_step work_at_step work_step broadcast wake_one Nest.new
  stalls w v e m h = ground arith

  -- A step of a goroutine or of a timer that is there already: nobody calls `Push`, `Run` or
  -- `Close`, and the context given to `Run` does not end.
  abbrev pub is_internal : Event T (Outcome Err) Err → Bool
  is_internal (push _) = false
  is_internal run = false
  is_internal close = false
  is_internal (parent_done _) = false
  is_internal _ = true

  abbrev pub AllInternal : List (Event T (Outcome Err) Err) → Type 0
  AllInternal [] = Unit {0}
  AllInternal (e ∷ es) = (is_internal e ≡ true) × AllInternal es

  stalled-step :
      (w : W) (v : T) (e : Event T (Outcome Err) Err)
      → is_internal e ≡ true
      → step t (scheduler t o) e (stalled w v) ≡ stalled w v
  unfolding step push_at_step push_step work_at_step work_step run_at_step run_step close_at_step
      nest_step wake_step Nest.new Nest.step Nest.advance_close Nest.watch
  stalled-step w v (push_at zero) h = refl
  stalled-step w v (push_at (suc i)) h = refl
  stalled-step w v (work_at zero r) h = refl
  stalled-step w v (work_at (suc i) r) h = refl
  stalled-step w v (run_at zero) h = refl
  stalled-step w v (run_at (suc i)) h = refl
  stalled-step w v e h = ground arith

  stalled_for_good :
      (w : W) (v : T) (es : List (Event T (Outcome Err) Err))
      → AllInternal es
      → history t (scheduler t o) es (stalled w v) ≡ stalled w v
  unfolding history
  stalled_for_good w v [] h = refl
  stalled_for_good w v (e ∷ es) h =
      ap (history t (scheduler t o) es) (stalled-step w v e h.0) ∙ stalled_for_good w v es h.1

  one_item : (v : T) → items (t.push v (t.new o.mode)) ≡ v ∷ []
  one_item v = ground (arith, l.items-push v (t.new o.mode), l.items-new o.mode)

  -- A wake-up is lost. With one worker (the default) and room for a task, a new scheduler has a
  -- history in which `Push` of any value returns no error, the value is in the queue, and the worker
  -- sleeps; and this lasts in every continuation in which nobody calls `Push`, `Run` or `Close` and
  -- the context does not end. The accepted job is not started.
  pub lost_wakeup :
      (w : W) (v : T) (r : Outcome Err) (m : ℕ) (es : List (Event T (Outcome Err) Err))
      → o.parallel ≡ pos 1
      → o.max_pending ≡ pos (suc m)
      → AllInternal es
      → let s =
          history t
            (scheduler t o)
            (until_wait r ++ (push_then_wait v r ++ es))
            (new_scheduler t o w none) in
        (s.pushers ≡ record { value = v; at = returned none } ∷ [])
        × (items s.pool.tasks ≡ v ∷ [])
        × (s.workers ≡ asleep ∷ [])
        × (s.pool.taken ≡ [])
  lost_wakeup w v r m es one_worker room quiet = rw reaches (refl, one_item v, refl, refl)
    where
      k : Scheme S T (Outcome Err) (Exits W) Err
      k = scheduler t o

      reaches :
          history t k (until_wait r ++ (push_then_wait v r ++ es)) (new_scheduler t o w none)
          ≡ stalled w v
      reaches =
          history-append t k (until_wait r) (push_then_wait v r ++ es) (new_scheduler t o w none)
          ∙ ap (history t k (push_then_wait v r ++ es)) (reaches_wait w r one_worker)
          ∙ history-append t k (push_then_wait v r) es (waiting_state w)
          ∙ ap (history t k es) (stalls w v r m room)
          ∙ stalled_for_good w v es quiet
