-- ===== src/Schedx/Pool/Invariant.antt =====
-- pkg/schedx: a property of the pool alone that the steps of `Push` and of the workers keep holds
-- after every history.
use concx.Prelude.{Bool, true, Option, none, some, List, [], ◌∷◌, get_elem?, suc, ℕ, if_elim}
use concx.Codex.{Codex}
use concx.Nest
use concx.Nest.Owner.{KeptByHooks, step-keeps}
use concx.Schedx.Tasks.{Tasks}
use concx.Schedx.Pool.{Pool, PushPc, WorkPc, push_step, work_step}
use concx.Schedx.Pool.System.{
  System, Pusher, RunPc, starting, spawning, failing, refusing, awaiting, ClosePc, begun, canceling,
  joining, spawned, Scheme, Event, push, run, close, push_at, work_at, run_at, close_at, advance,
  timer, deadline, watch_inherited, watch_dispatched, parent_done, wake, nest_canceled,
  push_at_step, work_at_step, run_step, run_at_step, close_step, close_at_step, nest_step,
  wake_step, step, history,
}

module _ {ℓ} {S T E W Err : Type 0} ⦃x : Codex Err⦄ (t : Tasks S T) (k : Scheme S T E W Err)
    (P : Pool S T E W → Type ℓ) where
  -- What has to be shown: each kind of step keeps the property.
  pub record Keeps : Type ℓ where
    pub by_push :
        (b : Bool) (v : T) (at : PushPc Err) (p : Pool S T E W)
        → P p
        → P (push_step t k.config b v at p).0
    pub by_work :
        (b : Bool) (e : E) (at : WorkPc T) (p : Pool S T E W)
        → P p
        → P (work_step t k.config b e at p).0
    pub by_run : (p : Pool S T E W) → P p → P (record p { running = true })
    pub by_note : (p : Pool S T E W) (e : Err) → P p → P (record p { world = k.note e p.world })
    pub by_hooks : KeptByHooks P k.nest_options

  module _ (keeps : Keeps) where
    push_at-keeps :
        (i : ℕ) (c : Option (Pusher T Err)) (s : System S T E W Err)
        → P s.pool
        → P (push_at_step t k i c s).pool
    unfolding push_at_step
    push_at-keeps i none s h = h
    push_at-keeps i (some c) s h = keeps.by_push (nest_canceled s.nest) c.value c.at s.pool h

    work_at-keeps :
        (i : ℕ) (e : E) (w : Option (WorkPc T)) (s : System S T E W Err)
        → P s.pool
        → P (work_at_step t k i e w s).pool
    unfolding work_at_step
    work_at-keeps i e none s h = h
    work_at-keeps i e (some w) s h = keeps.by_work (nest_canceled s.nest) e w s.pool h

    -- By the pool of a state.
    abbrev Q : System S T E W Err → Type ℓ
    Q s = P s.pool

    spawned-keeps :
        (s : System S T E W Err) (i m : ℕ) (n : Nest.State Err) (e : Option Err)
        → P s.pool
        → Q (spawned t k s i m (n, e))
    spawned-keeps s i m n none h = h
    spawned-keeps s i m n (some e) h = h

    run_step-keeps :
        (i : ℕ) (r : RunPc Err) (n : Option (Nest.State Err)) (s : System S T E W Err)
        → P s.pool
        → Q (run_step t k i r n s)
    unfolding run_step
    run_step-keeps i starting n s h = if_elim Q s.pool.running _ _ h (keeps.by_run s.pool h)
    run_step-keeps i (spawning (suc m)) (some n) s h =
        let (n', e) = Nest.spawn_locked n in
        if_elim Q (Nest.is_free n.phase) _ _ (spawned-keeps s i m n' e h) h
    run_step-keeps i (failing e) n s h = keeps.by_note s.pool (k.run_cause e) h
    run_step-keeps i (refusing e) (some n) s h = if_elim Q (Nest.is_free n.phase) _ _ h h
    run_step-keeps i (awaiting e) (some n) s h = if_elim Q n.done _ _ h h
    run_step-keeps i r n s h = h

    run_at-keeps :
        (i : ℕ) (r : Option (RunPc Err)) (s : System S T E W Err)
        → P s.pool
        → Q (run_at_step t k i r s)
    unfolding run_at_step
    run_at-keeps i none s h = h
    run_at-keeps i (some r) s h = run_step-keeps i r s.nest s h

    close_step-keeps :
        (i : ℕ) (c : ClosePc Err) (n : Option (Nest.State Err)) (s : System S T E W Err)
        → P s.pool
        → Q (close_step t k i c n s)
    unfolding close_step
    close_step-keeps i begun (some n) s h = keeps.by_note s.pool _ h
    close_step-keeps i canceling (some n) s h = if_elim Q (Nest.is_free n.phase) _ _ h h
    close_step-keeps i joining (some n) s h = if_elim Q n.done _ _ h h
    close_step-keeps i c n s h = h

    close_at-keeps :
        (i : ℕ) (c : Option (ClosePc Err)) (s : System S T E W Err)
        → P s.pool
        → Q (close_at_step t k i c s)
    unfolding close_at_step
    close_at-keeps i none s h = h
    close_at-keeps i (some c) s h = close_step-keeps i c s.nest s h

    nest_step-keeps :
        (e : Nest.Event Err) (n : Option (Nest.State Err)) (s : System S T E W Err)
        → P s.pool
        → P (nest_step t k e n s).pool
    unfolding nest_step
    nest_step-keeps e none s h = h
    nest_step-keeps e (some n) s h = step-keeps P k.nest_options e n s.pool keeps.by_hooks h

    wake_step-keeps :
        (b : Bool) (n : Option (Nest.State Err)) (s : System S T E W Err)
        → P s.pool
        → P (wake_step t k b n s).pool
    unfolding wake_step
    wake_step-keeps true (some n) s h = if_elim Q n.close_ctx_done _ _ h h
    wake_step-keeps b n s h = h

    pub step_keeps : (e : Event T E Err) (s : System S T E W Err) → P s.pool → Q (step t k e s)
    unfolding step
    step_keeps (push v) s h = h
    step_keeps run s h = h
    step_keeps close s h = h
    step_keeps (push_at i) s h = push_at-keeps i (get_elem? s.pushers i) s h
    step_keeps (work_at i e) s h = work_at-keeps i e (get_elem? s.workers i) s h
    step_keeps (run_at i) s h = run_at-keeps i (get_elem? s.runners i) s h
    step_keeps (close_at i) s h = close_at-keeps i (get_elem? s.closers i) s h
    step_keeps advance s h = nest_step-keeps Nest.advance s.nest s h
    step_keeps timer s h = nest_step-keeps Nest.timer s.nest s h
    step_keeps deadline s h = nest_step-keeps Nest.deadline s.nest s h
    step_keeps watch_inherited s h = nest_step-keeps Nest.watch_inherited s.nest s h
    step_keeps watch_dispatched s h = nest_step-keeps Nest.watch_dispatched s.nest s h
    step_keeps (parent_done c) s h = nest_step-keeps (Nest.parent_done c) s.nest _ h
    step_keeps wake s h = wake_step-keeps s.pool.waking s.nest s h

    pub history_keeps :
        (es : List (Event T E Err)) (s : System S T E W Err) → P s.pool → Q (history t k es s)
    unfolding history
    history_keeps [] s h = h
    history_keeps (e ∷ es) s h = history_keeps es (step t k e s) (step_keeps e s h)
