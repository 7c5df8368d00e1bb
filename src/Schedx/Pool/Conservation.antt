-- ===== src/Schedx/Pool/Conservation.antt =====
-- pkg/schedx: no pushed value is lost or made up.
use concx.Prelude.{
  ℕ, ◌+◌, ◌-◌, ◌≡◌, refl, ap, ◌∙◌, Bool, true, Option, none, some, List, [], ◌∷◌, arith, get_elem?,
  total, total-append, total-set, total-get, total-one, suc,
}
use concx.Codex.{Codex}
use concx.Nest
use concx.Nest.Owner.{KeptByHooks, step-keeps}
use concx.Schedx.Tasks.{Tasks, TasksLaws}
use concx.Schedx.Pool.{Pool, WorkPc, entered, idle, push_step, work_step}
use concx.Schedx.Pool.System.{
  System, Pusher, RunPc, spawning, ClosePc, canceling, Scheme, Event, push, run, close, push_at,
  work_at, run_at, close_at, advance, timer, deadline, watch_inherited, watch_dispatched,
  parent_done, wake, nest_canceled, push_at_step, work_at_step, run_step, run_at_step, close_step,
  close_at_step, nest_step, wake_step, step, history,
}
use concx.Schedx.Pool.History.{
  accepted_by, in_hand, in_hand-broadcast, ended, IsSplit, push_step-IsSplit, work_step-IsSplit,
}

module _ {S T E W Err : Type 0} ⦃x : Codex Err⦄ (t : Tasks S T) (l : TasksLaws t) (w : T → ℕ)
    (k : Scheme S T E W Err) (apart : ℕ) where
  open l use {items}

  -- By weight: the calls of `Push` that append their value and return no error account for what was
  -- appended; that is in the queue or taken; and what was taken is in a worker's hands, or its job
  -- has ended, or it was set apart by others.
  pub record Kept (s : System S T E W Err) : Type 0 where
    pub sent : total w s.pool.appended ≡ total (accepted_by w) s.pushers
    pub split : IsSplit t l w s.pool
    pub served :
        total w s.pool.taken ≡ total (in_hand w) s.workers + total (ended w) s.pool.finished + apart

  abbrev IsSame : System S T E W Err → System S T E W Err → Type 0
  IsSame s u =
      (u.pool.tasks ≡ s.pool.tasks)
      × (u.pool.appended ≡ s.pool.appended)
      × (u.pool.taken ≡ s.pool.taken)
      × (u.pool.finished ≡ s.pool.finished)
      × (u.pushers ≡ s.pushers)
      × (total (in_hand w) u.workers ≡ total (in_hand w) s.workers)

  IsSame-Kept : (s u : System S T E W Err) → IsSame s u → Kept s → Kept u
  IsSame-Kept s u e v = record {
    sent = ground (arith, v.sent);
    split = ground (arith, v.split);
    served = ground (arith, v.served);
  }

  run_step-IsSame :
      (i : ℕ) (r : RunPc Err) (n : Option (Nest.State Err)) (s : System S T E W Err)
      → IsSame s (run_step t k i r n s)
  unfolding run_step
  run_step-IsSame i (spawning (suc m)) (some n) s =
      let p : WorkPc T = idle in
      ground (arith, total-append (in_hand w) s.workers (p ∷ []), total-one (in_hand w) p)
  run_step-IsSame i r n s = ground arith

  run_at-IsSame :
      (i : ℕ) (r : Option (RunPc Err)) (s : System S T E W Err) → IsSame s (run_at_step t k i r s)
  unfolding run_at_step
  run_at-IsSame i none s = (refl, refl, refl, refl, refl, refl)
  run_at-IsSame i (some r) s = run_step-IsSame i r s.nest s

  close_step-IsSame :
      (i : ℕ) (c : ClosePc Err) (n : Option (Nest.State Err)) (s : System S T E W Err)
      → IsSame s (close_step t k i c n s)
  unfolding close_step
  close_step-IsSame i canceling (some n) s = ground arith
  close_step-IsSame i c n s = ground arith

  close_at-IsSame :
      (i : ℕ) (c : Option (ClosePc Err)) (s : System S T E W Err)
      → IsSame s (close_at_step t k i c s)
  unfolding close_at_step
  close_at-IsSame i none s = (refl, refl, refl, refl, refl, refl)
  close_at-IsSame i (some c) s = close_step-IsSame i c s.nest s

  wake_step-IsSame :
      (b : Bool) (n : Option (Nest.State Err)) (s : System S T E W Err)
      → IsSame s (wake_step t k b n s)
  unfolding wake_step
  wake_step-IsSame true (some n) s = ground (arith, in_hand-broadcast w s.workers)
  wake_step-IsSame b n s = ground arith

  push_at-Kept :
      (i : ℕ) (c : Option (Pusher T Err)) (s : System S T E W Err)
      → get_elem? s.pushers i ≡ c
      → Kept s
      → Kept (push_at_step t k i c s)
  unfolding push_at_step
  push_at-Kept i none s e v = v
  push_at-Kept i (some c) s e v =
      let b : Bool = nest_canceled s.nest in
      let (q, at) = push_step t k.config b c.value c.at s.pool in
      let c' : Pusher T Err = record c { at = at } in
      let r : ℕ = total (accepted_by w) s.pushers - accepted_by w c in
      let small = total-get (accepted_by w) s.pushers i c e in
      let moved = total-set (accepted_by w) s.pushers i c c' e in
      let (split, sent, same_taken, same_finished) =
        push_step-IsSplit t l w k.config b c.value c.at s.pool r v.split (v.sent ∙ omega arith) in
      record {
        sent = sent ∙ omega arith;
        split = split;
        served = ground (arith, v.served, in_hand-broadcast w s.workers);
      }

  work_at-Kept :
      (i : ℕ) (j : E) (p : Option (WorkPc T)) (s : System S T E W Err)
      → get_elem? s.workers i ≡ p
      → Kept s
      → Kept (work_at_step t k i j p s)
  unfolding work_at_step
  work_at-Kept i j none s e v = v
  work_at-Kept i j (some p) s e v =
      let b : Bool = nest_canceled s.nest in
      let (q, p') = work_step t k.config b j p s.pool in
      let r : ℕ = total (in_hand w) s.workers - in_hand w p + apart in
      let small = total-get (in_hand w) s.workers i p e in
      let moved = total-set (in_hand w) s.workers i p p' e in
      let (split, served, same_appended) =
        work_step-IsSplit t l w k.config b j p s.pool r v.split (v.served ∙ omega arith) in
      record {
        sent = ap (total w) same_appended ∙ v.sent;
        split = split;
        served = served ∙ omega arith;
      }

  -- The hooks of the nest leave the values where they are.
  abbrev pub HooksKeep : Type 0
  HooksKeep =
      (a b c : ℕ)
      → KeptByHooks
          (λ (p : Pool S T E W).
            IsSplit t l w p
            × (total w p.appended ≡ a)
            × (total w p.taken ≡ b)
            × (total (ended w) p.finished ≡ c))
          k.nest_options

  module _ (hooks : HooksKeep) where
    nest_step-Kept :
        (e : Nest.Event Err) (n : Option (Nest.State Err)) (s : System S T E W Err)
        → Kept s
        → Kept (nest_step t k e n s)
    unfolding nest_step
    nest_step-Kept e none s v = v
    nest_step-Kept e (some n) s v =
        let (split, appended, taken, finished) =
          step-keeps
            (λ (p : Pool S T E W).
              IsSplit t l w p
              × (total w p.appended ≡ total w s.pool.appended)
              × (total w p.taken ≡ total w s.pool.taken)
              × (total (ended w) p.finished ≡ total (ended w) s.pool.finished))
            k.nest_options e n s.pool (hooks _ _ _) (v.split, refl, refl, refl) in
        record { sent = appended ∙ v.sent; split = split; served = taken ∙ v.served ∙ omega arith }

    pub step-Kept : (e : Event T E Err) (s : System S T E W Err) → Kept s → Kept (step t k e s)
    unfolding step
    step-Kept (push c) s v =
        let d : Pusher T Err = record { value = c; at = entered } in
        record {
          sent =
              v.sent
              ∙ omega (
                arith,
                total-append (accepted_by w) s.pushers (d ∷ []),
                total-one (accepted_by w) d,
              );
          split = v.split;
          served = v.served;
        }
    step-Kept run s v = IsSame-Kept s _ (refl, refl, refl, refl, refl, refl) v
    step-Kept close s v = IsSame-Kept s _ (refl, refl, refl, refl, refl, refl) v
    step-Kept (push_at i) s v = push_at-Kept i (get_elem? s.pushers i) s refl v
    step-Kept (work_at i j) s v = work_at-Kept i j (get_elem? s.workers i) s refl v
    step-Kept (run_at i) s v = IsSame-Kept s _ (run_at-IsSame i (get_elem? s.runners i) s) v
    step-Kept (close_at i) s v = IsSame-Kept s _ (close_at-IsSame i (get_elem? s.closers i) s) v
    step-Kept advance s v = nest_step-Kept Nest.advance s.nest s v
    step-Kept timer s v = nest_step-Kept Nest.timer s.nest s v
    step-Kept deadline s v = nest_step-Kept Nest.deadline s.nest s v
    step-Kept watch_inherited s v = nest_step-Kept Nest.watch_inherited s.nest s v
    step-Kept watch_dispatched s v = nest_step-Kept Nest.watch_dispatched s.nest s v
    step-Kept (parent_done c) s v =
        nest_step-Kept (Nest.parent_done c) s.nest _
          (IsSame-Kept s _ (refl, refl, refl, refl, refl, refl) v)
    step-Kept wake s v = IsSame-Kept s _ (wake_step-IsSame s.pool.waking s.nest s) v

    pub history-Kept :
        (es : List (Event T E Err)) (s : System S T E W Err) → Kept s → Kept (history t k es s)
    unfolding history
    history-Kept [] s v = v
    history-Kept (e ∷ es) s v = history-Kept es (step t k e s) (step-Kept e s v)
