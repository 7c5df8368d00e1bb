-- ===== src/Schedx/Pool/Pending.antt =====
-- The counter of pending tasks in pkg/schedx: it counts the queue, and bounds it.
use concx.Prelude.{
  ℕ, ◌+◌, ◌-◌, ◌≡◌, refl, Bool, true, Option, none, some, List, [], ◌∷◌, ap, ◌∙◌, sym, arith,
  get_elem?, total, total-append, total-one, total-set, total-get, All, All-append_one, All-get,
  All-set, subst, suc,
}
use concx.Prelude.Int.{pos}
use concx.Codex.{Codex}
use concx.Nest
use concx.Nest.Owner.{KeptByHooks, step-keeps}
use concx.Schedx.Tasks.{Tasks, TasksLaws}
use concx.Schedx.Pool.{Pool, PushPc, WorkPc, entered, idle, push_step, work_step}
use concx.Schedx.Pool.System.{
  System, Pusher, Scheme, Event, push, run, close, push_at, work_at, run_at, close_at, advance,
  timer, deadline, watch_inherited, watch_dispatched, parent_done, wake, step, history,
  push_at_step, work_at_step, run_at_step, run_step, put_pusher, nest_canceled, close_at_step,
  close_step, nest_step, wake_step, RunPc, spawning, ClosePc, canceling,
}
use concx.Schedx.Pool.Counts.{
  reserved, uncounted, reserved_by, one, uncounted-broadcast, IsWithin, IsBelow, push_step-counts,
  work_step-counts,
}

module _ {S T E W Err : Type 0} ⦃x : Codex Err⦄ (t : Tasks S T) (l : TasksLaws t)
    (k : Scheme S T E W Err) (apart : ℕ) where
  open l use {items}

  -- The counter is what the queue holds, with the values on their way into it and out of it, those
  -- that others than the workers take out among them; it is
  -- within the limit; and whoever is about to count one up has read it below the limit.
  pub record Inv (s : System S T E W Err) : Type 0 where
    pub counted :
        s.pool.pending
        ≡ pos (
            total one (items s.pool.tasks)
            + total reserved_by s.pushers
            + total uncounted s.workers
            + apart)
    pub within : IsWithin k.config.max_pending s.pool.pending
    pub below : All (λ (c : Pusher T Err). IsBelow k.config.max_pending c.at) s.pushers

  -- The parts that the invariant reads are the same.
  abbrev IsSame : System S T E W Err → System S T E W Err → Type 0
  IsSame s u =
      (u.pool.pending ≡ s.pool.pending)
      × (u.pool.tasks ≡ s.pool.tasks)
      × (u.pushers ≡ s.pushers)
      × (total uncounted u.workers ≡ total uncounted s.workers)

  same-Inv : (s u : System S T E W Err) → IsSame s u → Inv s → Inv u
  same-Inv s u e v = record {
    counted = ground (arith, v.counted);
    within = subst (IsWithin k.config.max_pending) (sym e.0) v.within;
    below = subst (All (λ (c : Pusher T Err). IsBelow k.config.max_pending c.at)) (sym e.2) v.below;
  }

  run_step-IsSame :
      (i : ℕ) (r : RunPc Err) (n : Option (Nest.State Err)) (s : System S T E W Err)
      → IsSame s (run_step t k i r n s)
  unfolding run_step
  run_step-IsSame i (spawning (suc m)) (some n) s =
      let w : WorkPc T = idle in
      ground (arith, total-append uncounted s.workers (w ∷ []), total-one uncounted w)
  run_step-IsSame i r n s = ground arith

  close_step-IsSame :
      (i : ℕ) (c : ClosePc Err) (n : Option (Nest.State Err)) (s : System S T E W Err)
      → IsSame s (close_step t k i c n s)
  unfolding close_step
  close_step-IsSame i canceling (some n) s = ground arith
  close_step-IsSame i c n s = ground arith

  run_at-IsSame :
      (i : ℕ) (r : Option (RunPc Err)) (s : System S T E W Err) → IsSame s (run_at_step t k i r s)
  unfolding run_at_step
  run_at-IsSame i none s = (refl, refl, refl, refl)
  run_at-IsSame i (some r) s = run_step-IsSame i r s.nest s

  close_at-IsSame :
      (i : ℕ) (c : Option (ClosePc Err)) (s : System S T E W Err)
      → IsSame s (close_at_step t k i c s)
  unfolding close_at_step
  close_at-IsSame i none s = (refl, refl, refl, refl)
  close_at-IsSame i (some c) s = close_step-IsSame i c s.nest s

  wake_step-IsSame :
      (b : Bool) (n : Option (Nest.State Err)) (s : System S T E W Err)
      → IsSame s (wake_step t k b n s)
  unfolding wake_step
  wake_step-IsSame true (some n) s = ground (arith, uncounted-broadcast s.workers)
  wake_step-IsSame b n s = ground arith

  put_pusher-Inv :
      (i : ℕ) (c : Pusher T Err) (s : System S T E W Err) (q : Pool S T E W) (at : PushPc Err)
      → get_elem? s.pushers i ≡ some c
      → Inv s
      → ((r : ℕ)
          → s.pool.pending ≡ pos (total one (items s.pool.tasks) + reserved c.at + r)
          → (q.pending ≡ pos (total one (items q.tasks) + reserved at + r))
            × IsWithin k.config.max_pending q.pending
            × IsBelow k.config.max_pending at)
      → Inv (put_pusher t k s i c (q, at))
  put_pusher-Inv i c s q at e v counts =
      let c' : Pusher T Err = record c { at = at } in
      let r : ℕ = total reserved_by s.pushers - reserved c.at + total uncounted s.workers + apart in
      let small = total-get reserved_by s.pushers i c e in
      let moved = total-set reserved_by s.pushers i c c' e in
      let (sum, fits, under) = counts r (v.counted ∙ ap pos (omega arith)) in
      record {
        counted = sum ∙ ap pos (ground (arith, uncounted-broadcast s.workers));
        within = fits;
        below =
            All-set (λ (d : Pusher T Err). IsBelow k.config.max_pending d.at) s.pushers i c' v.below
              under;
      }

  push_at-Inv :
      (i : ℕ) (c : Option (Pusher T Err)) (s : System S T E W Err)
      → get_elem? s.pushers i ≡ c
      → Inv s
      → Inv (push_at_step t k i c s)
  unfolding push_at_step
  push_at-Inv i none s e v = v
  push_at-Inv i (some c) s e v =
      let b : Bool = nest_canceled s.nest in
      let (q, at) = push_step t k.config b c.value c.at s.pool in
      put_pusher-Inv i c s q at e v λ r h.
        push_step-counts t l k.config b c.value c.at s.pool r h v.within (
          All-get (λ (d : Pusher T Err). IsBelow k.config.max_pending d.at) s.pushers i c e v.below)

  work_at-Inv :
      (i : ℕ) (j : E) (w : Option (WorkPc T)) (s : System S T E W Err)
      → get_elem? s.workers i ≡ w
      → Inv s
      → Inv (work_at_step t k i j w s)
  unfolding work_at_step
  work_at-Inv i j none s e v = v
  work_at-Inv i j (some w) s e v =
      let b : Bool = nest_canceled s.nest in
      let (q, w') = work_step t k.config b j w s.pool in
      let r : ℕ = total uncounted s.workers - uncounted w + total reserved_by s.pushers + apart in
      let small = total-get uncounted s.workers i w e in
      let moved = total-set uncounted s.workers i w w' e in
      let (sum, fits) =
        work_step-counts t l k.config b j w s.pool r (v.counted ∙ ap pos (omega arith)) v.within in
      record { counted = sum ∙ ap pos (omega arith); within = fits; below = v.below }

  -- The hooks of the nest keep the counter in step with the queue, and within its limit.
  abbrev pub HooksCount : Type 0
  HooksCount =
      (r : ℕ)
      → KeptByHooks
          (λ (p : Pool S T E W).
            (p.pending ≡ pos (total one (items p.tasks) + r))
            × IsWithin k.config.max_pending p.pending)
          k.nest_options

  module _ (hooks : HooksCount) where
    nest_step-Inv :
        (e : Nest.Event Err) (n : Option (Nest.State Err)) (s : System S T E W Err)
        → Inv s
        → Inv (nest_step t k e n s)
    unfolding nest_step
    nest_step-Inv e none s v = v
    nest_step-Inv e (some n) s v =
        let r : ℕ = total reserved_by s.pushers + total uncounted s.workers + apart in
        let (sum, fits) =
          step-keeps
            (λ (p : Pool S T E W).
              (p.pending ≡ pos (total one (items p.tasks) + r))
              × IsWithin k.config.max_pending p.pending)
            k.nest_options e n s.pool (hooks r) (v.counted ∙ ap pos (omega arith), v.within) in
        record { counted = sum ∙ ap pos (omega arith); within = fits; below = v.below }

    pub step-Inv : (e : Event T E Err) (s : System S T E W Err) → Inv s → Inv (step t k e s)
    unfolding step
    step-Inv (push c) s v =
        let d : Pusher T Err = record { value = c; at = entered } in
        record {
          counted =
              v.counted
              ∙ ap pos (
                  omega
                    (arith, total-append reserved_by s.pushers (d ∷ []), total-one reserved_by d));
          within = v.within;
          below =
              All-append_one (λ (e : Pusher T Err). IsBelow k.config.max_pending e.at) s.pushers d
                v.below tt;
        }
    step-Inv run s v = same-Inv s _ (refl, refl, refl, refl) v
    step-Inv close s v = same-Inv s _ (refl, refl, refl, refl) v
    step-Inv (push_at i) s v = push_at-Inv i (get_elem? s.pushers i) s refl v
    step-Inv (work_at i j) s v = work_at-Inv i j (get_elem? s.workers i) s refl v
    step-Inv (run_at i) s v = same-Inv s _ (run_at-IsSame i (get_elem? s.runners i) s) v
    step-Inv (close_at i) s v = same-Inv s _ (close_at-IsSame i (get_elem? s.closers i) s) v
    step-Inv advance s v = nest_step-Inv Nest.advance s.nest s v
    step-Inv timer s v = nest_step-Inv Nest.timer s.nest s v
    step-Inv deadline s v = nest_step-Inv Nest.deadline s.nest s v
    step-Inv watch_inherited s v = nest_step-Inv Nest.watch_inherited s.nest s v
    step-Inv watch_dispatched s v = nest_step-Inv Nest.watch_dispatched s.nest s v
    step-Inv (parent_done c) s v =
        nest_step-Inv (Nest.parent_done c) s.nest _ (same-Inv s _ (refl, refl, refl, refl) v)
    step-Inv wake s v = same-Inv s _ (wake_step-IsSame s.pool.waking s.nest s) v

    pub history-Inv :
        (es : List (Event T E Err)) (s : System S T E W Err) → Inv s → Inv (history t k es s)
    unfolding history
    history-Inv [] s v = v
    history-Inv (e ∷ es) s v = history-Inv es (step t k e s) (step-Inv e s v)
