-- ===== src/Schedx/Pool/Workers.antt =====
-- pkg/schedx: how many workers there are, after every history.
use concx.Prelude.{
  ℕ, ◌≡◌, refl, sym, ◌∙◌, inl, inr, Bool, true, false, Option, none, some, List, [], ◌∷◌, ◌++◌,
  arith, get_elem?, total, total-append, total-one, if_elim, if_split,
}
use concx.Codex.{Codex}
use concx.Nest
use concx.Nest.Invariant
use concx.Nest.Owner.{KeptByHooks, step-keeps}
use concx.Nest.Closing.{IsOwn, own-live}
use concx.Schedx.Tasks.{Tasks}
use concx.Schedx.Pool.{Pool, WorkPc, broadcast}
use concx.Schedx.Pool.System.{
  System, RunPc, starting, ClosePc, closed, begun, canceling, joining, Scheme, Event, push, run,
  close, push_at, work_at, run_at, close_at, advance, timer, deadline, watch_inherited,
  watch_dispatched, parent_done, wake, run_at_step, close_step, close_at_step, nest_step, wake_step,
  step, history,
}
use concx.Schedx.Pool.Counts.{one}
use concx.Schedx.Pool.Staffing.{
  left, making, alive-broadcast, one-broadcast, parallel, NestCounts, Staffed, push_at-Staffed,
  work_at-Staffed, some_kept, counts_at,
}
use concx.Schedx.Pool.Runners.{cancel-counts, run_step-Staffed}

module _ {S T E W Err : Type 0} ⦃x : Codex Err⦄ (t : Tasks S T) (k : Scheme S T E W Err) where
  -- A step that starts and ends no worker, and makes no nest.
  elsewhere :
      (s : System S T E W Err) (n : Option (Nest.State Err)) (p : Pool S T E W)
      (ws : List (WorkPc T)) (cs : List (ClosePc Err)) (c : Option Err)
      → NestCounts t k n ws
      → total one ws ≡ total one s.workers
      → (s.nest ≡ none → n ≡ none)
      → (s.pool.running ≡ true → p.running ≡ true)
      → Staffed t k s
      → Staffed t k (record s { pool = p; nest = n; workers = ws; closers = cs; parent = c })
  elsewhere s n p ws cs c counts many none_kept same v = record {
    counted = counts;
    few = omega (arith, many, v.few);
    maker = v.maker;
    unmade = elim v.unmade [ inl h ↦ inl h | inr h ↦ inr (none_kept h) ];
    fresh = elim v.fresh [
      | inl h ↦ inl (same h)
      | inr h ↦ inr (none_kept h.0, many ∙ h.1, h.2, h.3)
    ];
  }

  close_step-Staffed :
      (i : ℕ) (c : ClosePc Err) (n : Option (Nest.State Err)) (s : System S T E W Err)
      → s.nest ≡ n
      → Staffed t k s
      → Staffed t k (close_step t k i c n s)
  unfolding close_step
  close_step-Staffed i begun none s f v =
      elsewhere s s.nest s.pool s.workers _ s.parent v.counted refl (λ h. h) (λ h. h) v
  close_step-Staffed i begun (some n) s f v =
      elsewhere s s.nest _ s.workers _ s.parent v.counted refl (λ h. h) (λ h. h) v
  close_step-Staffed i canceling none s f v = v
  close_step-Staffed i canceling (some n) s f v =
      if_split (Staffed t k) (Nest.is_free n.phase) _ s
        (λ g.
          elsewhere s _ s.pool s.workers _ s.parent
            (cancel-counts t k _ n s.workers g (counts_at t k s (some n) f v)) refl
            (some_kept t k s n _ f) (λ h. h) v)
        (λ g. v)
  close_step-Staffed i joining none s f v = v
  close_step-Staffed i joining (some n) s f v =
      if_elim (Staffed t k) n.done _ s
        (elsewhere s s.nest s.pool s.workers _ s.parent v.counted refl (λ h. h) (λ h. h) v) v
  close_step-Staffed i (closed e) n s f v = v

  broadcast-counts :
      (n : Option (Nest.State Err)) (ws : List (WorkPc T))
      → NestCounts t k n ws
      → NestCounts t k n (broadcast ws)
  broadcast-counts none ws h = one-broadcast ws ∙ h
  broadcast-counts (some n) ws h = (h.0 ∙ sym (alive-broadcast ws), h.1)

  wake_step-Staffed :
      (b : Bool) (n : Option (Nest.State Err)) (s : System S T E W Err)
      → Staffed t k s
      → Staffed t k (wake_step t k b n s)
  unfolding wake_step
  wake_step-Staffed false n s v = v
  wake_step-Staffed true none s v = v
  wake_step-Staffed true (some n) s v = if_elim (Staffed t k) n.close_ctx_done s _ v (
      elsewhere s s.nest s.pool (broadcast s.workers) s.closers s.parent
        (broadcast-counts s.nest s.workers v.counted) (one-broadcast s.workers) (λ h. h) (λ h. h) v)

  module _ (hooks : KeptByHooks (λ p. p.running ≡ true) k.nest_options) where
    nest_step-Staffed :
        (e : Nest.Event Err) (n : Option (Nest.State Err)) (s : System S T E W Err)
        → IsOwn k.nest_options e
        → s.nest ≡ n
        → Staffed t k s
        → Staffed t k (nest_step t k e n s)
    unfolding nest_step
    nest_step-Staffed e none s own f v = v
    nest_step-Staffed e (some n) s own f v =
        let counts = counts_at t k s (some n) f v in
        elsewhere s _ _ s.workers s.closers s.parent
          (
            own-live k.nest_options e n s.pool own ∙ counts.0,
            Invariant.step-Inv k.nest_options e n s.pool counts.1,
          )
          refl (some_kept t k s n _ f)
          (step-keeps (λ p. p.running ≡ true) k.nest_options e n s.pool hooks) v

    with_parent :
        (c : Option Err) (s : System S T E W Err)
        → Staffed t k s
        → Staffed t k (record s { parent = c })
    with_parent c s v =
        elsewhere s s.nest s.pool s.workers s.closers c v.counted refl (λ h. h) (λ h. h) v

    begin_run :
        (s : System S T E W Err)
        → Staffed t k s
        → Staffed t k (record s { runners = s.runners ++ starting ∷ [] })
    begin_run s v =
        let new_one : RunPc Err = starting in
        let lefts = total-append (left (parallel t k)) s.runners (starting ∷ []) in
        let makes = total-append making s.runners (starting ∷ []) in
        let no_left = total-one (left (parallel t k)) new_one in
        let no_making = total-one making new_one in
        record {
          counted = v.counted;
          few = omega (arith, v.few, lefts, no_left);
          maker = omega (arith, v.maker, makes, no_making);
          unmade = elim v.unmade [
            | inl h ↦ inl (omega (arith, h, makes, no_making))
            | inr h ↦ inr h
          ];
          fresh = elim v.fresh [
            | inl h ↦ inl h
            | inr h ↦
                inr (
                  h.0,
                  h.1,
                  omega (arith, h.2, lefts, no_left),
                  omega (arith, h.3, makes, no_making),
                )
          ];
        }

    run_at-Staffed :
        (i : ℕ) (r : Option (RunPc Err)) (s : System S T E W Err)
        → get_elem? s.runners i ≡ r
        → Staffed t k s
        → Staffed t k (run_at_step t k i r s)
    unfolding run_at_step
    run_at-Staffed i none s e v = v
    run_at-Staffed i (some r) s e v = run_step-Staffed t k i r s.nest s e refl v

    close_at-Staffed :
        (i : ℕ) (c : Option (ClosePc Err)) (s : System S T E W Err)
        → Staffed t k s
        → Staffed t k (close_at_step t k i c s)
    unfolding close_at_step
    close_at-Staffed i none s v = v
    close_at-Staffed i (some c) s v = close_step-Staffed i c s.nest s refl v

    step-Staffed :
        (e : Event T E Err) (s : System S T E W Err) → Staffed t k s → Staffed t k (step t k e s)
    unfolding step
    step-Staffed (push w) s v = record {
      counted = v.counted;
      few = v.few;
      maker = v.maker;
      unmade = v.unmade;
      fresh = v.fresh;
    }
    step-Staffed run s v = begin_run s v
    step-Staffed close s v =
        elsewhere s s.nest s.pool s.workers _ s.parent v.counted refl (λ h. h) (λ h. h) v
    step-Staffed (push_at i) s v = push_at-Staffed t k i (get_elem? s.pushers i) s v
    step-Staffed (work_at i e) s v = work_at-Staffed t k i e (get_elem? s.workers i) s refl v
    step-Staffed (run_at i) s v = run_at-Staffed i (get_elem? s.runners i) s refl v
    step-Staffed (close_at i) s v = close_at-Staffed i (get_elem? s.closers i) s v
    step-Staffed advance s v = nest_step-Staffed Nest.advance s.nest s tt refl v
    step-Staffed timer s v = nest_step-Staffed Nest.timer s.nest s tt refl v
    step-Staffed deadline s v = nest_step-Staffed Nest.deadline s.nest s tt refl v
    step-Staffed watch_inherited s v = nest_step-Staffed Nest.watch_inherited s.nest s tt refl v
    step-Staffed watch_dispatched s v = nest_step-Staffed Nest.watch_dispatched s.nest s tt refl v
    step-Staffed (parent_done c) s v =
        nest_step-Staffed (Nest.parent_done c) s.nest _ tt refl (with_parent _ s v)
    step-Staffed wake s v = wake_step-Staffed s.pool.waking s.nest s v

    pub history-Staffed :
        (es : List (Event T E Err)) (s : System S T E W Err)
        → Staffed t k s
        → Staffed t k (history t k es s)
    unfolding history
    history-Staffed [] s v = v
    history-Staffed (e ∷ es) s v = history-Staffed es (step t k e s) (step-Staffed e s v)
