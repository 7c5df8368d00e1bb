-- ===== src/Schedx/Scheduler/Workers.antt =====
-- pkg/schedx/scheduler.go: how many workers there are, and that a close without a timeout leaves none.
use concx.Prelude.{
  ◌≤◌, ◌≡◌, refl, sym, ◌∙◌, inl, inr, true, false, Option, none, some, List, [], ◌∷◌, length, All,
  total, arith, ℕ, get_elem?, get_elem?-set_self, if◌then◌else◌, Bool, set, subst,
}
use concx.Prelude.Int.{rounds}
use concx.Codex.{Codex, nest, nest_close_timeout}
use concx.Nest
use concx.Nest.Invariant
use concx.Schedx.Tasks.{Tasks}
use concx.Schedx.Options.{Options}
use concx.Schedx.Pool.{WorkPc, gone}
use concx.Schedx.Pool.System.{
  System, ClosePc, joining, closed, Event, close_at, timeout_only, close_step, close_at_step, step,
  history, init,
}
use concx.Schedx.Pool.Counts.{one}
use concx.Schedx.Pool.Staffing.{Staffed, alive, counts_at}
use concx.Schedx.Pool.Workers.{history-Staffed}
use concx.Schedx.Scheduler.{Outcome, Exits, scheduler, new_scheduler, before_close, after_close}

module _ {T : Type 0} where
  length-total : (ws : List (WorkPc T)) → length ws ≡ total one ws
  unfolding total
  length-total [] = refl
  length-total (w ∷ ws) = omega (arith, length-total ws)

  none_alive : (ws : List (WorkPc T)) → total alive ws ≡ 0 → All (λ w. w ≡ gone) ws
  unfolding total
  none_alive [] h = tt
  none_alive (gone ∷ ws) h = (refl, none_alive ws (omega (arith, h)))
  none_alive (w ∷ ws) h = absurd (omega (arith, h))

module _ {S T Err W : Type 0} ⦃x : Codex Err⦄ (t : Tasks S T) (o : Options T Err W) where
  new-Staffed :
      (w : W) (parent : Option Err) → Staffed t (scheduler t o) (new_scheduler t o w parent)
  unfolding new_scheduler init total
  new-Staffed w parent = record {
    counted = refl;
    few = omega arith;
    maker = omega arith;
    unmade = inl refl;
    fresh = inr (refl, refl, refl, refl);
  }

  reached-Staffed :
      (es : List (Event T (Outcome Err) Err)) (w : W) (parent : Option Err)
      → Staffed t (scheduler t o) (history t (scheduler t o) es (new_scheduler t o w parent))
  unfolding before_close after_close
  reached-Staffed es w parent =
      history-Staffed t (scheduler t o) ((λ p h. h), (λ e p h. ground arith)) es
        (new_scheduler t o w parent) (new-Staffed w parent)

  nil_error :
      (e : Option Err)
      → some (ClosePc.closed (timeout_only t (scheduler t o) e)) ≡ some (closed none)
      → x.is_code e (nest nest_close_timeout) ≡ false
  nil_error none h = x.is_code-none (nest nest_close_timeout)
  nil_error (some e) h = ground (arith, h)

  if_closers :
      (d : Bool) (s : System S T (Outcome Err) (Exits W) Err) (cs : List (ClosePc Err)) (i : ℕ)
      → get_elem? (if d then record s { closers = cs } else s).closers i
        ≡ get_elem? (if d then cs else s.closers) i
  if_closers true s cs i = refl
  if_closers false s cs i = refl

  -- A call that returns nil after its wait has found the nest done, and no error of a timeout.
  closed_nil_if :
      (d : Bool) (i : ℕ) (e : Option Err) (cs : List (ClosePc Err))
      → get_elem? cs i ≡ some joining
      → get_elem? (if d then set cs i (closed (timeout_only t (scheduler t o) e)) else cs) i
        ≡ some (closed none)
      → (d ≡ true) × (x.is_code e (nest nest_close_timeout) ≡ false)
  closed_nil_if true i e cs j c =
      (refl, nil_error e (sym (get_elem?-set_self cs i joining _ j) ∙ c))
  closed_nil_if false i e cs j c = absurd (cc)

  closed_nil :
      (i : ℕ) (s : System S T (Outcome Err) (Exits W) Err) (m : Option (Nest.State Err))
      → s.nest ≡ m
      → get_elem? s.closers i ≡ some joining
      → get_elem? (close_step t (scheduler t o) i joining m s).closers i ≡ some (closed none)
      → (n : Nest.State Err) × (s.nest ≡ some n)
        × (n.done ≡ true)
        × (x.is_code n.err (nest nest_close_timeout) ≡ false)
  unfolding close_step
  closed_nil i s none f j c = absurd (cc)
  closed_nil i s (some n) f j c =
      let (d, e) = closed_nil_if n.done i n.err s.closers j (sym (if_closers n.done s _ i) ∙ c) in
      (n, f, d, e)

  -- After every history of a new scheduler, with any calls of `Run`, there are at most as many workers
  -- as the option `parallel` says, those that have returned included.
  pub workers_bounded :
      (es : List (Event T (Outcome Err) Err)) (w : W) (parent : Option Err)
      → length (history t (scheduler t o) es (new_scheduler t o w parent)).workers
        ≤ rounds o.parallel
  workers_bounded es w parent =
      let s = history t (scheduler t o) es (new_scheduler t o w parent) in
      omega (arith, (reached-Staffed es w parent).few, length-total s.workers)

  -- When a call of `Close` that waits for the nest returns nil, after every history of a new scheduler:
  -- every worker has returned.
  pub closed_without_workers :
      (es : List (Event T (Outcome Err) Err)) (w : W) (parent : Option Err) (i : ℕ)
      → get_elem? (history t (scheduler t o) es (new_scheduler t o w parent)).closers i
        ≡ some joining
      → get_elem?
          (step t
            (scheduler t o)
            (close_at i)
            (history t (scheduler t o) es (new_scheduler t o w parent))).closers
          i
        ≡ some (closed none)
      → All (λ p. p ≡ gone) (history t (scheduler t o) es (new_scheduler t o w parent)).workers
  unfolding step close_at_step
  closed_without_workers es w parent i j c =
      let s = history t (scheduler t o) es (new_scheduler t o w parent) in
      let (n, f, d, no_timeout) = closed_nil i s s.nest refl j (
        subst
          (λ q. get_elem? (close_at_step t (scheduler t o) i q s).closers i ≡ some (closed none)) j
          c) in
      let counts = counts_at t (scheduler t o) s (some n) f (reached-Staffed es w parent) in
      let joined = Invariant.done_facts (scheduler t o).nest_options n counts.1 d in
      elim joined.3 [ inl h ↦ none_alive s.workers (sym counts.0 ∙ h) | inr h ↦ absurd (cc) ]
