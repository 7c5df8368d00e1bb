-- ===== src/Schedx/Pool/Past.antt =====
-- pkg/schedx: what the goroutines of a scheduler do to its nest never takes a close past its hook; the
-- step at the hook alone does.
use concx.Prelude.{
  ℕ, suc, ◌≡◌, refl, Bool, true, false, Option, none, some, if_elim, get_elem?, if◌then◌else◌,
}
use concx.Codex.{Codex}
use concx.Nest
use concx.Nest.Past.{
  is_past, is_at_hook, cancel-IsNoFurther, wg_done-IsNoFurther, spawn-IsNoFurther, step-IsNoFurther,
}
use concx.Schedx.Tasks.{Tasks}
use concx.Schedx.Pool.{WorkPc}
use concx.Schedx.Pool.System.{
  System, Scheme, Pusher, Event, push, run, close, push_at, work_at, run_at, close_at, advance,
  timer, deadline, watch_inherited, watch_dispatched, parent_done, wake, RunPc, starting,
  making_nest, spawning, refusing, awaiting, is_opening, ClosePc, begun, canceling, joining,
  spawned, is_leaving, with_nest, push_at_step, work_at_step, run_step, run_at_step, close_step,
  close_at_step, nest_step, wake_step, step,
}

abbrev pub close_is_past : {Err : Type 0} → Option (Nest.State Err) → Bool
close_is_past none = false
close_is_past (some n) = is_past n

-- The step at the hook.
abbrev pub at_hook : {T E Err : Type 0} → Event T E Err → Bool → Bool
at_hook advance b = b
at_hook e b = false

done_past :
    {Err : Type 0} (b : Bool) (n : Option (Nest.State Err))
    → close_is_past (if b then with_nest Nest.wg_done n else n) ≡ true
    → close_is_past n ≡ true
done_past true none h = h
done_past true (some n) h = wg_done-IsNoFurther n h
done_past false n h = h

module _ {S T E W Err : Type 0} ⦃x : Codex Err⦄ (t : Tasks S T) (k : Scheme S T E W Err) where
  abbrev IsPast : System S T E W Err → Type 0
  IsPast s = close_is_past s.nest ≡ true

  push_at-IsPast :
      (i : ℕ) (c : Option (Pusher T Err)) (s : System S T E W Err)
      → IsPast (push_at_step t k i c s)
      → IsPast s
  unfolding push_at_step
  push_at-IsPast i none s h = h
  push_at-IsPast i (some c) s h = h

  work_at-IsPast :
      (i : ℕ) (e : E) (w : Option (WorkPc T)) (s : System S T E W Err)
      → IsPast (work_at_step t k i e w s)
      → IsPast s
  unfolding work_at_step
  work_at-IsPast i e none s h = h
  work_at-IsPast i e (some w) s h = done_past (is_leaving w) s.nest h

  spawned-IsPast :
      (s : System S T E W Err) (i m : ℕ) (n : Nest.State Err) (e : Option Err)
      → IsPast (spawned t k s i m (n, e))
      → is_past n ≡ true
  spawned-IsPast s i m n none h = h
  spawned-IsPast s i m n (some e) h = h

  -- With the nest that a step of `Run` or of `Close` finds.
  run_step-IsPast :
      (i : ℕ) (r : RunPc Err) (n : Option (Nest.State Err)) (s : System S T E W Err)
      → (IsPast s → close_is_past n ≡ true)
      → (close_is_past n ≡ true → IsPast s)
      → IsPast (run_step t k i r n s)
      → IsPast s
  unfolding run_step Nest.new
  run_step-IsPast i starting n s f g =
      if_elim (λ u. IsPast u → IsPast s) s.pool.running _ _ (λ h. h) (λ h. h)
  run_step-IsPast i making_nest n s f g = λ h. absurd (cc)
  run_step-IsPast i (spawning (suc m)) (some n) s f g =
      if_elim (λ u. IsPast u → IsPast s) (Nest.is_free n.phase) _ _
        (λ h.
          let (n', e) = Nest.spawn_locked n in
          g (spawn-IsNoFurther n (spawned-IsPast s i m n' e h)))
        (λ h. h)
  run_step-IsPast i (refusing e) (some n) s f g =
      if_elim (λ u. IsPast u → IsPast s) (Nest.is_free n.phase) _ _
        (λ h. g (cancel-IsNoFurther (some (k.run_cause e)) n h)) (λ h. h)
  run_step-IsPast i (awaiting e) (some n) s f g =
      if_elim (λ u. IsPast u → IsPast s) n.done _ _ (λ h. h) (λ h. h)
  run_step-IsPast i r n s f g = λ h. h

  run_at-IsPast :
      (i : ℕ) (r : Option (RunPc Err)) (s : System S T E W Err)
      → IsPast (run_at_step t k i r s)
      → IsPast s
  unfolding run_at_step
  run_at-IsPast i none s h = h
  run_at-IsPast i (some r) s h = run_step-IsPast i r s.nest s (λ p. p) (λ p. p) h

  close_step-IsPast :
      (i : ℕ) (c : ClosePc Err) (n : Option (Nest.State Err)) (s : System S T E W Err)
      → (close_is_past n ≡ true → IsPast s)
      → IsPast (close_step t k i c n s)
      → IsPast s
  unfolding close_step
  close_step-IsPast i canceling (some n) s g =
      if_elim (λ u. IsPast u → IsPast s) (Nest.is_free n.phase) _ _
        (λ h. g (cancel-IsNoFurther (some _) n h)) (λ h. h)
  close_step-IsPast i joining (some n) s g =
      if_elim (λ u. IsPast u → IsPast s) n.done _ _ (λ h. h) (λ h. h)
  close_step-IsPast i begun none s g = λ h. h
  close_step-IsPast i begun (some n) s g = λ h. h
  close_step-IsPast i c n s g = λ h. h

  close_at-IsPast :
      (i : ℕ) (c : Option (ClosePc Err)) (s : System S T E W Err)
      → IsPast (close_at_step t k i c s)
      → IsPast s
  unfolding close_at_step
  close_at-IsPast i none s h = h
  close_at-IsPast i (some c) s h = close_step-IsPast i c s.nest s (λ p. p) h

  abbrev at_hook_of : Nest.Event Err → Option (Nest.State Err) → Bool
  at_hook_of e none = false
  at_hook_of e (some n) = is_at_hook e n.phase

  nest_step-IsPast :
      (e : Nest.Event Err) (n : Option (Nest.State Err)) (s : System S T E W Err)
      → at_hook_of e n ≡ false
      → (close_is_past n ≡ true → IsPast s)
      → IsPast (nest_step t k e n s)
      → IsPast s
  unfolding nest_step
  nest_step-IsPast e none s f g h = h
  nest_step-IsPast e (some n) s f g h = g (step-IsNoFurther k.nest_options e n s.pool f h)

  wake_step-IsPast :
      (b : Bool) (n : Option (Nest.State Err)) (s : System S T E W Err)
      → IsPast (wake_step t k b n s)
      → IsPast s
  unfolding wake_step
  wake_step-IsPast true (some n) s =
      if_elim (λ u. IsPast u → IsPast s) n.close_ctx_done _ _ (λ h. h) (λ h. h)
  wake_step-IsPast b n s = λ h. h

  advance_hook :
      (n : Option (Nest.State Err)) → is_opening n ≡ false → at_hook_of Nest.advance n ≡ false
  advance_hook none f = refl
  advance_hook (some n) f = f

  no_hook :
      (e : Nest.Event Err)
      → ((p : Nest.Phase Err) → is_at_hook e p ≡ false)
      → (n : Option (Nest.State Err)) → at_hook_of e n ≡ false
  no_hook e f none = refl
  no_hook e f (some n) = f n.phase

  -- Only the step at the hook takes the close past it.
  pub step-past :
      (e : Event T E Err) (s : System S T E W Err)
      → at_hook e (is_opening s.nest) ≡ false
      → close_is_past (step t k e s).nest ≡ true
      → close_is_past s.nest ≡ true
  unfolding step
  step-past (push v) s f h = h
  step-past run s f h = h
  step-past close s f h = h
  step-past (push_at i) s f h = push_at-IsPast i (get_elem? s.pushers i) s h
  step-past (work_at i e) s f h = work_at-IsPast i e (get_elem? s.workers i) s h
  step-past (run_at i) s f h = run_at-IsPast i (get_elem? s.runners i) s h
  step-past (close_at i) s f h = close_at-IsPast i (get_elem? s.closers i) s h
  step-past advance s f h =
      nest_step-IsPast Nest.advance s.nest s (advance_hook s.nest f) (λ p. p) h
  step-past timer s f h =
      nest_step-IsPast Nest.timer s.nest s (no_hook Nest.timer (λ p. refl) s.nest) (λ p. p) h
  step-past deadline s f h =
      nest_step-IsPast Nest.deadline s.nest s (no_hook Nest.deadline (λ p. refl) s.nest) (λ p. p) h
  step-past watch_inherited s f h =
      nest_step-IsPast Nest.watch_inherited s.nest s
        (no_hook Nest.watch_inherited (λ p. refl) s.nest) (λ p. p) h
  step-past watch_dispatched s f h =
      nest_step-IsPast Nest.watch_dispatched s.nest s
        (no_hook Nest.watch_dispatched (λ p. refl) s.nest) (λ p. p) h
  step-past (parent_done c) s f h =
      nest_step-IsPast (Nest.parent_done c) s.nest _
        (no_hook (Nest.parent_done c) (λ p. refl) s.nest) (λ p. p) h
  step-past wake s f h = wake_step-IsPast s.pool.waking s.nest s h
