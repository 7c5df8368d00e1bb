-- ===== src/Nest/Past.antt =====
-- pkg/nest/nest.go: a close goes past its hook by the one step at the hook.
use concx.Prelude.{◌≡◌, refl, Bool, true, false, ◌||◌, Option, none, some, arith, if_elim}
use concx.Codex.{Codex}
use concx.Nest.{
  State, Phase, free, opening, cutting, waiting, leaving, after, closing, Options, Event, spawn,
  cancel, exit, advance, timer, deadline, parent_done, watch_inherited, watch_dispatched, is_free,
  is_opening, spawn_locked, cancel_locked, wg_done, advance_phase, advance_close, run_after,
  end_parent, watch, fire, step,
}

abbrev is_past_phase : {Err : Type 0} → Phase Err → Bool
is_past_phase free = false
is_past_phase (opening c) = false
is_past_phase _ = true

-- The close is past its hook, or was.
abbrev pub is_past : {Err : Type 0} → State Err → Bool
is_past n = n.done || is_past_phase n.phase

-- The step at the hook.
abbrev pub is_at_hook : {Err : Type 0} → Event Err → Phase Err → Bool
is_at_hook advance p = is_opening p
is_at_hook _ p = false

module _ {Err : Type 0} where
  -- One state of the nest is no further than another.
  abbrev pub IsNoFurther : State Err → State Err → Type 0
  IsNoFurther m n = is_past m ≡ true → is_past n ≡ true

  pub cancel-IsNoFurther : (c : Option Err) (n : State Err) → IsNoFurther (cancel_locked c n) n
  unfolding cancel_locked
  cancel-IsNoFurther c n h = ground (arith, h)

  pub cancel-done : (c : Option Err) (n : State Err) → (cancel_locked c n).done ≡ n.done
  unfolding cancel_locked
  cancel-done c n = ground arith

  watch-IsNoFurther : (c : Option Err) (n : State Err) → IsNoFurther (watch c n) n
  unfolding watch
  watch-IsNoFurther none n = λ h. h
  watch-IsNoFurther (some c) n =
      if_elim (λ m. IsNoFurther m n) (is_free n.phase) _ _ (cancel-IsNoFurther (some c) n) (λ h. h)

  pub wg_done-IsNoFurther : (n : State Err) → IsNoFurther (wg_done n) n
  unfolding wg_done
  wg_done-IsNoFurther n h = h

module _ {Err : Type 0} ⦃x : Codex Err⦄ where
  pub spawn-IsNoFurther : (n : State Err) → IsNoFurther (spawn_locked n).0 n
  unfolding spawn_locked
  spawn-IsNoFurther n =
      if_elim {A = State Err × Option Err} (λ r. IsNoFurther r.0 n) n.canceled _ _ (λ h. h) (λ h. h)

module _ {Env Err : Type 0} ⦃x : Codex Err⦄ (o : Options Env Err) where
  past_phase :
      (n : State Err) (p : Phase Err) → n.phase ≡ p → is_past_phase p ≡ true → is_past n ≡ true
  past_phase n p e h = ground (arith, e, h)

  advance-IsNoFurther :
      (p : Phase Err) (n : State Err) (env : Env)
      → n.phase ≡ p
      → is_opening p ≡ false
      → IsNoFurther (advance_phase o p n env).0 n
  unfolding advance_phase
  advance-IsNoFurther free n env e f = λ h. h
  advance-IsNoFurther (opening c) n env e f = absurd (cc)
  advance-IsNoFurther (cutting c) n env e f = λ h. past_phase n (cutting c) e refl
  advance-IsNoFurther (waiting c) n env e f = λ h. past_phase n (waiting c) e refl
  advance-IsNoFurther (leaving r c) n env e f = λ h. past_phase n (leaving r c) e refl
  advance-IsNoFurther after n env e f = λ h. past_phase n after e refl
  advance-IsNoFurther closing n env e f = λ h. past_phase n closing e refl

  fire-IsNoFurther : (p : Phase Err) (n : State Err) → n.phase ≡ p → IsNoFurther (fire o p n) n
  unfolding fire
  fire-IsNoFurther (waiting c) n e = λ h. past_phase n (waiting c) e refl
  fire-IsNoFurther p n e = λ h. h

  -- Every other event leaves the close on its side of the hook.
  pub step-IsNoFurther :
      (e : Event Err) (n : State Err) (env : Env)
      → is_at_hook e n.phase ≡ false
      → IsNoFurther (step o e n env).0 n
  unfolding step advance_close end_parent
  step-IsNoFurther spawn n env f =
      if_elim (λ m. IsNoFurther m n) (is_free n.phase) _ _ (spawn-IsNoFurther n) (λ h. h)
  step-IsNoFurther (cancel c) n env f =
      if_elim (λ m. IsNoFurther m n) (is_free n.phase) _ _ (cancel-IsNoFurther c n) (λ h. h)
  step-IsNoFurther exit n env f = wg_done-IsNoFurther n
  step-IsNoFurther advance n env f = advance-IsNoFurther n.phase n env refl f
  step-IsNoFurther timer n env f = fire-IsNoFurther n.phase n refl
  step-IsNoFurther deadline n env f = λ h. ground (arith, h)
  step-IsNoFurther (parent_done c) n env f = λ h. h
  step-IsNoFurther watch_inherited n env f = watch-IsNoFurther n.inherited n
  step-IsNoFurther watch_dispatched n env f = watch-IsNoFurther n.dispatched n

  advance-done :
      (p : Phase Err) (n : State Err) (env : Env)
      → n.done ≡ true
      → (advance_phase o p n env).0.done ≡ true
  unfolding advance_phase run_after
  advance-done free n env h = h
  advance-done (opening c) n env h = h
  advance-done (cutting c) n env h = h
  advance-done (waiting c) n env h = ground (arith, h)
  advance-done (leaving r c) n env h = h
  advance-done after n env h = after_done o.after_close n env h
    where
      after_done :
          (f : Option (Option Err → Env → Env × Option Err)) (s : State Err) (v : Env)
          → s.done ≡ true
          → (run_after f s v).0.done ≡ true
      after_done none s v k = k
      after_done (some f) s v k = k
  advance-done closing n env h = refl

  fire-done : (p : Phase Err) (n : State Err) → n.done ≡ true → (fire o p n).done ≡ true
  unfolding fire
  fire-done (waiting c) n h = ground (arith, h)
  fire-done p n h = h

  -- A nest that is done stays so.
  pub step-done :
      (e : Event Err) (n : State Err) (env : Env) → n.done ≡ true → (step o e n env).0.done ≡ true
  unfolding step advance_close end_parent spawn_locked cancel_locked watch wg_done
  step-done spawn n env h = ground (arith, h)
  step-done (cancel c) n env h = ground (arith, h)
  step-done exit n env h = h
  step-done advance n env h = advance-done n.phase n env h
  step-done timer n env h = fire-done n.phase n h
  step-done deadline n env h = ground (arith, h)
  step-done (parent_done c) n env h = h
  step-done watch_inherited n env h = ground (arith, h)
  step-done watch_dispatched n env h = ground (arith, h)
