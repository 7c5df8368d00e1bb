-- ===== src/Nest/Hooks.antt =====
-- pkg/nest/nest.go: the hooks and the error of a close.
use concx.Prelude.{
  ◌≡◌, refl, Bool, true, false, Option, none, some, List, [], ◌∷◌, arith, ◌⊎◌, inl, ◌++◌,
}
use concx.Prelude.Int.{ℤ}
use concx.Codex.{Codex, Code, join_errors}
use concx.Codex.Laws.{is_code-join_errors}
use concx.Nest.{
  Options, no_options, with_shutdown_timeout, with_before_close_func, with_after_close_func, State,
  Phase, free, opening, cutting, waiting, leaving, after, closing, Event, spawn, advance, new,
  spawn_locked, cancel_locked, end_parent, watch, run_after, advance_phase, advance_close, fire,
  step, run,
}
use concx.Nest.Invariant.{Inv, run-Inv}

-- A call of a hook.
pub data Call (Err : Type 0) : Type 0 where
  before_called : Call Err
  after_called : Option Err → Call Err

-- The two hooks were called, once each and in their order; and what the second was given.
abbrev both_called : {Err : Type 0} → List (Call Err) → Bool
both_called (before_called ∷ after_called _ ∷ []) = true
both_called _ = false

abbrev given : {Err : Type 0} → List (Call Err) → Option Err
given (before_called ∷ after_called e ∷ []) = e
given _ = none

both_called-eq :
    {Err : Type 0} (l : List (Call Err))
    → both_called l ≡ true
    → l ≡ before_called ∷ after_called (given l) ∷ []
both_called-eq l h = ground arith

module _ {Err : Type 0} ⦃x : Codex Err⦄ (timeout : ℤ) (reply : Option Err) where
  -- Options whose hooks keep a record of their calls; the second one answers with `reply`.
  unfoldable pub recording : Options (List (Call Err)) Err
  unfolding with_shutdown_timeout with_before_close_func with_after_close_func
  recording = with_shutdown_timeout timeout (
      with_before_close_func (λ l. l ++ before_called ∷ [])
        (with_after_close_func (λ e l. (l ++ after_called e ∷ [], reply)) no_options))

  abbrev IsRecorded : State Err → Phase Err → List (Call Err) → Type 0
  IsRecorded s free l =
      ((s.done ≡ false) × (s.canceled ≡ false) × (l ≡ []))
      ⊎ ((s.canceled ≡ true) × (both_called l ≡ true) × (s.err ≡ join_errors (given l) reply))
  IsRecorded s (opening _) l = (s.done ≡ false) × (s.canceled ≡ true) × (l ≡ [])
  IsRecorded s closing l =
      (s.done ≡ false)
      × (s.canceled ≡ true)
      × (both_called l ≡ true)
      × (s.err ≡ join_errors (given l) reply)
  IsRecorded s _ l = (s.done ≡ false) × (s.canceled ≡ true) × (l ≡ before_called ∷ [])

  advance_phase-IsRecorded :
      (p : Phase Err) (s : State Err) (l : List (Call Err))
      → s.phase ≡ p
      → IsRecorded s p l
      → let (t, k) = advance_phase recording p s l in IsRecorded t t.phase k
  unfolding advance_phase run_after recording
  advance_phase-IsRecorded free s l e h = ground arith
  advance_phase-IsRecorded (opening c) s l e h = ground arith
  advance_phase-IsRecorded (cutting c) s l e h = ground arith
  advance_phase-IsRecorded (waiting c) s l e h = ground arith
  advance_phase-IsRecorded (leaving f c) s l e h = ground arith
  advance_phase-IsRecorded after s l e h = ground arith
  advance_phase-IsRecorded closing s l e h = ground arith

  step-IsRecorded :
      (e : Event Err) (s : State Err) (l : List (Call Err))
      → IsRecorded s s.phase l
      → let (t, k) = step recording e s l in IsRecorded t t.phase k
  unfolding step spawn_locked cancel_locked end_parent watch advance_close fire
  step-IsRecorded spawn s l h = ground arith
  step-IsRecorded advance s l h = advance_phase-IsRecorded s.phase s l refl h
  step-IsRecorded e s l h = ground arith

  run-IsRecorded :
      (es : List (Event Err)) (s : State Err) (l : List (Call Err))
      → IsRecorded s s.phase l
      → let (t, k) = run recording es s l in IsRecorded t t.phase k
  unfolding run
  run-IsRecorded [] s l h = h
  run-IsRecorded (e ∷ es) s l h =
      let (t, k) = step recording e s l in run-IsRecorded es t k (step-IsRecorded e s l h)

  recorded_done :
      (s : State Err) (l : List (Call Err))
      → IsRecorded s s.phase l
      → s.done ≡ true
      → (both_called l ≡ true) × (s.err ≡ join_errors (given l) reply)
  recorded_done s l h d = ground arith

  -- In every history of a new nest, when `Done` is closed, each hook was called exactly once, the
  -- one before the close first; `Err` joins the error that `afterCloseFunc` was given and its reply.
  pub hooks_once :
      (es : List (Event Err)) (cause : Option Err)
      → (run recording es (new cause) []).0.done ≡ true
      → let (s, l) = run recording es (new cause) [] in
        (e : Option Err) × (l ≡ before_called ∷ after_called e ∷ []) × (s.err ≡ join_errors e reply)
  unfolding new
  hooks_once es cause d =
      let (s, l) = run recording es (new cause) [] in
      let (full, error) =
        recorded_done s l (run-IsRecorded es (new cause) [] (inl (refl, refl, refl))) d in
      (given l, both_called-eq l full, error)

-- The first cause.
module _ {Env Err : Type 0} ⦃x : Codex Err⦄ (o : Options Env Err) (c : Code) where
  -- The running or finished close has an error of code `c`.
  abbrev Carries : State Err → Phase Err → Type 0
  Carries s free = (s.canceled ≡ true) × (x.is_code s.err c ≡ true)
  Carries s (opening cause) = (s.canceled ≡ true) × (x.is_code cause c ≡ true)
  Carries s (cutting cause) = (s.canceled ≡ true) × (x.is_code cause c ≡ true)
  Carries s (waiting cause) = (s.canceled ≡ true) × (x.is_code cause c ≡ true)
  Carries s (leaving e cause) = (s.canceled ≡ true) × (x.is_code cause c ≡ true)
  Carries s _ = (s.canceled ≡ true) × (x.is_code s.err c ≡ true)

  run_after-Carries :
      (h : Option (Option Err → Env → Env × Option Err)) (s : State Err) (env : Env)
      → Carries s after
      → let t = (run_after h s env).0 in Carries t t.phase
  unfolding run_after
  run_after-Carries none s env v = v
  run_after-Carries (some f) s env v = ground (arith, is_code-join_errors s.err (f s.err env).1 c)

  advance_phase-Carries :
      (p : Phase Err) (s : State Err) (env : Env)
      → s.phase ≡ p
      → Carries s p
      → let t = (advance_phase o p s env).0 in Carries t t.phase
  unfolding advance_phase
  advance_phase-Carries (waiting cause) s env e h = ground arith
  advance_phase-Carries (leaving f cause) s env e h = ground (arith, is_code-join_errors f cause c)
  advance_phase-Carries after s env e h = run_after-Carries o.after_close s env h
  advance_phase-Carries p s env e h = ground arith

  step-Carries :
      (e : Event Err) (s : State Err) (env : Env)
      → Carries s s.phase
      → let t = (step o e s env).0 in Carries t t.phase
  unfolding step spawn_locked cancel_locked end_parent watch advance_close fire
  step-Carries spawn s env h = ground arith
  step-Carries advance s env h = advance_phase-Carries s.phase s env refl h
  step-Carries e s env h = ground arith

  run-Carries :
      (es : List (Event Err)) (s : State Err) (env : Env)
      → Carries s s.phase
      → let t = (run o es s env).0 in Carries t t.phase
  unfolding run
  run-Carries [] s env h = h
  run-Carries (e ∷ es) s env h =
      let (t, env') = step o e s env in run-Carries es t env' (step-Carries e s env h)

  cancel-Carries :
      (s : State Err) (cause : Option Err)
      → s.canceled ≡ false
      → x.is_code cause c ≡ true
      → let t = cancel_locked cause s in Carries t t.phase
  unfolding cancel_locked
  cancel-Carries s cause n h = ground arith

  cancel-Inv :
      (s : State Err) (cause : Option Err)
      → Inv o s
      → s.canceled ≡ false
      → Inv o (cancel_locked cause s)
  unfolding cancel_locked
  cancel-Inv s cause v n = ground arith

  carried_done :
      (s : State Err) → Carries s s.phase → Inv o s → s.done ≡ true → x.is_code s.err c ≡ true
  carried_done s h v d = ground arith

  -- The first `Cancel` decides the error: whatever other causes, parents and hooks come later, when
  -- `Done` is closed `Err` has every code that the first cause has.
  pub first_cause_kept :
      (es : List (Event Err)) (s : State Err) (cause : Option Err) (env : Env)
      → Inv o s
      → s.canceled ≡ false
      → x.is_code cause c ≡ true
      → (run o es (cancel_locked cause s) env).0.done ≡ true
      → x.is_code (run o es (cancel_locked cause s) env).0.err c ≡ true
  first_cause_kept es s cause env v n h d =
      let begun = cancel_locked cause s in
      carried_done (run o es begun env).0 (run-Carries es begun env (cancel-Carries s cause n h))
        (run-Inv o es begun env (cancel-Inv s cause v n)) d
