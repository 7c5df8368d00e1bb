-- ===== src/Nest/Invariant.antt =====
-- pkg/nest/nest.go: what holds of a nest in every state that a history reaches.
use concx.Prelude.{
  ◌≡◌, refl, true, false, Option, none, some, List, [], ◌∷◌, arith, ◌⊎◌, inl, is_some,
}
use concx.Prelude.Int.{is_positive}
use concx.Codex.{Codex, nest, nest_close_timeout}
use concx.Codex.Laws.{is_code-join_errors}
use concx.Nest.{
  Options, State, Phase, free, opening, cutting, waiting, leaving, after, closing, Event, spawn,
  cancel, exit, advance, timer, deadline, parent_done, watch_inherited, watch_dispatched, new,
  spawn_locked, cancel_locked, end_parent, watch, is_free, wg_done, run_after, advance_phase,
  advance_close, fire, step, run,
}

module _ {Env Err : Type 0} ⦃x : Codex Err⦄ (o : Options Env Err) where
  -- Every goroutine has returned, or the timer of the close has fired and `err` says so.
  abbrev pub IsJoined : State Err → Option Err → Type 0
  IsJoined s e =
      (s.live ≡ 0)
      ⊎ ((is_positive o.shutdown_timeout ≡ true) × (x.is_code e (nest nest_close_timeout) ≡ true))

  abbrev pub PhaseInv : State Err → Phase Err → Type 0
  PhaseInv s free =
      ((s.canceled ≡ false) × (s.done ≡ false))
      ⊎ ((s.canceled ≡ true)
          × (s.done ≡ true)
          × (is_some s.dispatched ≡ true)
          × (s.close_ctx_done ≡ true)
          × IsJoined s s.err)
  PhaseInv s (opening _) = (s.canceled ≡ true) × (s.done ≡ false)
  PhaseInv s (cutting _) = (s.canceled ≡ true) × (s.done ≡ false)
  PhaseInv s (waiting _) = (s.canceled ≡ true) × (s.done ≡ false) × (is_some s.dispatched ≡ true)
  PhaseInv s (leaving e cause) =
      (s.canceled ≡ true) × (s.done ≡ false) × (is_some s.dispatched ≡ true) × IsJoined s e
  PhaseInv s _ =
      (s.canceled ≡ true)
      × (s.done ≡ false)
      × (is_some s.dispatched ≡ true)
      × (s.close_ctx_done ≡ true)
      × IsJoined s s.err

  abbrev pub Inv : State Err → Type 0
  Inv s = PhaseInv s s.phase

  pub new-Inv : (cause : Option Err) → Inv (new cause)
  unfolding new
  new-Inv cause = inl (refl, refl)

  after-Inv :
      (h : Option (Option Err → Env → Env × Option Err)) (s : State Err) (env : Env)
      → PhaseInv s after
      → Inv (run_after h s env).0
  unfolding run_after
  after-Inv none s env v = v
  after-Inv (some f) s env v =
      ground (arith, is_code-join_errors s.err (f s.err env).1 (nest nest_close_timeout))

  advance_phase-Inv :
      (p : Phase Err) (s : State Err) (env : Env)
      → s.phase ≡ p
      → PhaseInv s p
      → Inv (advance_phase o p s env).0
  unfolding advance_phase
  advance_phase-Inv free s env e h = ground arith
  advance_phase-Inv (opening cause) s env e h = h
  advance_phase-Inv (cutting cause) s env e h = ground arith
  advance_phase-Inv (waiting cause) s env e h = ground arith
  advance_phase-Inv (leaving failure cause) s env e h =
      ground (arith, is_code-join_errors failure cause (nest nest_close_timeout))
  advance_phase-Inv after s env e h = after-Inv o.after_close s env h
  advance_phase-Inv closing s env e h = ground arith

  fire-Inv : (p : Phase Err) (s : State Err) → s.phase ≡ p → PhaseInv s p → Inv (fire o p s)
  unfolding fire
  fire-Inv (waiting cause) s e h =
      ground (arith, x.is_code-new (nest nest_close_timeout) (nest nest_close_timeout))
  fire-Inv p s e h = ground arith

  pub step-Inv : (e : Event Err) (s : State Err) (env : Env) → Inv s → Inv (step o e s env).0
  unfolding step spawn_locked cancel_locked end_parent watch advance_close
  step-Inv spawn s env h = ground arith
  step-Inv (cancel cause) s env h = ground arith
  step-Inv exit s env h = ground arith
  step-Inv advance s env h = advance_phase-Inv s.phase s env refl h
  step-Inv timer s env h = fire-Inv s.phase s refl h
  step-Inv deadline s env h = ground arith
  step-Inv (parent_done cause) s env h = ground arith
  step-Inv watch_inherited s env h = ground arith
  step-Inv watch_dispatched s env h = ground arith

  -- The steps that other goroutines take on the nest.
  pub spawn_locked-Inv : (s : State Err) → is_free s.phase ≡ true → Inv s → Inv (spawn_locked s).0
  unfolding spawn_locked
  spawn_locked-Inv s f h = ground arith

  pub cancel_locked-Inv :
      (cause : Option Err) (s : State Err)
      → is_free s.phase ≡ true
      → Inv s
      → Inv (cancel_locked cause s)
  unfolding cancel_locked
  cancel_locked-Inv cause s f h = ground arith

  pub wg_done-Inv : (s : State Err) → Inv s → Inv (wg_done s)
  unfolding wg_done
  wg_done-Inv s h = ground arith

  pub done_facts :
      (s : State Err)
      → Inv s
      → s.done ≡ true
      → (s.canceled ≡ true)
        × (is_some s.dispatched ≡ true)
        × (s.close_ctx_done ≡ true)
        × IsJoined s s.err
  done_facts s v h = ground arith

  pub run-Inv : (es : List (Event Err)) (s : State Err) (env : Env) → Inv s → Inv (run o es s env).0
  unfolding run
  run-Inv [] s env h = h
  run-Inv (e ∷ es) s env h =
      let (s', env') = step o e s env in run-Inv es s' env' (step-Inv e s env h)

  -- In every history of a new nest: when `Done` is closed, `Cancel` was called, the children's
  -- context and the one of `beforeCloseFunc` have ended, and either every spawned goroutine has
  -- returned, or a positive timeout ran out and `Err` has the code `NEST_CLOSE_TIMEOUT`.
  pub done-IsJoined :
      (es : List (Event Err)) (cause : Option Err) (env : Env)
      → (run o es (new cause) env).0.done ≡ true
      → let s = (run o es (new cause) env).0 in
        (s.canceled ≡ true)
        × (is_some s.dispatched ≡ true)
        × (s.close_ctx_done ≡ true)
        × IsJoined s s.err
  done-IsJoined es cause env h =
      done_facts (run o es (new cause) env).0 (run-Inv es (new cause) env (new-Inv cause)) h
