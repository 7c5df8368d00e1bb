-- ===== src/Nest/Closing.antt =====
-- pkg/nest/nest.go: how a close goes on, ends and stays ended.
use concx.Prelude.{◌≡◌, refl, true, some, List, [], ◌∷◌, arith, ◌≤◌}
use concx.Codex.{Codex, nest, nest_closed}
use concx.Nest.{
  Options, State, Phase, free, Event, spawn, advance, spawn_locked, cancel_locked, end_parent,
  watch, run_after, advance_phase, advance_close, step, run, wait_err, cancel, exit, timer,
  deadline, parent_done, watch_inherited, watch_dispatched, fire,
}
use concx.Nest.Invariant.{Inv}

module _ {Env Err : Type 0} ⦃x : Codex Err⦄ (o : Options Env Err) where
  advance_phase-live :
      (p : Phase Err) (s : State Err) (env : Env)
      → ((advance_phase o p s env).0.live ≡ s.live)
        × ((advance_phase o p s env).0.canceled ≡ s.canceled)
  unfolding advance_phase run_after
  advance_phase-live free s env = ground arith
  advance_phase-live p s env = ground arith

  -- The nest's own goroutines and timers neither start nor end a spawned one.
  abbrev pub IsOwn : Event Err → Type 0
  IsOwn advance = Unit {0}
  IsOwn timer = Unit {0}
  IsOwn deadline = Unit {0}
  IsOwn watch_inherited = Unit {0}
  IsOwn watch_dispatched = Unit {0}
  IsOwn (parent_done _) = Unit {0}
  IsOwn _ = ⊥

  pub own-live :
      (e : Event Err) (s : State Err) (env : Env) → IsOwn e → (step o e s env).0.live ≡ s.live
  unfolding step end_parent watch advance_close fire
  own-live advance s env h = (advance_phase-live s.phase s env).0
  own-live spawn s env h = elim h [ ]
  own-live (cancel c) s env h = elim h [ ]
  own-live exit s env h = elim h [ ]
  own-live e s env h = ground arith

  step-live :
      (e : Event Err) (s : State Err) (env : Env)
      → s.canceled ≡ true
      → ((step o e s env).0.live ≤ s.live) × ((step o e s env).0.canceled ≡ true)
  unfolding step spawn_locked cancel_locked end_parent watch advance_close
  step-live spawn s env h = ground arith
  step-live advance s env h = ground (arith, advance_phase-live s.phase s env)
  step-live e s env h = ground arith

  -- Once `Cancel` has won, no goroutine joins the nest in any history, and `Spawn` is refused with
  -- `NEST_CLOSED` whenever it gets the mutex.
  pub spawn_after_cancel :
      (es : List (Event Err)) (s : State Err) (env : Env)
      → s.canceled ≡ true
      → let t = (run o es s env).0 in
        (t.live ≤ s.live) × (spawn_locked t ≡ (t, some (x.new (nest nest_closed))))
  unfolding run spawn_locked
  spawn_after_cancel [] s env h = ground arith
  spawn_after_cancel (e ∷ es) s env h =
      let (s', env') = step o e s env in
      ground (arith, step-live e s env h, spawn_after_cancel es s' env')

  -- What a closed nest shows to the outside.
  abbrev IsSettled : State Err → State Err → Type 0
  IsSettled s t = (t.done ≡ true) × (t.canceled ≡ true) × (t.phase ≡ free) × (t.err ≡ s.err)

  IsSettled-step :
      (e : Event Err) (s t : State Err) (env : Env)
      → IsSettled s t
      → IsSettled s (step o e t env).0 × ((step o e t env).1 ≡ env)
  unfolding step spawn_locked cancel_locked end_parent watch advance_close advance_phase
  IsSettled-step spawn s t env h = ground arith
  IsSettled-step e s t env h = ground arith

  IsSettled-run :
      (es : List (Event Err)) (s t : State Err) (env : Env)
      → IsSettled s t
      → IsSettled s (run o es t env).0 × ((run o es t env).1 ≡ env)
  unfolding run
  IsSettled-run [] s t env h = (h, refl)
  IsSettled-run (e ∷ es) s t env h =
      let (t', env') = step o e t env in
      let (now, same) = IsSettled-step e s t env h in
      let (later, still) = IsSettled-run es s t' env' now in ground arith

  settled : (s : State Err) → Inv o s → s.done ≡ true → IsSettled s s
  settled s v h = ground arith

  -- A nest that is done stays so in every history: `Err` answers, always with the same error, and no
  -- hook runs again.
  pub done_forever :
      (es : List (Event Err)) (s : State Err) (env : Env)
      → Inv o s
      → s.done ≡ true
      → (wait_err (run o es s env).0 ≡ some s.err) × ((run o es s env).1 ≡ env)
  unfolding wait_err
  done_forever es s env v h =
      let (t, same) = IsSettled-run es s s env (settled s v h) in ground arith
