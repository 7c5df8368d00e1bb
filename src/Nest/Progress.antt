-- ===== src/Nest/Progress.antt =====
-- pkg/nest/nest.go: a close that has begun comes to its end, and when it cannot.
use concx.Prelude.{
  ◌≡◌, refl, Bool, true, false, Option, none, some, List, [], ◌∷◌, arith, ℕ, ◌<◌, ◌-◌, ◌==◌,
  if◌then◌else◌, ap, ◌∙◌, ◌++◌, zero, suc,
}
use concx.Prelude.Int.{is_positive}
use concx.Codex.{Codex, nest, nest_close_timeout, join_errors}
use concx.Nest.{
  Options, State, Phase, free, opening, cutting, waiting, leaving, after, closing, Event, spawn,
  exit, advance, timer, spawn_locked, cancel_locked, end_parent, watch, run_after, advance_phase,
  advance_close, fire, step, run,
}
use concx.Nest.Invariant.{Inv}

-- The steps of the closing goroutine, with its timer.
abbrev pub close_with_timer : {Err : Type 0} → List (Event Err)
close_with_timer = advance ∷ advance ∷ timer ∷ advance ∷ advance ∷ advance ∷ []

abbrev pub exits : {Err : Type 0} → ℕ → List (Event Err)
exits zero = []
exits (suc n) = exit ∷ exits n

-- Only the closing goroutine moves, with nobody left to wait for.
abbrev pub close_alone : {Err : Type 0} → List (Event Err)
close_alone = advance ∷ advance ∷ advance ∷ advance ∷ advance ∷ advance ∷ []

abbrev pub is_exit : {Err : Type 0} → Event Err → Bool
is_exit exit = true
is_exit _ = false

abbrev pub NoExit : {Err : Type 0} → List (Event Err) → Type 0
NoExit [] = Unit {0}
NoExit (e ∷ es) = (is_exit e ≡ false) × NoExit es

-- The wait has not been left.
abbrev pub IsBeforeWaitEnds : {Err : Type 0} → Phase Err → Type 0
IsBeforeWaitEnds (opening _) = Unit {0}
IsBeforeWaitEnds (cutting _) = Unit {0}
IsBeforeWaitEnds (waiting _) = Unit {0}
IsBeforeWaitEnds _ = ⊥

module _ {Env Err : Type 0} ⦃x : Codex Err⦄ (o : Options Env Err) where
  completes :
      (p : Phase Err) (s : State Err) (env : Env)
      → s.phase ≡ p
      → s.canceled ≡ true
      → Inv o s
      → is_positive o.shutdown_timeout ≡ true
      → ((run o close_with_timer s env).0.done ≡ true)
        × ((run o close_with_timer s env).0.live ≡ s.live)
  unfolding run step advance_close advance_phase run_after fire
  completes free s env e c v h = ground arith
  completes (opening cause) s env e c v h = ground arith
  completes (cutting cause) s env e c v h = ground arith
  completes (waiting cause) s env e c v h = ground arith
  completes (leaving f cause) s env e c v h = ground arith
  completes after s env e c v h = ground arith
  completes closing s env e c v h = ground arith

  -- The error that a close with this timer gives to `afterCloseFunc`, from where it stands: its wait is
  -- over at once when nobody is left.
  abbrev pub timed_error : Phase Err → State Err → Option Err
  timed_error (opening c) s = join_errors (some (x.new (nest nest_close_timeout))) c
  timed_error (cutting c) s =
      if s.live == 0 then c else join_errors (some (x.new (nest nest_close_timeout))) c
  timed_error (waiting c) s =
      if s.live == 0 then c else join_errors (some (x.new (nest nest_close_timeout))) c
  timed_error (leaving f c) s = join_errors f c
  timed_error _ s = s.err

  abbrev pub called_before : Option (Env → Env) → Env → Env
  called_before none env = env
  called_before (some f) env = f env

  abbrev pub called_after : Option (Option Err → Env → Env × Option Err) → Option Err → Env → Env
  called_after none e env = env
  called_after (some f) e env = (f e env).0

  -- What the hooks that a close has still to call make of the owner's state.
  abbrev pub hooks_left : Phase Err → Option Err → Env → Env
  hooks_left free e env = env
  hooks_left (opening c) e env = called_after o.after_close e (called_before o.before_close env)
  hooks_left closing e env = env
  hooks_left _ e env = called_after o.after_close e env

  calls_hooks :
      (p : Phase Err) (s : State Err) (env : Env)
      → s.phase ≡ p
      → s.canceled ≡ true
      → Inv o s
      → is_positive o.shutdown_timeout ≡ true
      → (run o close_with_timer s env).1 ≡ hooks_left p (timed_error p s) env
  unfolding run step advance_close advance_phase run_after fire
  calls_hooks free s env e c v h = ground arith
  calls_hooks (opening cause) s env e c v h = ground arith
  calls_hooks (cutting cause) s env e c v h = ground arith
  calls_hooks (waiting cause) s env e c v h = ground arith
  calls_hooks (leaving f cause) s env e c v h = ground arith
  calls_hooks after s env e c v h = ground arith
  calls_hooks closing s env e c v h = ground arith

  completes_alone :
      (p : Phase Err) (s : State Err) (env : Env)
      → s.phase ≡ p
      → s.canceled ≡ true
      → Inv o s
      → s.live ≡ 0
      → (run o close_alone s env).0.done ≡ true
  unfolding run step advance_close advance_phase run_after
  completes_alone free s env e c v h = ground arith
  completes_alone (opening cause) s env e c v h = ground arith
  completes_alone (cutting cause) s env e c v h = ground arith
  completes_alone (waiting cause) s env e c v h = ground arith
  completes_alone (leaving f cause) s env e c v h = ground arith
  completes_alone after s env e c v h = ground arith
  completes_alone closing s env e c v h = ground arith

  run-exits :
      (n : ℕ) (es : List (Event Err)) (s : State Err) (env : Env)
      → run o (exits n ++ es) s env ≡ run o es (record s { live = s.live - n }) env
  unfolding run step
  run-exits zero es s env = ground arith
  run-exits (suc n) es s env =
      run-exits n es (record s { live = s.live - 1 }) env
      ∙ ap (λ k. run o es (record s { live = k }) env) (omega arith)

  drained : (s : State Err) → Inv o s → Inv o (record s { live = s.live - s.live })
  drained s v = ground arith

  -- A close that has begun is completed once the goroutines return: when those that are left have
  -- returned, six more steps of the closing goroutine close `Done`, with or without a timeout.
  pub close_completes :
      (s : State Err) (env : Env)
      → s.canceled ≡ true
      → Inv o s
      → (run o (exits s.live ++ close_alone) s env).0.done ≡ true
  close_completes s env c v = rw (run-exits s.live close_alone s env) (
      completes_alone s.phase (record s { live = s.live - s.live }) env refl c (drained s v)
        (omega arith))

  -- With a positive timeout a close does not need the goroutines: six steps of the closing goroutine
  -- and its timer alone close `Done` and call the hooks that were still to be called, `afterCloseFunc`
  -- with the error of `timed_error`, while as many goroutines are left as before.
  pub close_completes_by_timer :
      (s : State Err) (env : Env)
      → s.canceled ≡ true
      → Inv o s
      → is_positive o.shutdown_timeout ≡ true
      → ((run o close_with_timer s env).0.done ≡ true)
        × ((run o close_with_timer s env).0.live ≡ s.live)
        × ((run o close_with_timer s env).1 ≡ hooks_left s.phase (timed_error s.phase s) env)
  close_completes_by_timer s env c v t =
      let (done, live) = completes s.phase s env refl c v t in
      (done, live, calls_hooks s.phase s env refl c v t)

  -- Goroutines are there, the close is in its wait or before it, and it has no timeout.
  record Stuck (s : State Err) : Type 0 where
    busy : 0 < s.live
    closing_down : s.canceled ≡ true
    before : IsBeforeWaitEnds s.phase
    open_still : s.done ≡ false

  Stuck-step :
      (e : Event Err) (s : State Err) (env : Env)
      → is_positive o.shutdown_timeout ≡ false
      → is_exit e ≡ false
      → Stuck s
      → Stuck (step o e s env).0
  unfolding step spawn_locked cancel_locked end_parent watch advance_close advance_phase fire
  Stuck-step spawn s env t n k = ground arith
  Stuck-step e s env t n k = ground arith

  Stuck-run :
      (es : List (Event Err)) (s : State Err) (env : Env)
      → is_positive o.shutdown_timeout ≡ false
      → NoExit es
      → Stuck s
      → Stuck (run o es s env).0
  unfolding run
  Stuck-run [] s env t n k = k
  Stuck-run (e ∷ es) s env t n k =
      let (s', env') = step o e s env in Stuck-run es s' env' t n.1 (Stuck-step e s env t n.0 k)

  begun :
      (s : State Err) (cause : Option Err)
      → Inv o s
      → s.canceled ≡ false
      → 0 < s.live
      → Stuck (cancel_locked cause s)
  unfolding cancel_locked
  begun s cause v c h = ground arith

  -- Without a positive timeout a close waits for the goroutines for good: if one is left when
  -- `Cancel` begins, `Done` stays open in every history in which no goroutine returns. So a spawned
  -- goroutine that calls `Cancel` and waits for it, or waits for `Done`, never gets on.
  pub cancel_waits_for_exit :
      (es : List (Event Err)) (s : State Err) (cause : Option Err) (env : Env)
      → is_positive o.shutdown_timeout ≡ false
      → NoExit es
      → Inv o s
      → s.canceled ≡ false
      → 0 < s.live
      → (run o es (cancel_locked cause s) env).0.done ≡ false
  unfolding cancel_locked
  cancel_waits_for_exit es s cause env t n v c h =
      (Stuck-run es (cancel_locked cause s) env t n (begun s cause v c h)).open_still
