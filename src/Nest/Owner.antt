-- ===== src/Nest/Owner.antt =====
-- pkg/nest/nest.go: what a close does to the state of the nest's owner, it does by the two hooks.
use concx.Prelude.{Option, none, some}
use concx.Codex.{Codex}
use concx.Nest.{
  Options, State, Phase, opening, after, Event, advance, run_before, run_after, advance_phase,
  advance_close, step,
}

abbrev pub KeptBefore {ℓ} : {Env : Type 0} → (Env → Type ℓ) → Option (Env → Env) → Type ℓ
KeptBefore P none = Unit
KeptBefore {Env} P (some f) = (env : Env) → P env → P (f env)

module _ {ℓ} {Env Err : Type 0} (P : Env → Type ℓ) where
  abbrev pub KeptAfter : Option (Option Err → Env → Env × Option Err) → Type ℓ
  KeptAfter none = Unit
  KeptAfter (some f) = (e : Option Err) (env : Env) → P env → P (f e env).0

  -- Both hooks keep a property of the owner's state.
  abbrev pub KeptByHooks : Options Env Err → Type ℓ
  KeptByHooks o = KeptBefore P o.before_close × KeptAfter o.after_close

before-keeps {ℓ} :
    {Env : Type 0} (P : Env → Type ℓ) (h : Option (Env → Env)) (env : Env)
    → KeptBefore P h
    → P env
    → P (run_before h env)
before-keeps P none env k p = p
before-keeps P (some f) env k p = k env p

module _ {ℓ} {Env Err : Type 0} ⦃x : Codex Err⦄ (P : Env → Type ℓ) where
  after-keeps :
      (h : Option (Option Err → Env → Env × Option Err)) (s : State Err) (env : Env)
      → KeptAfter P h
      → P env
      → P (run_after h s env).1
  unfolding run_after
  after-keeps none s env k p = p
  after-keeps (some f) s env k p = k s.err env p

  advance-keeps :
      (o : Options Env Err) (ph : Phase Err) (s : State Err) (env : Env)
      → KeptByHooks P o
      → P env
      → P (advance_phase o ph s env).1
  unfolding advance_phase
  advance-keeps o (opening c) s env k p = before-keeps P o.before_close env k.0 p
  advance-keeps o after s env k p = after-keeps o.after_close s env k.1 p
  advance-keeps o ph s env k p = p

  -- A property of the owner's state that both hooks keep is kept by every event of the nest.
  pub step-keeps :
      (o : Options Env Err) (e : Event Err) (s : State Err) (env : Env)
      → KeptByHooks P o
      → P env
      → P (step o e s env).1
  unfolding step advance_close
  step-keeps o advance s env k p = advance-keeps o s.phase s env k p
  step-keeps o e s env k p = p
