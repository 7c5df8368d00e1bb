-- ===== src/Orch/Pipe/Parallel/Jobs.antt =====
-- pkg/orch/pipe/node.go: what holds of each job of a `ParallelNode`, and of its slot.
use concx.Prelude.{
  ℕ, zero, suc, ◌+◌, ◌==◌, ◌≡◌, ◌≤◌, refl, ◌⊎◌, inl, inr, true, Option, none, some, List, [], ◌∷◌,
  map, arith, length, get_elem?, is_some, total, Indexed, All, Bool-cases, if◌then◌else◌,
}
use concx.Codex.{Codex, nest, nest_closed, pipe, job_failed, pipeline_job_panicked, error, other}
use concx.Nest
use concx.Nest.Invariant
use concx.Orch.Pipe.Stages.{JobEnd, returns}
use concx.Orch.Pipe.Parallel.{
  JobPc, working, failing, refusing, storing, counting, completing, leaving, gone, SpawnPc,
  spawning, broken, canceling, awaiting, Round, swap,
}

-- A job that has not returned.
abbrev pub alive : {Out Err : Type 0} → JobPc Out Err → ℕ
alive gone = 0
alive _ = 1

abbrev pub slots : {Out : Type 0} → ℕ → (ℕ → Option Out) → List (Option Out)
slots zero f = []
slots (suc n) f = f 0 ∷ slots n (λ i. f (suc i))

-- What a job returned without an error.
abbrev pub returned : {Out Err : Type 0} → JobEnd Out Err → Option Out
returned (returns out none) = some out
returned _ = none

module _ {Out Err : Type 0} where
  -- The slot of a job has what the job returned, without an error.
  abbrev pub Filled : List (JobEnd Out Err) → (ℕ → Option Out) → ℕ → Type 0
  Filled ends res i =
      (out : Out) × (res i ≡ some out) × (get_elem? ends i ≡ some (returns out none))

  pub slots-full :
      (ends : List (JobEnd Out Err)) (res : ℕ → Option Out)
      → ((i : ℕ) → suc i ≤ length ends → Filled ends res i)
      → (slots (length ends) res ≡ map returned ends)
        × All (λ (e : JobEnd Out Err). is_some (returned e) ≡ true) ends
  slots-full [] res h = (refl, tt)
  slots-full (e ∷ ends) res h =
      let (out, r, f) = h 0 (omega arith) in
      let (same, all) = slots-full ends (λ i. res (suc i)) (λ i b. h (suc i) (omega (arith, b))) in
      (ground (arith, r, f, same), (ground (arith, f), all))

  -- A write to a slot of what its job returned.
  Filled-store :
      (ends : List (JobEnd Out Err)) (res : ℕ → Option Out) (j : ℕ) (out : Out) (i : ℕ)
      → get_elem? ends j ≡ some (returns out none)
      → Filled ends res i
      → Filled ends (λ k. if k == j then some out else res k) i
  Filled-store ends res j out i h (o, r, f) = elim (Bool-cases (i == j)) [
    | inl e ↦ (out, rw e refl, ground (arith, e, h))
    | inr e ↦ (o, rw e r, f)
  ]

module _ {Out Err : Type 0} ⦃x : Codex Err⦄ where
  -- The error with which a job fails that ended so; none if it returned a value.
  abbrev pub failure : JobEnd Out Err → Option Err
  failure (returns out none) = none
  failure (returns out (some e)) = some (x.wrap (pipe job_failed) e)
  failure (JobEnd.panics (error e)) = some (x.wrap (pipe pipeline_job_panicked) e)
  failure (JobEnd.panics other) = some (x.errorf (pipe pipeline_job_panicked))

  -- Why a round fails: by one of its jobs, or because the nest was closed before it had all of them.
  abbrev pub IsCause : List (JobEnd Out Err) → Err → Type 0
  IsCause ends e =
      ((i : ℕ) × (j : JobEnd Out Err) × (get_elem? ends i ≡ some j) × (failure j ≡ some e))
      ⊎ (e ≡ x.new (nest nest_closed))

  abbrev pub Causes : List (JobEnd Out Err) → Option Err → Type 0
  Causes ends none = Unit
  Causes ends (some e) = IsCause ends e

module _ {Out Err : Type 0} ⦃x : Codex Err⦄ where
  module _ (ends : List (JobEnd Out Err)) where
    abbrev pub JobOk : Option Err → (ℕ → Option Out) → ℕ → JobPc Out Err → Type 0
    JobOk fail res i working = Unit
    JobOk fail res i (failing e) = IsCause ends e
    JobOk fail res i (refusing e) = is_some fail ≡ true
    JobOk fail res i (storing out) = get_elem? ends i ≡ some (returns out none)
    JobOk fail res i counting = Filled ends res i
    JobOk fail res i completing = Filled ends res i
    JobOk fail res i leaving = Filled ends res i ⊎ (is_some fail ≡ true)
    JobOk fail res i gone = Filled ends res i ⊎ (is_some fail ≡ true)

    pub swap_some : (f : Option Err) (e : Err) → is_some (swap f e) ≡ true
    swap_some none e = refl
    swap_some (some f) e = refl

    pub swap-Causes :
        (f : Option Err) (e : Err) → IsCause ends e → Causes ends f → Causes ends (swap f e)
    swap-Causes none e h c = h
    swap-Causes (some f) e h c = c

    pub JobOk-swap :
        (f : Option Err) (e : Err) (res : ℕ → Option Out) (i : ℕ) (p : JobPc Out Err)
        → JobOk f res i p
        → JobOk (swap f e) res i p
    JobOk-swap f e res i working h = tt
    JobOk-swap f e res i (failing _) h = h
    JobOk-swap f e res i (refusing _) h = swap_some f e
    JobOk-swap f e res i (storing out) h = h
    JobOk-swap f e res i counting h = h
    JobOk-swap f e res i completing h = h
    JobOk-swap f e res i leaving h = inr (swap_some f e)
    JobOk-swap f e res i gone h = inr (swap_some f e)

    pub JobOk-store :
        (f : Option Err) (res : ℕ → Option Out) (j : ℕ) (out : Out)
        → get_elem? ends j ≡ some (returns out none)
        → (i : ℕ) (p : JobPc Out Err) → JobOk f res i p
        → JobOk f (λ k. if k == j then some out else res k) i p
    JobOk-store f res j out g i working h = tt
    JobOk-store f res j out g i (failing _) h = h
    JobOk-store f res j out g i (refusing _) h = h
    JobOk-store f res j out g i (storing o) h = h
    JobOk-store f res j out g i counting h = Filled-store ends res j out i g h
    JobOk-store f res j out g i completing h = Filled-store ends res j out i g h
    JobOk-store f res j out g i leaving (inl h) = inl (Filled-store ends res j out i g h)
    JobOk-store f res j out g i leaving (inr h) = inr h
    JobOk-store f res j out g i gone (inl h) = inl (Filled-store ends res j out i g h)
    JobOk-store f res j out g i gone (inr h) = inr h

    abbrev pub SpawnOk : Option Err → ℕ → SpawnPc Err → Type 0
    SpawnOk fail n (spawning m) = n + m ≡ length ends
    SpawnOk fail n (broken e) = IsCause ends e
    SpawnOk fail n (canceling e) = is_some fail ≡ true
    SpawnOk fail n awaiting = (n ≡ length ends) ⊎ (is_some fail ≡ true)

    pub SpawnOk-swap :
        (f : Option Err) (e : Err) (n : ℕ) (p : SpawnPc Err)
        → SpawnOk f n p
        → SpawnOk (swap f e) n p
    SpawnOk-swap f e n (spawning m) h = h
    SpawnOk-swap f e n (broken _) h = h
    SpawnOk-swap f e n (canceling _) h = swap_some f e
    SpawnOk-swap f e n awaiting h = inr (swap_some f e)

    pub record Sound (r : Round Out Err) : Type 0 where
      pub counted : r.nest.live ≡ total alive r.jobs
      pub nested : Invariant.Inv {Env = Unit {0}} Nest.no_options r.nest
      pub failed : Causes ends r.fail
      pub worked : Indexed (JobOk r.fail r.res) r.jobs
      pub spawns : SpawnOk r.fail (length r.jobs) r.spawner
