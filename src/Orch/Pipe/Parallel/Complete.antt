-- ===== src/Orch/Pipe/Parallel/Complete.antt =====
-- pkg/orch/pipe/node.go: a `ParallelNode` gets past `<-g.Done()` with every slot filled, or with a
-- failure.
use concx.Prelude.{
  ℕ, suc, ◌≡◌, ◌≤◌, refl, ◌⊎◌, inl, inr, true, Option, none, some, List, map, arith, length,
  is_some, total-get, get_elem?-below, All, subst,
}
use concx.Codex.{Codex}
use concx.Nest
use concx.Nest.Invariant
use concx.Orch.Pipe.Stages.{JobEnd}
use concx.Orch.Pipe.Parallel.{JobPc, gone, awaiting, Round, Event, start, history}
use concx.Orch.Pipe.Parallel.Jobs.{
  alive, slots, returned, Filled, slots-full, IsCause, Causes, JobOk, SpawnOk, Sound,
}
use concx.Orch.Pipe.Parallel.Steps.{job_at-JobOk, history-Sound, start-Sound}

module _ {Out Err : Type 0} ⦃x : Codex Err⦄ where
  module _ (ends : List (JobEnd Out Err)) where
    module _ (zero_out : Out) where
      done_job :
          (p : JobPc Out Err) (i : ℕ) (res : ℕ → Option Out)
          → alive p ≡ 0
          → JobOk ends none res i p
          → Filled ends res i
      done_job gone i res a (inl h) = h
      done_job gone i res a (inr h) = absurd (cc)
      done_job p i res a h = absurd (omega (arith, a))

      every_slot :
          (r : Round Out Err)
          → r.nest.live ≡ 0
          → r.fail ≡ none
          → length r.jobs ≡ length ends
          → Sound ends r
          → (i : ℕ) → suc i ≤ length ends
          → Filled ends r.res i
      every_slot r l f n v i b =
          let (p, g) = get_elem?-below r.jobs i (omega (arith, n, b)) in
          done_job p i r.res (omega (arith, total-get alive r.jobs i p g, v.counted, l))
            (subst (λ f. JobOk ends f r.res i p) f (job_at-JobOk ends zero_out i p r g v))

      -- How the round stands after the wait.
      abbrev pub Ends : Round Out Err → Type 0
      Ends r =
          ((r.fail ≡ none)
            × (slots (length ends) r.res ≡ map returned ends)
            × All (λ (e : JobEnd Out Err). is_some (returned e) ≡ true) ends)
          ⊎ ((e : Err) × (r.fail ≡ some e) × IsCause ends e)

      ends_cases :
          (r : Round Out Err) (f : Option Err)
          → r.fail ≡ f
          → r.nest.live ≡ 0
          → r.spawner ≡ awaiting
          → Sound ends r
          → Ends r
      ends_cases r (some e) f l a v = inr (e, f, subst (Causes ends) f v.failed)
      ends_cases r none f l a v = elim (subst (SpawnOk ends r.fail (length r.jobs)) a v.spawns) [
        | inl n ↦
            let (same, all) = slots-full ends r.res (every_slot r l f n v) in inl (f, same, all)
        | inr n ↦ absurd (ground (arith, f, n))
      ]

module _ {Out Err : Type 0} ⦃x : Codex Err⦄ (zero_out : Out) where
  -- A parallel stage goes on with every job's value or with a failure. After every history of a round
  -- with the jobs `ends`, with any interleaving of their goroutines, of the cancellations and of the end
  -- of the context: when the round is past the loop and the nest is done, then either nothing has
  -- failed, every job has returned without an error, and `res` holds what each returned at its own
  -- index; or the failure is the one of a job of `ends`, with the code of a failed job around the error
  -- that it returned or with the code of a panic around the error of the panic, or that of a `Spawn` on
  -- a closed nest.
  pub parallel_ends :
      (ends : List (JobEnd Out Err)) (parent : Option Err) (es : List (Event Err))
      → (history zero_out ends es (start parent ends)).spawner ≡ awaiting
      → (history zero_out ends es (start parent ends)).nest.done ≡ true
      → let r = history zero_out ends es (start parent ends) in
        ((r.fail ≡ none)
          × (slots (length ends) r.res ≡ map returned ends)
          × All (λ (e : JobEnd Out Err). is_some (returned e) ≡ true) ends)
        ⊎ ((e : Err) × (r.fail ≡ some e) × IsCause ends e)
  parallel_ends ends parent es a d =
      let r = history zero_out ends es (start parent ends) in
      let v =
        history-Sound ends zero_out es (start parent ends) (start-Sound ends zero_out parent) in
      let (_, _, _, joined) =
        Invariant.done_facts {Env = Unit {0}} Nest.no_options r.nest v.nested d in
      elim joined [ inl l ↦ ends_cases ends zero_out r r.fail refl l a v | inr l ↦ absurd (cc) ]
