-- ===== src/Orch/Pipe/Lifetime/Assembly.antt =====
-- pkg/orch/pipe/orch.go: any calls that put a pipeline together, and how it is to be wired.
use concx.Prelude.{
  ℕ, zero, suc, ◌≡◌, ◌≤◌, ◌⊎◌, Bool, false, Option, none, some, List, [], ◌∷◌, ◌++◌, length, map,
  get_elem?, Indexed,
}
use concx.Orch.Pipe.Lifetime.{
  orchestrating, is_at, Node, Plan, from_job, from_universal_jobs, then_job, parallel, end_job,
  end_jobs, build,
}

-- A pipeline with the channels that the `NodeOrch`s observe that have been returned, in order.
pub record Assembly : Type 0 where
  pub plan : Plan
  pub orchs : List ℕ

pub data First : Type 0 where
  job : First
  jobs : List Bool → First

-- A call on the `NodeOrch` that was returned as the `k`-th, from 0, or on the `Builder`.
pub data Call : Type 0 where
  thens ends : (k : ℕ) → Call
  parallels end_alls : (k : ℕ) → List Bool → Call
  builds : Call

abbrev pub start_with : Option (Plan × ℕ) → Option Assembly
start_with none = none
start_with (some (p, o)) = some (record { plan = p; orchs = o ∷ [] })

unfoldable pub begins : First → Option Assembly
begins job = start_with (some from_job)
begins (jobs js) = start_with (from_universal_jobs js)

-- A call that returns another `NodeOrch`, and one that does not.
abbrev pub with_orch : List ℕ → Option (Plan × ℕ) → Option Assembly
with_orch os none = none
with_orch os (some (p, o)) = some (record { plan = p; orchs = os ++ o ∷ [] })

abbrev pub without_orch : List ℕ → Option Plan → Option Assembly
without_orch os none = none
without_orch os (some p) = some (record { plan = p; orchs = os })

-- The call, with the channel of its receiver, if there is one.
abbrev pub call_on : Call → Option ℕ → Assembly → Option Assembly
call_on builds o a = without_orch a.orchs (build a.plan)
call_on c none a = none
call_on (thens k) (some o) a = with_orch a.orchs (then_job o a.plan)
call_on (parallels k js) (some o) a = with_orch a.orchs (parallel js o a.plan)
call_on (ends k) (some o) a = without_orch a.orchs (end_job o a.plan)
call_on (end_alls k js) (some o) a = without_orch a.orchs (end_jobs js o a.plan)

abbrev pub receiver : Call → List ℕ → Option ℕ
receiver (thens k) os = get_elem? os k
receiver (parallels k js) os = get_elem? os k
receiver (ends k) os = get_elem? os k
receiver (end_alls k js) os = get_elem? os k
receiver builds os = none

-- The calls one after the other; `none` once one has panicked, or has no receiver.
abbrev pub and_then : Option Assembly → (Assembly → Option Assembly) → Option Assembly
and_then none f = none
and_then (some a) f = f a

unfoldable pub put_together : List Call → Assembly → Option Assembly
put_together [] a = some a
put_together (c ∷ cs) a = and_then (call_on c (receiver c a.orchs) a) (put_together cs)

-- The channels that the calls' stages are to read: the stage of a call on the `k`-th `NodeOrch` reads
-- what the stage writes that was made with it, from 1 on.
abbrev pub reads_of : Call → List ℕ
reads_of (thens k) = suc k ∷ []
reads_of (parallels k js) = suc k ∷ []
reads_of (ends k) = suc k ∷ []
reads_of (end_alls k js) = suc k ∷ []
reads_of builds = []

abbrev pub reads : List Call → List ℕ
reads [] = []
reads (c ∷ cs) = reads_of c ++ reads cs

abbrev pub observers : List Node → List ℕ
observers ns = map (λ n. n.observer) ns

-- The numbers below `n`, in order.
abbrev pub upto : ℕ → List ℕ
upto zero = []
upto (suc n) = upto n ++ n ∷ []

-- The stage at an index writes to a channel of its own, reads the origin or what an earlier one writes,
-- and has a job.
abbrev pub StageOk : ℕ → Node → Type 0
StageOk i n = (n.notifier ≡ suc i) × (n.observer ≤ i) × (1 ≤ n.jobs)

abbrev pub OrchOk : ℕ → ℕ → ℕ → Type 0
OrchOk n k o = (o ≡ suc k) × (o ≤ n)

abbrev pub Finale : Plan → Type 0
Finale p =
    ((p.lifetime ≡ orchestrating) × (p.finale ≡ none))
    ⊎ ((is_at p.lifetime orchestrating ≡ false) × (p.finale ≡ some (length p.nodes)))

pub record Wired (rs : List ℕ) (a : Assembly) : Type 0 where
  pub stages : Indexed StageOk a.plan.nodes
  pub observed : map (λ n. n.observer) a.plan.nodes ≡ 0 ∷ rs
  pub made : a.plan.channels ≡ suc (length a.plan.nodes)
  pub canceled : a.plan.cancels ≡ upto a.plan.channels
  pub orchs : Indexed (OrchOk (length a.plan.nodes)) a.orchs
  pub several :
      (length a.orchs ≡ length a.plan.nodes) ⊎ (is_at a.plan.lifetime orchestrating ≡ false)
  pub ended : Finale a.plan
