-- ===== src/Orch/Pipe/Lifetime/Wiring.antt =====
-- pkg/orch/pipe/orch.go: how a pipeline is wired, however it is put together.
use concx.Prelude.{ℕ, ◌≡◌, ◌≤◌, Option, none, some, List, get_elem?}
use concx.Orch.Pipe.Lifetime.{Lifetime, Node}
use concx.Orch.Pipe.Lifetime.Assembly.{Assembly, jobs, Wired}

-- What every stage-making call adds, with the receiver's channel `o`, which is `suc k`.
module _ (rs : List ℕ) (a : Assembly) (n k o : ℕ) (h : 1 ≤ n) (g : get_elem? a.orchs k ≡ some o)
    (w : Wired rs a) where
  abbrev stage : Node
  stage = record { jobs = n; observer = o; notifier = a.plan.channels }

abbrev Holds : List ℕ → Option Assembly → Type 0
Holds rs none = Unit
Holds rs (some a) = Wired rs a
