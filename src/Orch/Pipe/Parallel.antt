-- ===== src/Orch/Pipe/Parallel.antt =====
-- pkg/orch/pipe/node.go: one round of a `ParallelNode` that has got a flight. The goroutine of the
-- round spawns the jobs into a nest of its own and waits for it; each job is a goroutine, and so is
-- each `go g.Cancel`.
pub mod Jobs
pub mod Steps
pub mod Complete
use concx.Prelude.{
  ℕ, zero, suc, ◌+◌, ◌==◌, Bool, true, false, Option, none, some, List, [], ◌∷◌, ◌++◌,
  if◌then◌else◌, length, get_elem?, set,
}
use concx.Prelude.Int.{ℤ, pos, is_zero, sub_one}
use concx.Codex.{Codex}
use concx.Nest
use concx.Orch.Pipe.Stages.{JobEnd, SummaryEnd, Effect, fails, sends, execute, summary, pass_on}

-- Where the goroutine of a job stands.
pub data JobPc (Out Err : Type 0) : Type 0 where
  -- in `execute`
  working : JobPc Out Err
  -- before `fail.CompareAndSwap(nil, err)`, and before `go g.Cancel(err)`
  failing refusing : Err → JobPc Out Err
  -- before `res[idx] = out`, before `left.Add(-1)`, before `go g.Cancel(nil)`
  storing : Out → JobPc Out Err
  counting completing : JobPc Out Err
  -- before it returns, and after
  leaving gone : JobPc Out Err

-- Where the goroutine of the round stands: before `g.Spawn`, with the jobs that are left; before the
-- compare-and-swap and before `go g.Cancel(err)` when that failed; before `<-g.Done()`.
pub data SpawnPc (Err : Type 0) : Type 0 where
  spawning : ℕ → SpawnPc Err
  broken canceling : Err → SpawnPc Err
  awaiting : SpawnPc Err

-- A goroutine of `go g.Cancel`.
pub data Request (Err : Type 0) : Type 0 where
  asked : Option Err → Request Err
  answered : Request Err

-- `g`, `fail`, `left` and `res`, whose slots are given by their index.
pub record Round (Out Err : Type 0) : Type 0 where
  pub nest : Nest.State Err
  pub fail : Option Err
  pub left : ℤ
  pub res : ℕ → Option Out
  pub spawner : SpawnPc Err
  pub jobs : List (JobPc Out Err)
  pub requests : List (Request Err)

pub data Event (Err : Type 0) : Type 0 where
  -- the goroutine of the round, of a job, of a `Cancel` takes its next step
  spawn_step : Event Err
  job_at cancel_at : ℕ → Event Err
  -- the nest's own goroutines; it has no timeout, and so no timer
  advance watch_inherited watch_dispatched : Event Err
  -- the context of the pipeline ends
  parent_done : Err → Event Err

-- `fail.CompareAndSwap(nil, err)`
abbrev pub swap : {Err : Type 0} → Option Err → Err → Option Err
swap none e = some e
swap (some f) e = some f

module _ {Out Err : Type 0} where
  -- Before the loop, over a context that has ended if there is a cause.
  unfoldable pub start : Option Err → List (JobEnd Out Err) → Round Out Err
  start parent ends = record {
    nest = Nest.new parent;
    fail = none;
    left = pos (length ends);
    res = λ i. none;
    spawner = spawning (length ends);
    jobs = [];
    requests = [];
  }

  -- `go g.Cancel(cause)`
  abbrev pub ask : Option Err → Round Out Err → Round Out Err
  ask cause r = record r { requests = r.requests ++ asked cause ∷ [] }

  abbrev pub put_job : ℕ → JobPc Out Err → Round Out Err → Round Out Err
  put_job i p r = record r { jobs = set r.jobs i p }

  unfoldable pub cancel_step : ℕ → Option (Request Err) → Round Out Err → Round Out Err
  cancel_step i (some (asked cause)) r =
      if Nest.is_free r.nest.phase
      then record r { nest = Nest.cancel_locked cause r.nest; requests = set r.requests i answered }
      else r
  cancel_step i q r = r

module _ {Out Err : Type 0} ⦃x : Codex Err⦄ (zero_out : Out) where
  -- What `execute` gave.
  abbrev pub worked : Out × Option Err → JobPc Out Err
  worked (out, none) = storing out
  worked (out, some e) = failing e

  -- The goroutine of the job `i`, which ends as `ends` says.
  unfoldable pub job_step :
      List (JobEnd Out Err) → ℕ → Option (JobPc Out Err) → Round Out Err → Round Out Err
  unfolding execute
  job_step ends i (some working) r = elim (get_elem? ends i) [
    | none ↦ r
    | some e ↦ put_job i (worked (execute zero_out e)) r
  ]
  job_step ends i (some (failing e)) r = put_job i (refusing e) (record r { fail = swap r.fail e })
  job_step ends i (some (refusing e)) r = put_job i leaving (ask (some e) r)
  job_step ends i (some (storing out)) r =
      put_job i counting (record r { res = λ j. if j == i then some out else r.res j })
  job_step ends i (some counting) r =
      put_job i (if is_zero (sub_one r.left) then completing else leaving)
        (record r { left = sub_one r.left })
  job_step ends i (some completing) r = put_job i leaving (ask none r)
  job_step ends i (some leaving) r = put_job i gone (record r { nest = Nest.wg_done r.nest })
  job_step ends i p r = r

  -- What `g.Spawn` returned, with the jobs that are left after this one.
  abbrev pub spawned : ℕ → Nest.State Err × Option Err → Round Out Err → Round Out Err
  spawned m (n, none) r = record r { nest = n; spawner = spawning m; jobs = r.jobs ++ working ∷ [] }
  spawned m (n, some e) r = record r { nest = n; spawner = broken e }

  unfoldable pub spawn_at : SpawnPc Err → Round Out Err → Round Out Err
  spawn_at (spawning zero) r = record r { spawner = awaiting }
  spawn_at (spawning (suc m)) r =
      if Nest.is_free r.nest.phase then spawned m (Nest.spawn_locked r.nest) r else r
  spawn_at (broken e) r = record r { fail = swap r.fail e; spawner = canceling e }
  spawn_at (canceling e) r = record (ask (some e) r) { spawner = awaiting }
  spawn_at awaiting r = r

  -- The nest has no options, and no owner whose state its hooks could change.
  abbrev pub own_step : Nest.Event Err → Round Out Err → Round Out Err
  own_step e r = record r { nest = (Nest.step Nest.no_options e r.nest tt).0 }

  unfoldable pub step : List (JobEnd Out Err) → Event Err → Round Out Err → Round Out Err
  unfolding job_step spawn_at
  step ends spawn_step r = spawn_at r.spawner r
  step ends (job_at i) r = job_step ends i (get_elem? r.jobs i) r
  step ends (cancel_at i) r = cancel_step i (get_elem? r.requests i) r
  step ends advance r = own_step Nest.advance r
  step ends watch_inherited r = own_step Nest.watch_inherited r
  step ends watch_dispatched r = own_step Nest.watch_dispatched r
  step ends (parent_done e) r = own_step (Nest.parent_done e) r

  unfoldable pub history : List (JobEnd Out Err) → List (Event Err) → Round Out Err → Round Out Err
  history ends [] r = r
  history ends (e ∷ es) r = history ends es (step ends e r)

-- The round after `<-g.Done()`, with a next stage: with a failure it fails the ticket with it, and else
-- it sends on what the summary makes of `res`, or the zero value where there is no summary.
module _ {Key Out Sum Err : Type 0} ⦃x : Codex Err⦄ (zero_sum : Sum) where
  unfoldable pub finish_round :
      Option (List (Option Out) → SummaryEnd Sum Err)
      → Key
      → List (Option Out)
      → Option Err
      → List (Effect Key Sum Err) × Option Err
  unfolding summary
  finish_round f t res (some e) = (fails t e ∷ [], some e)
  finish_round none t res none = (sends t zero_sum ∷ [], none)
  finish_round (some f) t res none = pass_on zero_sum t (summary zero_sum (f res))
