-- ===== src/Orch/Pipe/Lifetime.antt =====
-- pkg/orch/pipe: putting a pipeline together (orch.go), and its admission and shutdown (pipe.go).
pub mod Assembly
pub mod Wiring
pub mod Shutdown
use concx.Prelude.{
  ℕ, suc, ◌==◌, Bool, true, false, not, ◌||◌, ◌&&◌, Option, none, some, List, [], ◌∷◌, ◌++◌, length,
  map, or_else, is_some, if◌then◌else◌,
}
use concx.Prelude.Int.{ℤ, pos}
use concx.Codex.{
  Codex, pipe, sched, PipeError, SchedError, scheduler_not_running, scheduler_canceled,
  pipeline_not_running, pipeline_canceled,
}

-- `Lifetime_Orchestrating` and the others.
pub data Lifetime : Type 0 where
  orchestrating orchestrated building built running closed : Lifetime

abbrev pub number : Lifetime → ℕ
number orchestrating = 0
number orchestrated = 1
number building = 2
number built = 3
number running = 4
number closed = 5

abbrev pub is_at : Lifetime → Lifetime → Bool
is_at a b = number a == number b

-- A stage between two channels, with as many jobs as are not nil; a `SimpleNode` has one.
pub record Node : Type 0 where
  pub jobs : ℕ
  pub observer : ℕ
  pub notifier : ℕ

-- What orch.go works on. Channels have numbers, and `channels` have been made. A `NodeOrch` is this and
-- the channel that it observes.
pub record Plan : Type 0 where
  pub lifetime : Lifetime
  pub nodes : List Node
  pub cancels : List ℕ
  pub origin : ℕ
  pub finale : Option ℕ
  pub channels : ℕ

-- How many of the jobs are not nil.
abbrev pub jobs_left : List Bool → ℕ
jobs_left [] = 0
jobs_left (true ∷ js) = suc (jobs_left js)
jobs_left (false ∷ js) = jobs_left js

-- A first stage with `n` jobs.
abbrev pub from : ℕ → Plan × ℕ
from n = (
  record {
    lifetime = orchestrating;
    nodes = record { jobs = n; observer = 0; notifier = 1 } ∷ [];
    cancels = 0 ∷ 1 ∷ [];
    origin = 0;
    finale = none;
    channels = 2;
  },
  1,
)

-- One stage more with `n` jobs, that reads the channel `o` of the receiver and writes to a new one.
abbrev pub add_node : ℕ → ℕ → Plan → Plan
add_node n o p = record p {
  nodes = p.nodes ++ record { jobs = n; observer = o; notifier = p.channels } ∷ [];
  cancels = p.cancels ++ p.channels ∷ [];
  channels = suc p.channels;
}

-- A `NodeOrch` of the new stage, which observes what it writes.
abbrev pub next_orch : ℕ → ℕ → Plan → Plan × ℕ
next_orch n o p = (add_node n o p, p.channels)

abbrev pub finish : ℕ → ℕ → Plan → Plan
finish n o p = record (add_node n o p) { finale = some p.channels; lifetime = orchestrated }

-- `must.BeTrue` panics, which is `none`; `true` stands for a job that is not nil; `o` is the channel
-- that the receiver observes.
unfoldable pub from_job : Plan × ℕ
from_job = from 1

unfoldable pub from_universal_jobs : List Bool → Option (Plan × ℕ)
from_universal_jobs js = if jobs_left js == 0 then none else some (from (jobs_left js))

unfoldable pub then_job : ℕ → Plan → Option (Plan × ℕ)
then_job o p = if is_at p.lifetime orchestrating then some (next_orch 1 o p) else none

unfoldable pub parallel : List Bool → ℕ → Plan → Option (Plan × ℕ)
parallel js o p =
    if is_at p.lifetime orchestrating && not (jobs_left js == 0)
    then some (next_orch (jobs_left js) o p)
    else none

unfoldable pub end_job : ℕ → Plan → Option Plan
end_job o p = if is_at p.lifetime orchestrating then some (finish 1 o p) else none

unfoldable pub end_jobs : List Bool → ℕ → Plan → Option Plan
end_jobs js o p =
    if is_at p.lifetime orchestrating && not (jobs_left js == 0)
    then some (finish (jobs_left js) o p)
    else none

-- `Build`, but for the options.
unfoldable pub build : Plan → Option Plan
build p = if is_at p.lifetime orchestrated then some (record p { lifetime = built }) else none

-- The options that `Build` works on.
pub record Options : Type 0 where
  pub shutdown_timeout : ℤ
  pub max_pending : ℤ
  pub parallel : ℤ

abbrev pub default_options : Options
default_options = record {
  shutdown_timeout = pos 5000000000;
  max_pending = pos 10;
  parallel = pos 10;
}

abbrev pub with_shutdown_timeout : ℤ → Options → Options
with_shutdown_timeout t o = record o { shutdown_timeout = t }

abbrev pub with_max_pending : ℤ → Options → Options
with_max_pending n o = record o { max_pending = n }

abbrev pub with_parallel : ℤ → Options → Options
with_parallel n o = record o { parallel = n }

-- Where the function in `once.Do` of `shutdown` stands, with its reason: not begun; before
-- `p.cause.Store`, before `p.lifetime.Store`, before the `select` on `closed`; in the loop over the
-- channels to cancel, with those that are left; before `p.sche.Close()` has returned; returned.
pub data ShutPc (Err : Type 0) : Type 0 where
  unshut : ShutPc Err
  storing ending waking : Err → ShutPc Err
  cutting : Err → List ℕ → ShutPc Err
  sche_closing : ShutPc Err
  over : ShutPc Err

-- What `shutdown`, `Close` and `Push` read and write: `is_closed` is that the channel `closed` is (none
-- before `Run` made it), `canceled` the calls of `CancelCause` in their order, `sche` the scheduler that
-- `Run` made, with how often it was closed.
pub record Running (Err : Type 0) : Type 0 where
  pub lifetime : Lifetime
  pub stopping : Bool
  pub shut : ShutPc Err
  pub cause : Option Err
  pub is_closed : Option Bool
  pub cancels : List ℕ
  pub canceled : List (ℕ × Err)
  pub sche : Option ℕ

abbrev pub is_over : {Err : Type 0} → ShutPc Err → Bool
is_over over = true
is_over _ = false

abbrev mark_closed : Option Bool → Option Bool
mark_closed none = none
mark_closed (some b) = some true

abbrev pub close_sche : Option ℕ → Option ℕ
close_sche none = none
close_sche (some n) = some (suc n)

abbrev pub first_of : {Err : Type 0} → Option Err → Option Err → Option Err
first_of none b = b
first_of (some a) b = some a

module _ {Err : Type 0} where
  -- The next step of the function.
  unfoldable pub shut_step : ShutPc Err → Running Err → Running Err
  shut_step unshut p = p
  shut_step (storing e) p = record p { cause = some e; shut = ending e }
  shut_step (ending e) p = record p { lifetime = closed; shut = waking e }
  shut_step (waking e) p = record p {
    is_closed = mark_closed p.is_closed;
    shut = cutting e p.cancels;
  }
  shut_step (cutting e []) p = record p { shut = sche_closing }
  shut_step (cutting e (c ∷ left)) p = record p {
    canceled = p.canceled ++ (c, e) ∷ [];
    shut = cutting e left;
  }
  shut_step sche_closing p = record p { sche = close_sche p.sche; shut = over }
  shut_step over p = p

  -- What `shutdown` returns once the function has returned: none while it has not.
  unfoldable pub shutdown : Option Err → Running Err → Option (Option Err)
  shutdown reason p = if is_over p.shut then some (first_of p.cause reason) else none

module _ {Err : Type 0} ⦃x : Codex Err⦄ where
  abbrev pub reason_or : Option Err → Err
  reason_or reason = or_else reason (x.new (pipe pipeline_canceled))

  -- `shutdown` gets to `once.Do`: the first call begins the function, any other one waits for it.
  unfoldable pub begin_shutdown : Option Err → ShutPc Err → Running Err → Running Err
  begin_shutdown reason unshut p = record p { shut = storing (reason_or reason) }
  begin_shutdown reason at p = p

  -- What `Push` makes of an error of the scheduler.
  unfoldable pub map_error : Err → Err
  map_error e =
      if x.is_code (some e) (sched scheduler_not_running)
      then x.new (pipe pipeline_not_running)
      else if x.is_code (some e) (sched SchedError.reach_max_pending)
      then x.new (pipe PipeError.reach_max_pending)
      else if x.is_code (some e) (sched scheduler_canceled)
      then x.new (pipe pipeline_canceled)
      else x.wrap (pipe PipeError.undefined) e

  abbrev pub map_pushed : Option Err → Option Err
  map_pushed none = none
  map_pushed (some e) = some (map_error e)

  -- `Push`: whether it gets to the scheduler, where `none` is that it does, and else its error.
  -- What it loads is taken at one moment. `nest_canceled` is what `p.nest != nil && p.nest.Canceled()` gives.
  unfoldable pub refusal : Bool → Running Err → Option Err
  refusal nest_canceled p =
      if is_at p.lifetime closed || p.stopping || nest_canceled
      then some (x.new (pipe pipeline_canceled))
      else if not (is_at p.lifetime running) || not (is_some p.sche)
      then some (x.new (pipe pipeline_not_running))
      else none
