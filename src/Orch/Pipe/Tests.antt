-- ===== src/Orch/Pipe/Tests.antt =====
-- Tests of the pipelines, and the theorems on them at concrete inputs.
use concx.Prelude.{
  ℕ, zero, suc, ◌+◌, ◌≡◌, ◌⊎◌, refl, true, false, none, some, List, [], ◌∷◌, All, is_some, total,
  ◌≤◌,
}
use concx.Prelude.Int.{pos}
use concx.Codex.{other, pipe, sched, scheduler_not_running, pipeline_not_running}
use concx.Codex.Sample.{SampleErr, sample_codex, coded, plain}
use concx.Schedx.Tasks.{fifo}
use concx.Schedx.Sample.{Box, boxes}
use concx.Schedx.Pool.{Pool, Config, entered, push_step}
use concx.Orch.Pipe.Ticket
use concx.Orch.Pipe.Stages.{
  JobEnd, returns, fails, sends, flight, round, execute, is_job_error, round_answers_once,
}
use concx.Nest
use concx.Orch.Pipe.Parallel
use concx.Orch.Pipe.Parallel.Jobs.{slots, returned, IsCause}
use concx.Orch.Pipe.Parallel.Complete.{parallel_ends}
use concx.Orch.Pipe.Run
use concx.Orch.Pipe.Run.Once.{once, won, holds, run_once}
use concx.Orch.Pipe.Lifetime.{
  Lifetime, is_at, Node, Plan, orchestrating, orchestrated, built, then_job, parallel, end_job,
  begin_shutdown, shut_step, shutdown, map_error,
}
use concx.Orch.Pipe.Lifetime.Assembly.{
  Assembly, jobs, Call, thens, ends, builds, parallels, put_together,
}
use concx.Orch.Pipe.Lifetime.Shutdown.{push_error_mapped}

-- Two stages race: one fails the ticket, and the finale comes later with a value.
abbrev race : List (Ticket.Event ℕ SampleErr)
race = Ticket.failed 0 (plain 3) ∷ Ticket.finish 8 none ∷ Ticket.publish ∷ Ticket.close ∷ []

first_finish_wins_example :
    Ticket.chosen (Ticket.run race (Ticket.waiting, false)).0 ≡ Ticket.first_finish race
first_finish_wins_example = Ticket.first_finish_wins race false

abbrev ready : Ticket.Ticket ℕ SampleErr
ready = Ticket.done 8 none

-- A job that panics at zero and fails at one.
abbrev touchy : ℕ → JobEnd ℕ SampleErr
touchy zero = JobEnd.panics other
touchy (suc zero) = returns 5 (some (plain 2))
touchy n = returns (n + 1) none

abbrev ticket : ℕ
ticket = 4

round_answers_once_example :
    ((e : SampleErr) × (round 0 touchy (flight ticket 1) ≡ (fails ticket e ∷ [], some e))
      × (is_job_error e ≡ true))
    ⊎ ((out : ℕ) × (round 0 touchy (flight ticket 1) ≡ (sends ticket out ∷ [], none))
        × (touchy 1 ≡ returns out none))
round_answers_once_example = round_answers_once 0 touchy ticket 1

abbrev recipe : List Call
recipe = thens 0 ∷ parallels 1 (true ∷ false ∷ true ∷ []) ∷ ends 2 ∷ builds ∷ []

-- The stages with as many jobs as given, of which each reads what the one before it writes.
abbrev stage : ℕ → ℕ → Node
stage n i = record { jobs = n; observer = i; notifier = suc i }

abbrev first_plan : Plan
first_plan = record {
  lifetime = orchestrating;
  nodes = stage 1 0 ∷ [];
  cancels = 0 ∷ 1 ∷ [];
  origin = 0;
  finale = none;
  channels = 2;
}

abbrev first_orch : Assembly
first_orch = record { plan = first_plan; orchs = 1 ∷ [] }

abbrev whole : Assembly
whole = record {
  plan = record {
    lifetime = built;
    nodes = stage 1 0 ∷ stage 1 1 ∷ stage 2 2 ∷ stage 1 3 ∷ [];
    cancels = 0 ∷ 1 ∷ 2 ∷ 3 ∷ 4 ∷ [];
    origin = 0;
    finale = some 4;
    channels = 5;
  };
  orchs = 1 ∷ 2 ∷ 3 ∷ [];
}

-- Two calls on one `NodeOrch`: both stages read the channel 1, and nobody reads the channel 2.
forked :
    put_together (thens 0 ∷ ends 0 ∷ []) first_orch
    ≡ some (record {
      plan = record {
        lifetime = orchestrated;
        nodes = stage 1 0 ∷ stage 1 1 ∷ record { jobs = 1; observer = 1; notifier = 3 } ∷ [];
        cancels = 0 ∷ 1 ∷ 2 ∷ 3 ∷ [];
        origin = 0;
        finale = some 3;
        channels = 4;
      };
      orchs = 1 ∷ 2 ∷ [];
    })
unfolding put_together then_job end_job
forked = refl

abbrev config : Config ℕ ℕ (List ℕ)
config = record {
  max_pending = pos 1;
  parallel = pos 1;
  disable_detached = true;
  done = λ v e w. w;
}

abbrev idle_pool : Pool (Box ℕ) ℕ ℕ (List ℕ)
idle_pool = record {
  tasks = (fifo, []);
  pending = pos 0;
  running = false;
  locked = false;
  waking = false;
  world = [];
  appended = [];
  taken = [];
  finished = [];
}

push_error_mapped_example :
    some (coded (pipe pipeline_not_running))
    ≡ some (map_error (coded (sched scheduler_not_running)))
push_error_mapped_example =
    push_error_mapped boxes config false 4 entered idle_pool (coded (sched scheduler_not_running))
      refl (unfold push_step in refl)

-- Two jobs that both return, one after the other; the second one asks for the close.
abbrev both : List (JobEnd ℕ SampleErr)
both = returns 3 none ∷ returns 4 none ∷ []

abbrev meets : List (Parallel.Event SampleErr)
meets =
    Parallel.spawn_step
    ∷ Parallel.spawn_step
    ∷ Parallel.spawn_step
    ∷ Parallel.job_at 1
    ∷ Parallel.job_at 0
    ∷ Parallel.job_at 1
    ∷ Parallel.job_at 0
    ∷ Parallel.job_at 0
    ∷ Parallel.job_at 1
    ∷ Parallel.job_at 1
    ∷ Parallel.job_at 1
    ∷ Parallel.job_at 0
    ∷ Parallel.cancel_at 0
    ∷ Parallel.advance
    ∷ Parallel.advance
    ∷ Parallel.advance
    ∷ Parallel.advance
    ∷ Parallel.advance
    ∷ Parallel.advance
    ∷ []

parallel_ends_example :
    let r = Parallel.history 0 both meets (Parallel.start none both) in
    ((r.fail ≡ none)
      × (slots 2 r.res ≡ some 3 ∷ some 4 ∷ [])
      × All (λ (e : JobEnd ℕ SampleErr). is_some (returned e) ≡ true) both)
    ⊎ ((e : SampleErr) × (r.fail ≡ some e) × IsCause both e)
parallel_ends_example =
    parallel_ends 0 both none meets
      (unfold Parallel.history Parallel.step Parallel.start Parallel.job_step Parallel.spawn_at
          Parallel.cancel_step execute Nest.new Nest.spawn_locked Nest.cancel_locked Nest.wg_done
          Nest.step Nest.advance_close in
        refl)
      (unfold Parallel.history Parallel.step Parallel.start Parallel.job_step Parallel.spawn_at
          Parallel.cancel_step execute Nest.new Nest.spawn_locked Nest.cancel_locked Nest.wg_done
          Nest.step Nest.advance_close in
        refl)

-- `Close` comes between the test of the lifetime and the compare-and-swap of `Run`, which panics; a
-- second `Run` waits for the mutex.
abbrev crossed : List (Run.Event SampleErr)
crossed =
    Run.run
    ∷ Run.close
    ∷ Run.run
    ∷ Run.run_at 0 none
    ∷ Run.run_at 0 none
    ∷ Run.run_at 0 none
    ∷ Run.run_at 0 none
    ∷ Run.run_at 0 none
    ∷ Run.run_at 0 none
    ∷ Run.close_at 0
    ∷ Run.close_at 0
    ∷ Run.shutdown_step
    ∷ Run.shutdown_step
    ∷ Run.run_at 0 none
    ∷ Run.run_at 1 none
    ∷ []

panics_with_mutex :
    let l = Run.history (pos 5) 0 crossed (Run.start none []) in
    (l.runners ≡ Run.panicked ∷ Run.entered ∷ []) × (l.locked ≡ true)
unfolding Run.history Run.step Run.start Run.run_step Run.close_step begin_shutdown shut_step
    shutdown Nest.new Nest.spawn_locked
panics_with_mutex = (refl, refl)

run_once_example :
    let l = Run.history (pos 5) 0 crossed (Run.start none []) in
    (total won l.runners + once (is_at l.pipeline.lifetime built) ≤ 1)
    × (total holds l.runners ≡ once l.locked)
run_once_example = run_once (pos 5) 0 crossed none []

-- A `Close` of a pipeline with two channels that was not run: it begins `shutdown`, and comes back after
-- its steps.
abbrev shuts : List (Run.Event SampleErr)
shuts =
    Run.close
    ∷ Run.close_at 0
    ∷ Run.close_at 0
    ∷ Run.shutdown_step
    ∷ Run.shutdown_step
    ∷ Run.shutdown_step
    ∷ Run.close_at 0
    ∷ Run.shutdown_step
    ∷ Run.shutdown_step
    ∷ Run.shutdown_step
    ∷ Run.shutdown_step
    ∷ Run.close_at 0
    ∷ []
