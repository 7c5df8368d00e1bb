-- ===== src/Codex/Codes.antt =====
-- The codes: pkg/nest/error.go, pkg/schedx/error.go, pkg/orch/pipe/error.go.
use concx.Prelude.{ℕ, ◌==◌, Bool, false}

pub data NestError : Type 0 where
  undefined nest_closed nest_close_timeout : NestError

pub data SchedError : Type 0 where
  undefined reach_max_pending scheduler_not_running scheduler_rerun scheduler_canceled
        scheduler_job_panicked :
      SchedError

pub data PipeError : Type 0 where
  undefined pipeline_not_running reach_max_pending pipeline_canceled job_failed job_canceled
        pipeline_job_panicked pipeline_summary_panicked :
      PipeError

-- A code is a value of one of the three types.
pub data Code : Type 0 where
  nest : NestError → Code
  sched : SchedError → Code
  pipe : PipeError → Code

-- The number that `iota` gives.
abbrev pub nest_number : NestError → ℕ
nest_number NestError.undefined = 0
nest_number nest_closed = 1
nest_number nest_close_timeout = 2

abbrev pub sched_number : SchedError → ℕ
sched_number SchedError.undefined = 0
sched_number SchedError.reach_max_pending = 1
sched_number scheduler_not_running = 2
sched_number scheduler_rerun = 3
sched_number scheduler_canceled = 4
sched_number scheduler_job_panicked = 5

abbrev pub pipe_number : PipeError → ℕ
pipe_number PipeError.undefined = 0
pipe_number pipeline_not_running = 1
pipe_number PipeError.reach_max_pending = 2
pipe_number pipeline_canceled = 3
pipe_number job_failed = 4
pipe_number job_canceled = 5
pipe_number pipeline_job_panicked = 6
pipe_number pipeline_summary_panicked = 7

-- Two codes are the same if they have one type and one number.
abbrev pub code_eq : Code → Code → Bool
code_eq (nest a) (nest b) = nest_number a == nest_number b
code_eq (sched a) (sched b) = sched_number a == sched_number b
code_eq (pipe a) (pipe b) = pipe_number a == pipe_number b
code_eq _ _ = false
