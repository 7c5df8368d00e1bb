-- ===== src/Orch/Pipe/Errors.antt =====
-- pkg/orch/pipe: the classes of errors (error.go).
use concx.Prelude.{◌≡◌, Bool, true, false, ◌||◌, Option, none, some, if◌then◌else◌}
use concx.Codex.{
  Codex, PipeError, pipe, sched, scheduler_canceled, pipeline_not_running, pipeline_canceled,
  job_failed, job_canceled, pipeline_job_panicked, pipeline_summary_panicked,
}

-- The class of a code.
abbrev pub class : PipeError → Bool × Bool × Bool
class PipeError.undefined = (false, false, false)
class pipeline_not_running = (true, false, false)
class PipeError.reach_max_pending = (true, false, false)
class pipeline_canceled = (false, true, false)
class job_failed = (false, false, true)
class job_canceled = (false, false, true)
class pipeline_job_panicked = (false, false, true)
class pipeline_summary_panicked = (false, false, true)

module _ {Err : Type 0} ⦃x : Codex Err⦄ where
  abbrev has : Option Err → PipeError → Bool
  has e c = x.is_code e (pipe c)

  unfoldable pub is_pipeline_error : Option Err → Bool
  is_pipeline_error e = has e pipeline_not_running || has e PipeError.reach_max_pending

  unfoldable pub is_shutdown : Option Err → Bool
  is_shutdown e =
      has e pipeline_canceled || x.is_code e (sched scheduler_canceled) || x.is_context e

  unfoldable pub is_task_error : Option Err → Bool
  unfolding is_pipeline_error is_shutdown
  is_task_error none = false
  is_task_error (some e) =
      if is_pipeline_error (some e) || is_shutdown (some e)
      then false
      else has (some e) pipeline_job_panicked
        || has (some e) pipeline_summary_panicked
        || has (some e) job_failed
        || has (some e) job_canceled

  -- Which of the tests an error passes.
  unfoldable pub classes : Option Err → Bool × Bool × Bool
  classes e = (is_pipeline_error e, is_shutdown e, is_task_error e)

module _ (Err : Type 0) ⦃x : Codex Err⦄ where
  -- The three tests split the codes: an error made of a code is in exactly one class, and only the
  -- undefined code is in none.
  pub classes_of_code : (c : PipeError) → classes (some (x.new (pipe c))) ≡ class c
  unfolding classes is_pipeline_error is_shutdown is_task_error
  classes_of_code PipeError.undefined = simp (x.is_code-new, x.is_context-new)
  classes_of_code pipeline_not_running = simp (x.is_code-new, x.is_context-new)
  classes_of_code PipeError.reach_max_pending = simp (x.is_code-new, x.is_context-new)
  classes_of_code pipeline_canceled = simp (x.is_code-new, x.is_context-new)
  classes_of_code job_failed = simp (x.is_code-new, x.is_context-new)
  classes_of_code job_canceled = simp (x.is_code-new, x.is_context-new)
  classes_of_code pipeline_job_panicked = simp (x.is_code-new, x.is_context-new)
  classes_of_code pipeline_summary_panicked = simp (x.is_code-new, x.is_context-new)
