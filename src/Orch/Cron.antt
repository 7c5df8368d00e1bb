-- ===== src/Orch/Cron.antt =====
-- pkg/orch/cron: the options (option.go), and the scheduler that `newCron` makes of them (cron.go).
pub mod Laws
pub mod Schedule
pub mod Loop
pub mod Closing
mod Tests
use concx.Prelude.{
  Bool, true, false, Option, none, some, List, [], ◌∷◌, ◌++◌, map, ◌&&◌, if◌then◌else◌,
}
use concx.Prelude.Int.{ℤ, pos, is_positive, leb_ℤ}
use concx.Schedx.Options.Settings.{
  Setting, max_pending, parallel, fifo_mode, close_timeout, unlimited, callback, undetached,
  applier,
}
use concx.Schedx.Options
use concx.Schedx.Options.{configure}

pub data OverlapPolicy : Type 0 where
  overlap_skip overlap_queue : OverlapPolicy

-- `option`. `T` is `time.Time`; names, locations and parsers are the caller's.
pub record CronOptions (Name Loc Parser T Err W : Type 0) : Type 0 where
  pub name : Name
  pub loc : Loc
  pub parser : Parser
  pub shutdown_timeout : ℤ
  pub parallel_jobs : ℤ
  pub max_backlog : ℤ
  pub unlimited_pending : Bool
  pub overlap : OverlapPolicy
  pub job_callback : Option (T → Option Err → W → W)
  pub disable_detached : Bool

abbrev pub callback_settings :
    {T Err W : Type 0} → Option (T → Option Err → W → W) → List (Setting T Err W)
callback_settings none = []
callback_settings (some f) = callback f ∷ []

module _ {Name Loc Parser T Err W : Type 0} where
  -- `defaultOption`, with the empty name, `time.Local` and `gDefaultParser`.
  unfoldable pub default_option : Name → Loc → Parser → CronOptions Name Loc Parser T Err W
  default_option empty local parser = record {
    name = empty;
    loc = local;
    parser = parser;
    shutdown_timeout = pos 5000000000;
    parallel_jobs = pos 1;
    max_backlog = pos 1;
    unlimited_pending = false;
    overlap = overlap_skip;
    job_callback = none;
    disable_detached = false;
  }

  unfoldable pub with_name :
      Name → CronOptions Name Loc Parser T Err W → CronOptions Name Loc Parser T Err W
  with_name n o = record o { name = n }

  -- A nil location, or parser, is `none`.
  unfoldable pub with_location :
      Option Loc → CronOptions Name Loc Parser T Err W → CronOptions Name Loc Parser T Err W
  with_location none o = o
  with_location (some l) o = record o { loc = l }

  unfoldable pub with_parser :
      Option Parser → CronOptions Name Loc Parser T Err W → CronOptions Name Loc Parser T Err W
  with_parser none o = o
  with_parser (some p) o = record o { parser = p }

  -- `WithSeconds`, with the parser that it makes.
  unfoldable pub with_seconds :
      Parser → CronOptions Name Loc Parser T Err W → CronOptions Name Loc Parser T Err W
  with_seconds six_fields o = record o { parser = six_fields }

  unfoldable pub with_shutdown_timeout :
      ℤ → CronOptions Name Loc Parser T Err W → CronOptions Name Loc Parser T Err W
  with_shutdown_timeout t o = record o { shutdown_timeout = t }

  unfoldable pub with_parallel :
      ℤ → CronOptions Name Loc Parser T Err W → CronOptions Name Loc Parser T Err W
  with_parallel n o = if is_positive n then record o { parallel_jobs = n } else o

  unfoldable pub with_max_pending :
      ℤ → CronOptions Name Loc Parser T Err W → CronOptions Name Loc Parser T Err W
  with_max_pending n o = record o { max_backlog = n }

  unfoldable pub without_pending_limitation :
      CronOptions Name Loc Parser T Err W → CronOptions Name Loc Parser T Err W
  without_pending_limitation o = record o { unlimited_pending = true }

  unfoldable pub with_overlap_skip :
      CronOptions Name Loc Parser T Err W → CronOptions Name Loc Parser T Err W
  with_overlap_skip o = record o { overlap = overlap_skip }

  unfoldable pub with_overlap_queue :
      ℤ → CronOptions Name Loc Parser T Err W → CronOptions Name Loc Parser T Err W
  with_overlap_queue n o = record o { overlap = overlap_queue; max_backlog = n }

  unfoldable pub with_callback :
      (T → Option Err → W → W)
      → CronOptions Name Loc Parser T Err W
      → CronOptions Name Loc Parser T Err W
  with_callback f o = record o { job_callback = some f }

  unfoldable pub without_detached :
      CronOptions Name Loc Parser T Err W → CronOptions Name Loc Parser T Err W
  without_detached o = record o { disable_detached = true }

  -- `schedOpts` of `newCron`.
  unfoldable pub sched_opts : CronOptions Name Loc Parser T Err W → List (Setting T Err W)
  sched_opts o =
      (parallel o.parallel_jobs
        ∷ max_pending o.max_backlog
        ∷ fifo_mode
        ∷ close_timeout o.shutdown_timeout
        ∷ [])
      ++ (if o.unlimited_pending then unlimited ∷ [] else [])
      ++ callback_settings o.job_callback
      ++ (if o.disable_detached then undetached ∷ [] else [])

  -- Whether `trigger` pushes the tick, with as many jobs running.
  unfoldable pub triggers : ℤ → CronOptions Name Loc Parser T Err W → Bool
  triggers running o = elim o.overlap [
    | overlap_skip ↦ if leb_ℤ o.parallel_jobs running then false else true
    | overlap_queue ↦ true
  ]
