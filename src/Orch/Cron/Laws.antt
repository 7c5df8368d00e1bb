-- ===== src/Orch/Cron/Laws.antt =====
-- pkg/orch/cron: what the scheduler of a cron is configured to.
use concx.Prelude.{
  ◌≡◌, refl, Bool, true, false, Option, none, some, List, [], ◌∷◌, ◌++◌, map, last_or, ◌∙◌,
  if◌then◌else◌,
}
use concx.Prelude.Int.{pos, negsuc, min_ℤ}
use concx.Schedx.Tasks.{fifo}
use concx.Schedx.Options.{Options, configure, three_seconds, max_parallel}
use concx.Schedx.Options.Settings.{
  Setting, max_pending, parallel, fifo_mode, close_timeout, unlimited, undetached, applier,
  configure_last, pending_of, parallel_of, timeout_of, mode_of, undetached_of,
}
use concx.Orch.Cron.{CronOptions, callback_settings, sched_opts}

module _ {Name Loc Parser T Err W : Type 0} where
  -- The settings of `newCron`, by the three that may be there.
  abbrev opts :
      CronOptions Name Loc Parser T Err W
      → Bool
      → Option (T → Option Err → W → W)
      → Bool
      → List (Setting T Err W)
  opts o u c d =
      (parallel o.parallel_jobs
        ∷ max_pending o.max_backlog
        ∷ fifo_mode
        ∷ close_timeout o.shutdown_timeout
        ∷ [])
      ++ (if u then unlimited ∷ [] else [])
      ++ callback_settings c
      ++ (if d then undetached ∷ [] else [])

  opts_last :
      (o : CronOptions Name Loc Parser T Err W) (u : Bool) (c : Option (T → Option Err → W → W))
      (d : Bool)
      → (last_or pending_of (opts o u c d) (pos 1) ≡ (if u then negsuc 0 else o.max_backlog))
        × (last_or parallel_of (opts o u c d) (pos 1) ≡ min_ℤ o.parallel_jobs max_parallel)
        × (last_or timeout_of (opts o u c d) three_seconds ≡ o.shutdown_timeout)
        × (last_or mode_of (opts o u c d) fifo ≡ fifo)
        × (last_or undetached_of (opts o u c d) false ≡ d)
  opts_last o true none true = (refl, refl, refl, refl, refl)
  opts_last o true none false = (refl, refl, refl, refl, refl)
  opts_last o true (some f) true = (refl, refl, refl, refl, refl)
  opts_last o true (some f) false = (refl, refl, refl, refl, refl)
  opts_last o false none true = (refl, refl, refl, refl, refl)
  opts_last o false none false = (refl, refl, refl, refl, refl)
  opts_last o false (some f) true = (refl, refl, refl, refl, refl)
  opts_last o false (some f) false = (refl, refl, refl, refl, refl)

  -- The scheduler of a cron is in FIFO mode, has as many workers as the option says but not more than
  -- `MaxParallel`, waits for the shutdown timeout, is detached unless the options say otherwise, and
  -- has no limit if one of the options lifted it, whatever limit another one set, and the limit of the
  -- options otherwise.
  pub cron_scheduler :
      (o : CronOptions Name Loc Parser T Err W)
      → let s : Options T Err W = configure (map applier (sched_opts o)) in
        (s.max_pending ≡ (if o.unlimited_pending then negsuc 0 else o.max_backlog))
        × (s.parallel ≡ min_ℤ o.parallel_jobs max_parallel)
        × (s.close_timeout ≡ o.shutdown_timeout)
        × (s.mode ≡ fifo)
        × (s.disable_detached ≡ o.disable_detached)
  unfolding sched_opts
  cron_scheduler o =
      let last = configure_last (sched_opts o) in
      let (pending, parallels, timeout, mode, detached) =
        opts_last o o.unlimited_pending o.job_callback o.disable_detached in
      (last.0 ∙ pending, last.1 ∙ parallels, last.2 ∙ timeout, last.3 ∙ mode, last.4 ∙ detached)
