-- ===== src/Orch/Cron/Tests.antt =====
-- Tests of the cron options, and the theorem on them at concrete ones.
use concx.Prelude.{
  ℕ, ◌≡◌, ◌≤◌, ◌<◌, ◌⊎◌, refl, true, none, some, List, [], ◌∷◌, All, if◌then◌else◌, map, arith,
}
use concx.Prelude.Int.{ℤ, pos, negsuc, min_ℤ}
use concx.Codex.Sample.{SampleErr, sample_codex}
use concx.Nest
use concx.Schedx.Tasks.{fifo}
use concx.Schedx.Options.{Options, configure, max_parallel}
use concx.Schedx.Options.Settings.{applier}
use concx.Orch.Cron.{
  CronOptions, default_option, with_parallel, with_overlap_queue, without_pending_limitation,
  sched_opts,
}
use concx.Orch.Cron.Schedule.{Text, every, next, Parsed, parsed, failed, parse_schedule}
use concx.Orch.Cron.Loop
use concx.Orch.Cron.Closing
use concx.Orch.Cron.Laws.{cron_scheduler}

abbrev busy : CronOptions ℕ ℕ ℕ ℕ ℕ ℕ
busy =
    without_pending_limitation
      (with_overlap_queue (pos 7) (with_parallel (pos 3) (default_option 0 0 0)))

cron_scheduler_example :
    let s : Options ℕ ℕ ℕ = configure (map applier (sched_opts busy)) in
    (s.max_pending ≡ (if busy.unlimited_pending then negsuc 0 else busy.max_backlog))
    × (s.parallel ≡ min_ℤ busy.parallel_jobs max_parallel)
    × (s.close_timeout ≡ busy.shutdown_timeout)
    × (s.mode ≡ fifo)
    × (s.disable_detached ≡ busy.disable_detached)
cron_scheduler_example = cron_scheduler busy

-- Durations as numbers of nanoseconds in unary, and a parser that reads nothing.
abbrev read_unary : Text → Parsed ℤ ℕ
read_unary [] = failed 0
read_unary (n ∷ t) = parsed (pos n)

-- `@every` and a space before a duration; another text goes to the parser.
reads_every :
    (parse_schedule
        (λ t. t)
        read_unary
        (64 ∷ 101 ∷ 118 ∷ 101 ∷ 114 ∷ 121 ∷ 32 ∷ 5 ∷ [])
        (λ t. failed 1)
      ≡ parsed (every (pos 5)))
    × (parse_schedule (λ t. t) read_unary (64 ∷ 101 ∷ 5 ∷ []) (λ t. failed 1) ≡ failed 1)
unfolding parse_schedule
reads_every = (refl, refl)

-- Two ticks, the second of which finds the timer late.
abbrev ticks : List Loop.Event
ticks =
    Loop.by_timer
    ∷ Loop.elapse 5
    ∷ Loop.by_timer
    ∷ Loop.by_timer
    ∷ Loop.by_timer
    ∷ Loop.elapse 9
    ∷ Loop.by_timer
    ∷ Loop.by_timer
    ∷ []

later : (t n : ℕ) → next (every (pos 5)) t ≡ some n → t < n
unfolding next
later t n h = ground (arith, h)

ticks_in_order_example :
    let c = Loop.history busy (every (pos 5)) ticks (Loop.start 40) in
    Loop.Increasing c.pushed × All (λ x. x ≤ c.clock) c.pushed
ticks_in_order_example = Loop.ticks_in_order busy (every (pos 5)) later ticks 40

-- Two calls of `Close`, of which the second one comes first to the nest.
abbrev close_twice : List (Closing.Event SampleErr)
close_twice =
    Closing.close
    ∷ Closing.close
    ∷ Closing.close_at 1
    ∷ Closing.close_at 0
    ∷ Closing.close_at 1
    ∷ Closing.close_at 1
    ∷ Closing.by_nest Nest.advance
    ∷ Closing.by_nest Nest.advance
    ∷ Closing.close_at 1
    ∷ []

closed_once_example :
    let c = Closing.history (pos 7) close_twice (Closing.start none) in
    (c.closes ≤ 1) × ((c.closes ≡ 0) ⊎ (c.nest.done ≡ true))
closed_once_example = Closing.closed_once (pos 7) close_twice none
