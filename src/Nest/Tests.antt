-- ===== src/Nest/Tests.antt =====
-- Tests of the nest, and its theorems at concrete histories.
use concx.Prelude.{
  ◌≡◌, refl, true, false, Option, none, some, List, [], ◌∷◌, ◌++◌, inl, inr, arith, ◌≤◌, is_some,
}
use concx.Prelude.Int.{pos}
use concx.Codex.{nest, nest_closed, nest_close_timeout, sched, scheduler_canceled, join_errors}
use concx.Codex.Sample.{SampleErr, coded, joined, plain, sample_codex}
use concx.Nest.{
  Options, State, Event, spawn, cancel, exit, advance, timer, no_options, new, run, cancel_locked,
  spawn_locked, step, advance_close, wait_err,
}
use concx.Nest.Invariant.{Inv, IsJoined, done-IsJoined}
use concx.Nest.Closing.{spawn_after_cancel}
use concx.Nest.Hooks.{Call, before_called, after_called, recording, hooks_once, first_cause_kept}
use concx.Nest.Progress.{
  close_completes, close_completes_by_timer, hooks_left, timed_error, cancel_waits_for_exit, exits,
  close_alone, close_with_timer,
}

abbrev Log : Type 0
Log = List (Call SampleErr)

-- One second.
abbrev timed : Options Log SampleErr
timed = record { shutdown_timeout = pos 1000000000; before_close = none; after_close = none }

abbrev untimed : Options Log SampleErr
untimed = no_options

-- A goroutine is spawned, `Cancel` is called, and the timer fires.
abbrev timed_out : List (Event SampleErr)
timed_out = spawn ∷ cancel (some (plain 7)) ∷ close_with_timer

abbrev late : State SampleErr
late = (run timed timed_out (new none) []).0

timed_out_err : wait_err late ≡ some (some (joined (coded (nest nest_close_timeout)) (plain 7)))
unfolding run step spawn_locked cancel_locked advance_close new wait_err
timed_out_err = refl

late-done : late.done ≡ true
unfolding run step spawn_locked cancel_locked advance_close new
late-done = refl

done-IsJoined_example :
    (late.canceled ≡ true)
    × (is_some late.dispatched ≡ true)
    × (late.close_ctx_done ≡ true)
    × IsJoined timed late late.err
done-IsJoined_example = done-IsJoined timed timed_out none [] late-done

-- One goroutine runs, and nobody has called `Cancel`.
abbrev busy : State SampleErr
busy = record (new none) { live = 1 }

abbrev closing_busy : State SampleErr
closing_busy = cancel_locked (some (plain 7)) busy

busy-Inv : Inv untimed busy
unfolding new
busy-Inv = inl (refl, refl)

busy_timed-Inv : Inv timed busy
unfolding new
busy_timed-Inv = inl (refl, refl)

closing_busy-Inv : Inv untimed closing_busy
unfolding new cancel_locked
closing_busy-Inv = (refl, refl)

closing_timed-Inv : Inv timed closing_busy
unfolding new cancel_locked
closing_timed-Inv = (refl, refl)

closing_busy_canceled : closing_busy.canceled ≡ true
unfolding new cancel_locked
closing_busy_canceled = refl

busy_open : busy.canceled ≡ false
unfolding new
busy_open = refl

spawn_after_cancel_example :
    let t = (run untimed (spawn ∷ exit ∷ spawn ∷ []) closing_busy []).0 in
    (t.live ≤ closing_busy.live) × (spawn_locked t ≡ (t, some (coded (nest nest_closed))))
spawn_after_cancel_example =
    spawn_after_cancel untimed (spawn ∷ exit ∷ spawn ∷ []) closing_busy [] closing_busy_canceled

late-Inv : Inv timed late
unfolding run step spawn_locked cancel_locked advance_close new
late-Inv = inr (refl, refl, refl, refl, inr (refl, refl))

close_completes_example :
    (run untimed (exits closing_busy.live ++ close_alone) closing_busy []).0.done ≡ true
close_completes_example =
    close_completes untimed closing_busy [] closing_busy_canceled closing_busy-Inv

close_completes_by_timer_example :
    ((run timed (close_with_timer) closing_busy []).0.done ≡ true)
    × ((run timed (close_with_timer) closing_busy []).0.live ≡ closing_busy.live)
    × ((run timed (close_with_timer) closing_busy []).1
        ≡ hooks_left timed closing_busy.phase
            (timed_error timed closing_busy.phase closing_busy)
            [])
close_completes_by_timer_example =
    close_completes_by_timer timed closing_busy [] closing_busy_canceled closing_timed-Inv refl

cancel_waits_for_exit_example :
    (run untimed
      (advance ∷ advance ∷ spawn ∷ timer ∷ advance ∷ [])
      (cancel_locked none busy)
      []).0.done
    ≡ false
cancel_waits_for_exit_example =
    cancel_waits_for_exit untimed (advance ∷ advance ∷ spawn ∷ timer ∷ advance ∷ []) busy none []
      refl (refl, (refl, (refl, (refl, (refl, tt))))) busy-Inv busy_open (unfold new in omega arith)

-- The hooks of a close that times out.
recorded_end : (run (recording (pos 5) none) timed_out (new none) []).0.done ≡ true
unfolding run step spawn_locked cancel_locked advance_close new recording
recorded_end = refl

hooks_once_example :
    let (s, l) = run (recording (pos 5) none) timed_out (new none) [] in
    (e : Option SampleErr) × (l ≡ before_called ∷ after_called e ∷ [])
    × (s.err ≡ join_errors e none)
hooks_once_example = hooks_once (pos 5) none timed_out none recorded_end

kept_end :
    (run timed
      (close_with_timer)
      (cancel_locked (some (coded (sched scheduler_canceled))) busy)
      []).0.done
    ≡ true
unfolding run step cancel_locked advance_close new
kept_end = refl

first_cause_kept_example :
    sample_codex.is_code
      (run timed
        (close_with_timer)
        (cancel_locked (some (coded (sched scheduler_canceled))) busy)
        []).0.err
      (sched scheduler_canceled)
    ≡ true
first_cause_kept_example =
    first_cause_kept timed (sched scheduler_canceled) (close_with_timer) busy
      (some (coded (sched scheduler_canceled))) [] busy_timed-Inv busy_open refl kept_end
