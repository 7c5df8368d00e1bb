-- ===== src/Schedx/Retrievable/System/Tests.antt =====
-- The retrievable scheduler's theorems at concrete histories.
use concx.Prelude.{ℕ, ◌+◌, ◌≡◌, refl, ◌⊎◌, true, false, none, some, All, List, [], ◌∷◌, ◌++◌, total}
use concx.Prelude.Int.{pos}
use concx.Codex.{sched, scheduler_canceled}
use concx.Codex.Sample.{SampleErr, sample_codex, coded, plain}
use concx.Nest
use concx.Schedx.Tasks.{fifo}
use concx.Schedx.Sample.{boxes, boxes_laws}
use concx.Schedx.Retrievable.{RetrievableOptions}
use concx.Schedx.Retrievable.Result
use concx.Schedx.Retrievable.Result.{settled, second, by_closed, by_context, wait_step}
use concx.Schedx.Pool.{push_step, work_step, broadcast, wake_one}
use concx.Schedx.Pool.Counts.{reserved_by, uncounted, IsWithin}
use concx.Schedx.Pool.History.{accepted_by, in_hand, ended}
use concx.Schedx.Pool.System.{
  Event, push, run, close, push_at, work_at, run_at, close_at, advance, init, run_at_step, run_step,
  push_at_step, work_at_step, close_at_step, close_step, nest_step,
}
use concx.Schedx.Pool.System
use concx.Schedx.Retrievable.System.{
  Task, Outcome, returns, Act, dismiss, pool, is_over, view, finish, failed, outcome, do_end,
  store_cause, before_close, dismiss_step, pool_step, step, history, new_retrievable,
}
use concx.Schedx.Retrievable.System.Answers.{FromJob, answer_of_job}
use concx.Schedx.Retrievable.System.Finish.{Failed, is_settled}
use concx.Schedx.Retrievable.System.Conserved.{at_hand, uncounted_by, tasks_conserved}
use concx.Schedx.Retrievable.System.Pending.{pending_with_dismissal}
use concx.Schedx.Retrievable.System.Closing.{answer_at_close, close_frees_waiters}

-- Room for two tasks, and one worker.
abbrev two : RetrievableOptions
two = record {
  max_pending = pos 2;
  parallel = pos 1;
  close_timeout = pos 3000000000;
  disable_detached = false;
  mode = fifo;
}

abbrev fine : Outcome ℕ SampleErr
fine = returns 9 none

abbrev times : ℕ → Act ℕ ℕ SampleErr → List (Act ℕ ℕ SampleErr)
times ℕ.zero a = []
times (ℕ.suc n) a = a ∷ times n a

-- `Run`, two calls of `Push`, and the worker does the first task.
abbrev served : List (Act ℕ ℕ SampleErr)
served =
    pool run ∷ times 4 (pool (run_at 0))
    ++ pool (push 7) ∷ pool (push 8) ∷ times 7 (pool (push_at 0))
    ++ times 7 (pool (push_at 1))
    ++ times 7 (pool (work_at 0 fine))

-- Then `Close`, up to the middle of `dismiss`, which has popped the second task.
abbrev dismissing : List (Act ℕ ℕ SampleErr)
dismissing =
    served ++ (pool close ∷ pool (close_at 0) ∷ pool (close_at 0) ∷ pool advance ∷ times 4 dismiss)

abbrev closes : List (Act ℕ ℕ SampleErr)
closes =
    dismissing
    ++ times 3 dismiss
    ++ times 2 (pool advance)
    ++ times 5 (pool (work_at 0 fine))
    ++ times 4 (pool advance)

abbrev ended_nest : Nest.State SampleErr
ended_nest = record {
  inherited = none;
  dispatched = some (coded (sched scheduler_canceled));
  live = 0;
  canceled = true;
  phase = Nest.free;
  close_ctx_done = true;
  err = some (coded (sched scheduler_canceled));
  done = true;
}

first_done :
    (history boxes 0 two closes (new_retrievable boxes 0 two none)).base.pool.world.rets 0
    ≡ settled 9 none
unfolding history step pool_step dismiss_step new_retrievable init System.step run_at_step run_step
    push_at_step push_step work_at_step work_step close_at_step close_step nest_step Nest.new
    Nest.spawn_locked Nest.cancel_locked Nest.wg_done Nest.step Nest.advance_close before_close
    broadcast wake_one do_end finish failed outcome store_cause Result.step
first_done = refl

all_closed :
    (history boxes 0 two closes (new_retrievable boxes 0 two none)).base.nest ≡ some ended_nest
unfolding history step pool_step dismiss_step new_retrievable init System.step run_at_step run_step
    push_at_step push_step work_at_step work_step close_at_step close_step nest_step Nest.new
    Nest.spawn_locked Nest.cancel_locked Nest.wg_done Nest.step Nest.advance_close before_close
    broadcast wake_one do_end finish failed outcome store_cause Result.step
all_closed = refl

answer_of_job_example :
    let p = (history boxes 0 two closes (new_retrievable boxes 0 two none)).base.pool in
    FromJob 0 0 p.finished 9 none ⊎ Failed {Out = ℕ} {Err = SampleErr} 0 p.world.closed 9 none
answer_of_job_example = answer_of_job boxes 0 two closes none 0 9 none first_done

tasks_conserved_example :
    let s = history boxes 0 two dismissing (new_retrievable boxes 0 two none) in
    let p = s.base.pool in
    let w : Task ℕ → ℕ = λ v. v.input in
    (total (accepted_by w) s.base.pushers
      ≡ total w (boxes_laws.items p.tasks)
        + (total (in_hand w) s.base.workers + at_hand w s.dismissal)
        + (total (ended w) p.finished + total w s.dismissed))
    × All
        (λ (j : Task ℕ × Outcome ℕ SampleErr). is_settled (p.world.rets (j.0).ret) ≡ true)
        p.finished
    × All (λ (v : Task ℕ). is_settled (p.world.rets v.ret) ≡ true) s.dismissed
tasks_conserved_example =
    tasks_conserved boxes boxes_laws 0 two (λ (v : Task ℕ). v.input) dismissing none

pending_with_dismissal_example :
    let s = history boxes 0 two dismissing (new_retrievable boxes 0 two none) in
    let p = s.base.pool in
    (p.pending
      ≡ pos (
          boxes.len p.tasks
          + total reserved_by s.base.pushers
          + (total uncounted s.base.workers + uncounted_by s.dismissal)))
    × IsWithin two.max_pending p.pending
pending_with_dismissal_example = pending_with_dismissal boxes boxes_laws 0 two dismissing none

close_frees_waiters_example :
    let s = history boxes 0 two closes (new_retrievable boxes 0 two none) in
    let r = view 0 1 s.base.pool.world in
    (is_over s.dismissal ≡ true)
    × (wait_step 0 (by_context (plain 1)) (wait_step 0 by_closed second r) r
        ≡ answer_at_close 0 r.once r.cause)
close_frees_waiters_example =
    close_frees_waiters boxes 0 two closes none ended_nest 1 (by_context (plain 1)) all_closed refl
