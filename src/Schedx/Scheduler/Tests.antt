-- ===== src/Schedx/Scheduler/Tests.antt =====
-- Tests of the scheduler, and its theorems at concrete histories.
use concx.Prelude.{
  Option, suc, sym, ap, ℕ, ◌+◌, ◌≡◌, ◌≤◌, refl, false, none, some, length, All, List, [], ◌∷◌, ◌++◌,
  total,
}
use concx.Prelude.Int.{pos, pos_part, rounds}
use concx.Codex.Sample.{SampleErr, sample_codex}
use concx.Schedx.Tasks.{fifo}
use concx.Schedx.Sample.{boxes, boxes_laws}
use concx.Schedx.Options.{Options}
use concx.Schedx.Pool.{asleep, returned, gone, work_step}
use concx.Schedx.Pool.Counts.{reserved_by, uncounted}
use concx.Schedx.Pool.System.{
  Event, push, run, close, push_at, work_at, run_at, close_at, advance, history, step, init,
  run_at_step, run_step, work_at_step, close_at_step, close_step, nest_step,
}
use concx.Schedx.Scheduler.{Outcome, returns, scheduler, new_scheduler, before_close, after_close}
use concx.Schedx.Scheduler.Pending.{pending_counts, queue_bounded}
use concx.Schedx.Pool.History.{accepted_by, in_hand, ended}
use concx.Nest
use concx.Schedx.Scheduler.Workers.{workers_bounded, closed_without_workers}
use concx.Schedx.Scheduler.Exit.{exit_callback_once}
use concx.Schedx.Scheduler.Order.{fifo_order, jobs_conserved}
use concx.Schedx.Scheduler.Wakeup.{lost_wakeup, until_wait, push_then_wait}

-- The default options, with room for two tasks.
abbrev two : Options ℕ SampleErr (List ℕ)
two = record {
  max_pending = pos 2;
  parallel = pos 1;
  callback = none;
  user_exit_callback = none;
  close_timeout = pos 3000000000;
  disable_detached = false;
  mode = fifo;
}

abbrev fine : Outcome SampleErr
fine = returns none

-- `Run`, and two calls of `Push`, of which one has just counted its value.
abbrev pushes : List (Event ℕ (Outcome SampleErr) SampleErr)
pushes =
    run
    ∷ run_at 0
    ∷ run_at 0
    ∷ run_at 0
    ∷ run_at 0
    ∷ push 7
    ∷ push 8
    ∷ push_at 0
    ∷ push_at 1
    ∷ push_at 0
    ∷ push_at 1
    ∷ push_at 0
    ∷ push_at 1
    ∷ push_at 0
    ∷ push_at 1
    ∷ push_at 0
    ∷ push_at 1
    ∷ []

pending_counts_example :
    let s = history boxes (scheduler boxes two) pushes (new_scheduler boxes two [] none) in
    s.pool.pending
    ≡ pos (boxes.len s.pool.tasks + total reserved_by s.pushers + total uncounted s.workers)
pending_counts_example = pending_counts boxes boxes_laws two pushes [] none

queue_bounded_example :
    let p = (history boxes (scheduler boxes two) pushes (new_scheduler boxes two [] none)).pool in
    (boxes.len p.tasks ≤ pos_part p.pending) × (pos_part p.pending ≤ 2)
queue_bounded_example = queue_bounded boxes boxes_laws two pushes [] none 2 refl

lost_wakeup_example :
    let s =
      history boxes
        (scheduler boxes two)
        (until_wait boxes boxes_laws two fine
          ++ (push_then_wait boxes boxes_laws two 7 fine ++ (work_at 0 fine ∷ [])))
        (new_scheduler boxes two [] none) in
    (s.pushers ≡ record { value = 7; at = returned none } ∷ [])
    × (boxes_laws.items s.pool.tasks ≡ 7 ∷ [])
    × (s.workers ≡ asleep ∷ [])
    × (s.pool.taken ≡ [])
lost_wakeup_example =
    lost_wakeup boxes boxes_laws two [] 7 fine 1 (work_at 0 fine ∷ []) refl refl (refl, tt)

-- The one worker takes the first of the two values and works on it.
abbrev served : List (Event ℕ (Outcome SampleErr) SampleErr)
served =
    pushes
    ++ (work_at 0 fine ∷ work_at 0 fine ∷ work_at 0 fine ∷ work_at 0 fine ∷ work_at 0 fine ∷ [])

fifo_order_example :
    let p = (history boxes (scheduler boxes two) served (new_scheduler boxes two [] none)).pool in
    p.taken ++ boxes_laws.items p.tasks ≡ p.appended
fifo_order_example = fifo_order boxes boxes_laws two served [] none refl

jobs_conserved_example :
    let s = history boxes (scheduler boxes two) served (new_scheduler boxes two [] none) in
    total (accepted_by (λ v. v)) s.pushers
    ≡ total (λ v. v) (boxes_laws.items s.pool.tasks)
      + total (in_hand (λ v. v)) s.workers
      + total (ended (λ v. v)) s.pool.finished
jobs_conserved_example = jobs_conserved boxes boxes_laws two (λ v. v) served [] none

workers_bounded_example :
    length (history boxes (scheduler boxes two) pushes (new_scheduler boxes two [] none)).workers
    ≤ rounds two.parallel
workers_bounded_example = workers_bounded boxes two pushes [] none

-- `Close` comes while the worker looks for a task.
abbrev closes : List (Event ℕ (Outcome SampleErr) SampleErr)
closes =
    run
    ∷ run_at 0
    ∷ run_at 0
    ∷ run_at 0
    ∷ run_at 0
    ∷ work_at 0 fine
    ∷ work_at 0 fine
    ∷ close
    ∷ close_at 0
    ∷ close_at 0
    ∷ work_at 0 fine
    ∷ work_at 0 fine
    ∷ work_at 0 fine
    ∷ advance
    ∷ advance
    ∷ advance
    ∷ advance
    ∷ advance
    ∷ advance
    ∷ []

closed_without_workers_example :
    All
      (λ p. p ≡ gone)
      (history boxes (scheduler boxes two) closes (new_scheduler boxes two [] none)).workers
closed_without_workers_example =
    closed_without_workers boxes two closes [] none 0
      (unfold history step new_scheduler init run_at_step run_step work_at_step work_step
          close_at_step close_step nest_step Nest.new Nest.spawn_locked Nest.cancel_locked
          Nest.wg_done Nest.step Nest.advance_close before_close after_close in
        refl)
      (unfold history step new_scheduler init run_at_step run_step work_at_step work_step
          close_at_step close_step nest_step Nest.new Nest.spawn_locked Nest.cancel_locked
          Nest.wg_done Nest.step Nest.advance_close before_close after_close in
        refl)

-- An exit callback that counts its calls.
abbrev counts : List ℕ → SampleErr → ℕ → ℕ
counts ts reason w = suc w

abbrev counting : Options ℕ SampleErr ℕ
counting = record {
  max_pending = pos 2;
  parallel = pos 1;
  callback = none;
  user_exit_callback = some counts;
  close_timeout = pos 3000000000;
  disable_detached = false;
  mode = fifo;
}

abbrev call : Option (List ℕ → SampleErr → ℕ → ℕ) → List ℕ → SampleErr → ℕ → ℕ
call none ts reason w = w
call (some f) ts reason w = f ts reason w

called :
    (history boxes
      (scheduler boxes counting)
      closes
      (new_scheduler boxes counting 4 none)).pool.world.user
    ≡ 5
unfolding history step new_scheduler init run_at_step run_step work_at_step work_step close_at_step
    close_step nest_step Nest.new Nest.spawn_locked Nest.cancel_locked Nest.wg_done Nest.step
    Nest.advance_close before_close after_close
called = refl

exit_callback_once_example :
    (history boxes
      (scheduler boxes counting)
      closes
      (new_scheduler boxes counting 4 none)).pool.world.user
    ≤ 4 + 1
exit_callback_once_example =
    exit_callback_once boxes counting (λ w. w) (λ v e w. refl)
      (λ cb ts reason w h. sym (ap (λ o. call o ts reason w) h)) 4 closes none
