-- ===== src/Orch/Pipe/Ticket.antt =====
-- pkg/orch/pipe/ticket.go: the ticket of one value in flight, which the stages finish and the job of
-- the scheduler waits for.
use concx.Prelude.{◌≡◌, refl, ◌∙◌, Bool, true, Option, none, some, List, [], ◌∷◌, if◌then◌else◌}
use concx.Codex.{Codex, pipe, pipeline_canceled}

-- `ticket`: what the function in `once.Do` has done. Before it; after the assignment and before
-- `close(t.done)`; after it.
pub data Ticket (Tail Err : Type 0) : Type 0 where
  waiting : Ticket Tail Err
  assigned : Tail → Option Err → Ticket Tail Err
  done : Tail → Option Err → Ticket Tail Err

-- A call of `finish` gets to `once.Do`; `close(t.done)`; the pipeline closes `closed`.
pub data Event (Tail Err : Type 0) : Type 0 where
  finish : Tail → Option Err → Event Tail Err
  publish : Event Tail Err
  close : Event Tail Err

-- Where a call of `wait` stands: before its first `select`, in the second, past `closed`.
pub data WaitPc (Tail Err : Type 0) : Type 0 where
  first : WaitPc Tail Err
  second : WaitPc Tail Err
  saw_closed : WaitPc Tail Err
  got : Tail → Option Err → WaitPc Tail Err

-- The case that `select` takes where several are ready, with `ctx.Err()`.
pub data Choice (Err : Type 0) : Type 0 where
  by_done : Choice Err
  by_context : Err → Choice Err
  by_closed : Choice Err

module _ {Tail Err : Type 0} where
  unfoldable pub step : Event Tail Err → Ticket Tail Err × Bool → Ticket Tail Err × Bool
  step (finish out err) (waiting, c) = (assigned out err, c)
  step publish (assigned out err, c) = (done out err, c)
  step close (t, c) = (t, true)
  step e (t, c) = (t, c)

  unfoldable pub run : List (Event Tail Err) → Ticket Tail Err × Bool → Ticket Tail Err × Bool
  run [] s = s
  run (e ∷ es) s = run es (step e s)

  -- `failed`
  abbrev pub failed : Tail → Err → Event Tail Err
  failed zero_tail err = finish zero_tail (some err)

module _ {Tail Err : Type 0} ⦃x : Codex Err⦄ (zero_tail : Tail) where
  abbrev if_done : Ticket Tail Err → WaitPc Tail Err → WaitPc Tail Err
  if_done (done out err) w = got out err
  if_done t w = w

  -- One step of `wait`. A case that is not ready is not taken.
  unfoldable pub wait_step : Choice Err → WaitPc Tail Err → Ticket Tail Err × Bool → WaitPc Tail Err
  wait_step c first (t, b) = if_done t second
  wait_step by_done second (t, b) = if_done t second
  wait_step (by_context e) second (t, b) = got zero_tail (some (x.wrap (pipe pipeline_canceled) e))
  wait_step by_closed second (t, b) = if b then saw_closed else second
  wait_step c saw_closed (t, b) = if_done t (got zero_tail (some (x.new (pipe pipeline_canceled))))
  wait_step c (got out err) (t, b) = got out err

  -- What a waiter gets that comes upon the close.
  abbrev pub answer : Ticket Tail Err → Tail × Option Err
  answer (done out err) = (out, err)
  answer t = (zero_tail, some (x.new (pipe pipeline_canceled)))

  -- No call of `wait` is left waiting by a close: one that takes the case of `closed` returns with
  -- its next step, with what the ticket holds if it is done, and else with `PIPELINE_CANCELED`.
  pub wait_ends :
      (c : Choice Err) (t : Ticket Tail Err)
      → wait_step c (wait_step by_closed second (t, true)) (t, true) ≡ got (answer t).0 (answer t).1
  unfolding wait_step
  wait_ends c waiting = refl
  wait_ends c (assigned out err) = refl
  wait_ends c (done out err) = refl

module _ {Tail Err : Type 0} where
  -- What the first call of `finish` in a history brings.
  abbrev pub first_finish : List (Event Tail Err) → Option (Tail × Option Err)
  first_finish [] = none
  first_finish (finish out err ∷ es) = some (out, err)
  first_finish (e ∷ es) = first_finish es

  abbrev pub chosen : Ticket Tail Err → Option (Tail × Option Err)
  chosen waiting = none
  chosen (assigned out err) = some (out, err)
  chosen (done out err) = some (out, err)

  step-assigned :
      (e : Event Tail Err) (out : Tail) (err : Option Err) (c : Bool)
      → chosen (step e (assigned out err, c)).0 ≡ some (out, err)
  unfolding step
  step-assigned (finish o r) out err c = refl
  step-assigned publish out err c = refl
  step-assigned close out err c = refl

  step-done :
      (e : Event Tail Err) (out : Tail) (err : Option Err) (c : Bool)
      → chosen (step e (done out err, c)).0 ≡ some (out, err)
  unfolding step
  step-done (finish o r) out err c = refl
  step-done publish out err c = refl
  step-done close out err c = refl

  step-chosen :
      (e : Event Tail Err) (t : Ticket Tail Err) (c : Bool) (r : Tail × Option Err)
      → chosen t ≡ some r
      → chosen (step e (t, c)).0 ≡ some r
  step-chosen e waiting c r h = absurd (cc)
  step-chosen e (assigned out err) c r h = step-assigned e out err c ∙ h
  step-chosen e (done out err) c r h = step-done e out err c ∙ h

  run-chosen :
      (es : List (Event Tail Err)) (t : Ticket Tail Err) (c : Bool) (r : Tail × Option Err)
      → chosen t ≡ some r
      → chosen (run es (t, c)).0 ≡ some r
  unfolding run
  run-chosen [] t c r h = h
  run-chosen (e ∷ es) t c r h =
      let (t', c') = step e (t, c) in run-chosen es t' c' r (step-chosen e t c r h)

  -- Whatever stages and calls race for a ticket, it holds what the first `finish` brought: the later
  -- ones, and the close of the pipeline, change nothing.
  pub first_finish_wins :
      (es : List (Event Tail Err)) (c : Bool) → chosen (run es (waiting, c)).0 ≡ first_finish es
  unfolding run step
  first_finish_wins [] c = refl
  first_finish_wins (finish out err ∷ es) c = run-chosen es (assigned out err) c (out, err) refl
  first_finish_wins (publish ∷ es) c = first_finish_wins es c
  first_finish_wins (close ∷ es) c = first_finish_wins es true
