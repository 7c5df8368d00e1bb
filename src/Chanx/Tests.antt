-- ===== src/Chanx/Tests.antt =====
-- Tests of observers and subjects, and the theorems on them at concrete histories.
use concx.Prelude.{
  ℕ, ◌+◌, ◌≤◌, ◌≡◌, ◌⊎◌, refl, true, false, none, some, List, [], ◌∷◌, ◌++◌, get_elem?, length,
  total, All,
}
use concx.Chanx.Lifetime
use concx.Chanx.Lifetime.{Calls, begun, closedch, got, cancel_cause, done_step}
use concx.Chanx.Lifetime.Laws.{Tells, lifetime_refines}
use concx.Chanx.Observer
use concx.Chanx.Observer.{Sender, Observer, selecting, new_observer}
use concx.Chanx.Observer.Order.{held, is_gone, values_in_order}
use concx.Chanx.Observer.Progress.{rank, IsNearer, cancel_frees}
use concx.Chanx.Subject
use concx.Chanx.Subject.{
  Subject, new_subject, has, is_free, joined, send_step, send_at_step, join_at_step, join_step,
  watch_step, cancel_begin, cascade_step,
}
use concx.Chanx.Subject.Delivery.{paid, unpaid, owed, due, FoundOnce, each_sent_once}
use concx.Chanx.Subject.Members.{is_canceled}
use concx.Chanx.Subject.Cascade.{cancel_reaches_all}

abbrev fresh : Calls ℕ
fresh = record { life = Lifetime.new; calls = [] }

-- A call of `Done` has seen nil when a cancellation without a cause comes.
abbrev asks : List (Lifetime.Event ℕ)
asks =
    Lifetime.ask
    ∷ Lifetime.ask_at 0
    ∷ Lifetime.cancel none
    ∷ Lifetime.ask_at 0
    ∷ Lifetime.cancel (some 7)
    ∷ []

lifetime_refines_example :
    let s = Lifetime.run 9 asks fresh in
    (s.life.err ≡ Lifetime.first_cause 9 asks none)
    × All (Tells s.life) s.calls
    × (s.life.panicked ≡ false)
lifetime_refines_example = lifetime_refines 9 asks

after_cancel : (Lifetime.run 9 asks fresh).calls ≡ got closedch ∷ []
unfolding Lifetime.run Lifetime.step Lifetime.ask_step done_step cancel_cause
after_cancel = refl

-- Two calls of `Send`; a reader gets the first value, and the pump takes the second.
abbrev passes : List (Observer.Event ℕ ℕ)
passes =
    Observer.send 4
    ∷ Observer.send 5
    ∷ Observer.pump_asks
    ∷ Observer.pump_asks
    ∷ Observer.send_at 0 true
    ∷ Observer.send_at 0 true
    ∷ Observer.send_at 0 true
    ∷ Observer.send_at 1 true
    ∷ Observer.send_at 1 true
    ∷ Observer.pump_asks
    ∷ Observer.receive
    ∷ Observer.pump_asks
    ∷ Observer.send_at 1 true
    ∷ []

values_in_order_example :
    let o = Observer.run 9 passes new_observer in
    (o.accepted ≡ o.received ++ (held o.pump ++ o.lost)) × (length (held o.pump ++ o.lost) ≤ 1)
values_in_order_example = values_in_order 9 passes

passed : (Observer.run 9 passes new_observer).accepted ≡ 4 ∷ 5 ∷ []
unfolding Observer.run Observer.step Observer.send_step new_observer done_step
passed = refl

-- A call of `Send` waits when the observer is canceled.
abbrev waits : List (Observer.Event ℕ ℕ)
waits = Observer.send 4 ∷ Observer.send_at 0 true ∷ Observer.cancel none ∷ []

abbrev waiting : Sender ℕ
waiting = record { value = 4; at = selecting begun }

cancel_frees_example :
    let o = Observer.run 9 waits new_observer in
    (IsNearer 0 waiting.at (Observer.step 9 (Observer.send_at 0 true) o)
      ⊎ ((true ≡ true) × (Observer.step 9 (Observer.send_at 0 true) o ≡ o)))
    × (rank waiting.at ≤ 2)
    × (is_gone (Observer.step 9 Observer.pump_stops (Observer.step 9 Observer.pump_asks o)).pump
        ≡ true)
cancel_frees_example =
    cancel_frees 9 waits 0 true waiting
      (unfold Observer.run Observer.step Observer.send_step new_observer cancel_cause in refl)
      (unfold Observer.run Observer.step Observer.send_step new_observer cancel_cause in refl)

-- Two observers subscribe, one of them as the cancellation runs; a value goes to the first.
abbrev shuts : List (Subject.Event ℕ ℕ)
shuts =
    Subject.observe
    ∷ Subject.join_at 0
    ∷ Subject.send 4
    ∷ Subject.send_at 0
    ∷ Subject.send_at 0
    ∷ Subject.cancel none
    ∷ Subject.observe
    ∷ Subject.join_at 1
    ∷ Subject.cascades
    ∷ Subject.cascades
    ∷ Subject.join_at 1
    ∷ Subject.join_at 1
    ∷ []

-- A call of `Send` comes when an observer has subscribed.
abbrev sends : List (Subject.Event ℕ ℕ)
sends = Subject.observe ∷ Subject.join_at 0 ∷ Subject.send 4 ∷ []

each_sent_once_example :
    let s = Subject.run 9 sends (new_subject []) in
    (total (paid (λ x. x) 0) s.log + total (unpaid (λ x. x) 0) s.senders
      ≡ total (owed (λ x. x) 0) s.senders)
    × (total (owed (λ x. x) 0) (Subject.step 9 (Subject.send_at 0) s).senders
        ≡ total (owed (λ x. x) 0) s.senders + due (λ x. x) 0 (get_elem? s.senders 0) s)
    × All (FoundOnce (λ x. x) 0) s.senders
each_sent_once_example = each_sent_once (λ x. x) 0 9 sends [] 0

-- The call owes the value once it has the lock.
due_now : due (λ x. x) 0 (some (Subject.entered 4)) (Subject.run 9 sends (new_subject [])) ≡ 4
unfolding Subject.run Subject.step new_subject join_at_step join_step total
due_now = refl

cancel_reaches_all_example :
    let s = Subject.run 9 shuts (new_subject []) in
    (has 1 s.subs ≡ false) × (is_canceled (get_elem? s.observers 1) ≡ true)
cancel_reaches_all_example =
    cancel_reaches_all 1 9 shuts [] 1
      (unfold Subject.run Subject.step new_subject send_step send_at_step join_at_step join_step
          cancel_begin cascade_step cancel_cause in
        refl)
      (unfold Subject.run Subject.step new_subject send_step send_at_step join_at_step join_step
          cancel_begin cascade_step cancel_cause in
        refl)
      (unfold Subject.run Subject.step new_subject send_step send_at_step join_at_step join_step
          cancel_begin cascade_step cancel_cause in
        refl)
