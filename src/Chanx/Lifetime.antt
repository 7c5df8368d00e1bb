-- ===== src/Chanx/Lifetime.antt =====
-- The fields `done` and `err` of pkg/chanx/observer.go, with `Done` and `CancelCause`;
-- pkg/chanx/subject.go has the same. A stretch of code under `mu` is one step: it reads and writes
-- nothing that the lock-free `done.Load` sees but by its one store, or its one close.
pub mod Laws
use concx.Prelude.{
  ℕ, Bool, true, false, ◌||◌, Option, none, some, List, [], ◌∷◌, ◌++◌, or_else, is_some,
  if◌then◌else◌, get_elem?, set,
}

-- The channels that `done` can hold: the one that `Done` makes, and `closedch`.
pub data Chan : Type 0 where
  own closedch : Chan

-- `own_closed`: the channel made by `Done` is closed. `panicked`: a closed channel was closed again.
pub record Lifetime (Err : Type 0) : Type 0 where
  pub err : Option Err
  pub done : Option Chan
  pub own_closed : Bool
  pub panicked : Bool

-- Where a call of `Done` stands: before `done.Load()`, past a load of nil, and with what it returned.
pub data DonePc : Type 0 where
  begun missed : DonePc
  got : Chan → DonePc

abbrev loaded : Option Chan → DonePc
loaded none = missed
loaded (some c) = got c

module _ {Err : Type 0} where
  abbrev pub new : Lifetime Err
  new = record { err = none; done = none; own_closed = false; panicked = false }

  abbrev pub is_closed : Lifetime Err → Chan → Bool
  is_closed s own = s.own_closed
  is_closed s closedch = true

  abbrev make : Option Chan → Lifetime Err → Lifetime Err × DonePc
  make none s = (record s { done = some own }, got own)
  make (some c) s = (s, got c)

  -- One step of `Done`: the load, and then the part under `mu`.
  unfoldable pub done_step : DonePc → Lifetime Err → Lifetime Err × DonePc
  done_step begun s = (s, loaded s.done)
  done_step missed s = make s.done s
  done_step (got c) s = (s, got c)

  -- `o.done.Store(closedch)`, or `close(d)`.
  abbrev stop : Option Chan → Lifetime Err → Lifetime Err
  stop none s = record s { done = some closedch }
  stop (some own) s = record s { own_closed = true; panicked = s.panicked || s.own_closed }
  stop (some closedch) s = record s { panicked = true }

  -- `CancelCause`; `completed` is `ErrCompleted`.
  unfoldable pub cancel_cause : Err → Option Err → Lifetime Err → Lifetime Err
  cancel_cause completed cause s =
      if is_some s.err then s else stop s.done (record s { err = some (or_else cause completed) })

-- `CancelCause`; a call of `Done` begins; the call of `Done` at an index takes its next step.
pub data Event (Err : Type 0) : Type 0 where
  cancel : Option Err → Event Err
  ask : Event Err
  ask_at : ℕ → Event Err

-- The lifetime, with all calls of `Done` that there were.
pub record Calls (Err : Type 0) : Type 0 where
  pub life : Lifetime Err
  pub calls : List DonePc

module _ {Err : Type 0} (completed : Err) where
  abbrev put : Calls Err → ℕ → Lifetime Err × DonePc → Calls Err
  put s i (l, pc) = record { life = l; calls = set s.calls i pc }

  unfoldable pub ask_step : ℕ → Option DonePc → Calls Err → Calls Err
  ask_step i none s = s
  ask_step i (some pc) s = put s i (done_step pc s.life)

  unfoldable pub step : Event Err → Calls Err → Calls Err
  step (cancel cause) s = record s { life = cancel_cause completed cause s.life }
  step ask s = record s { calls = s.calls ++ begun ∷ [] }
  step (ask_at i) s = ask_step i (get_elem? s.calls i) s

  unfoldable pub run : List (Event Err) → Calls Err → Calls Err
  run [] s = s
  run (e ∷ es) s = run es (step e s)

  -- The specification: a cell that keeps the cause of the first cancellation.
  unfoldable pub first_cause : List (Event Err) → Option Err → Option Err
  first_cause [] cell = cell
  first_cause (cancel cause ∷ es) cell =
      first_cause es (if is_some cell then cell else some (or_else cause completed))
  first_cause (e ∷ es) cell = first_cause es cell
