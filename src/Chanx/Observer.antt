-- ===== src/Chanx/Observer.antt =====
-- pkg/chanx/observer.go: an observer with the goroutine that `NewNotifiableObserver` starts (the pump),
-- any number of goroutines that call `Send` or `CancelCause`, and the readers of `Value`.
pub mod Order
pub mod Progress
use concx.Prelude.{
  ℕ, Bool, true, false, Option, none, some, List, [], ◌∷◌, ◌++◌, is_some, if◌then◌else◌, get_elem?,
  set,
}
use concx.Chanx.Lifetime
use concx.Chanx.Lifetime.{Lifetime, DonePc, begun, missed, got, is_closed, done_step, cancel_cause}

-- Where the pump stands: at the first `select`, or at the second with a value, with how far it is with
-- the call of `o.Done()` there; or it has returned and so closed `value`.
pub data Pump (T : Type 0) : Type 0 where
  idle : DonePc → Pump T
  full : DonePc → T → Pump T
  gone : Pump T

-- Where a call of `Send` stands: before the test of `o.err`; at its `select`, with how far it is with
-- `o.Done()`; returned, where `true` is that `o.in` took the value.
pub data SendPc : Type 0 where
  entered : SendPc
  selecting : DonePc → SendPc
  finished : Bool → SendPc

pub record Sender (T : Type 0) : Type 0 where
  pub value : T
  pub at : SendPc

-- The last three are history: the values that `o.in` passed on, those that readers got, and those that
-- the pump held when it returned.
pub record Observer (T Err : Type 0) : Type 0 where
  pub life : Lifetime Err
  pub pump : Pump T
  pub senders : List (Sender T)
  pub accepted : List T
  pub received : List T
  pub lost : List T

pub data Event (T Err : Type 0) : Type 0 where
  send : T → Event T Err
  cancel : Option Err → Event T Err
  -- the next step of the call of `Send` at an index, where `true` is that its `select` takes `o.in`
  send_at : ℕ → Bool → Event T Err
  -- a step of the pump's `o.Done()`; its `select` takes that channel; a reader takes its value
  pump_asks : Event T Err
  pump_stops : Event T Err
  receive : Event T Err

module _ {T Err : Type 0} where
  unfoldable pub new_observer : Observer T Err
  new_observer = record {
    life = Lifetime.new;
    pump = idle begun;
    senders = [];
    accepted = [];
    received = [];
    lost = [];
  }

  abbrev put : Observer T Err → ℕ → Sender T → SendPc → Observer T Err
  put o i c at = record o { senders = set o.senders i (record c { at = at }) }

  abbrev ask : Observer T Err → ℕ → Sender T → Lifetime Err × DonePc → Observer T Err
  ask o i c (l, d) = record (put o i c (selecting d)) { life = l }

  -- `o.in <- x`, which waits for the pump.
  abbrev offer : Pump T → Observer T Err → ℕ → Sender T → Observer T Err
  offer (idle (got c)) o i s = record (put o i s (finished true)) {
    pump = full begun s.value;
    accepted = o.accepted ++ s.value ∷ [];
  }
  offer p o i s = o

  unfoldable pub send_step : Bool → ℕ → Sender T → SendPc → Observer T Err → Observer T Err
  send_step b i s entered o =
      put o i s (if is_some o.life.err then finished false else selecting begun)
  send_step true i s (selecting (got c)) o = offer o.pump o i s
  send_step false i s (selecting (got c)) o =
      if is_closed o.life c then put o i s (finished false) else o
  send_step b i s (selecting d) o = ask o i s (done_step d o.life)
  send_step b i s (finished r) o = o

  unfoldable pub send_at_step : Bool → ℕ → Option (Sender T) → Observer T Err → Observer T Err
  unfolding send_step
  send_at_step b i none o = o
  send_at_step b i (some s) o = send_step b i s s.at o

  abbrev pump_ask : Pump T → Observer T Err → Observer T Err
  pump_ask (idle d) o = let (l, d') = done_step d o.life in record o { life = l; pump = idle d' }
  pump_ask (full d x) o =
      let (l, d') = done_step d o.life in record o { life = l; pump = full d' x }
  pump_ask gone o = o

  abbrev pump_stop : Pump T → Observer T Err → Observer T Err
  pump_stop (idle (got c)) o = if is_closed o.life c then record o { pump = gone } else o
  pump_stop (full (got c) x) o =
      if is_closed o.life c then record o { pump = gone; lost = o.lost ++ x ∷ [] } else o
  pump_stop p o = o

  -- `o.value <- x`, and a reader that is there.
  abbrev pump_give : Pump T → Observer T Err → Observer T Err
  pump_give (full (got c) x) o = record o { pump = idle begun; received = o.received ++ x ∷ [] }
  pump_give p o = o

  -- One round of the goroutine of `NewNotifiableObserver`, by its three kinds of step.
  unfoldable pub pump_step : Event T Err → Observer T Err → Observer T Err
  pump_step pump_asks o = pump_ask o.pump o
  pump_step pump_stops o = pump_stop o.pump o
  pump_step receive o = pump_give o.pump o
  pump_step e o = o

  unfoldable pub step : Err → Event T Err → Observer T Err → Observer T Err
  unfolding pump_step send_at_step
  step completed (send x) o = record o {
    senders = o.senders ++ record { value = x; at = entered } ∷ [];
  }
  step completed (cancel cause) o = record o { life = cancel_cause completed cause o.life }
  step completed (send_at i b) o = send_at_step b i (get_elem? o.senders i) o
  step completed e o = pump_step e o

  unfoldable pub run : Err → List (Event T Err) → Observer T Err → Observer T Err
  run completed [] o = o
  run completed (e ∷ es) o = run completed es (step completed e o)
