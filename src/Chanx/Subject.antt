-- ===== src/Chanx/Subject.antt =====
-- pkg/chanx/subject.go: a subject with its subscribers, and any number of goroutines that call
-- `Send`, `Subscribe` and `CancelCause`. Subscribers have numbers; what a subject does to one is to
-- cancel it, to send it a value, and to wait for its `Done`.
pub mod Members
pub mod Cascade
pub mod Delivery
use concx.Prelude.{
  ℕ, ◌==◌, Bool, true, false, ◌||◌, Option, none, some, List, [], ◌∷◌, ◌++◌, is_some, or_else,
  if◌then◌else◌, get_elem?, set, length,
}
use concx.Chanx.Lifetime
use concx.Chanx.Lifetime.{Lifetime, DonePc, done_step, cancel_cause}

-- Where a call of `Send` stands: before the lock; in its loop, with all subscribers that it has found
-- and those that are left; returned.
pub data SendPc (T : Type 0) : Type 0 where
  entered : T → SendPc T
  passing : T → (found left : List ℕ) → SendPc T
  sent : T → (found : List ℕ) → SendPc T
  refused : SendPc T

-- Where a call of `Subscribe` stands: before the lock; before the call of `o.CancelCause`; returned.
pub data JoinPc (Err : Type 0) : Type 0 where
  joining : ℕ → JoinPc Err
  rejecting : ℕ → Err → JoinPc Err
  joined : ℕ → JoinPc Err

-- The goroutine that `Subscribe` starts: before `<-o.Done()`, and past its end.
pub data WatchPc : Type 0 where
  watching : ℕ → WatchPc
  ended : WatchPc

-- `cascade`: a call of `CancelCause` holds `mu` in its loop, with its error and the subscribers that
-- are left. `log` is history: which subscriber was sent what, in order.
pub record Subject (T Err : Type 0) : Type 0 where
  pub life : Lifetime Err
  pub cascade : Option (Err × List ℕ)
  pub subs : List ℕ
  pub observers : List (Lifetime Err)
  pub senders : List (SendPc T)
  pub joiners : List (JoinPc Err)
  pub watchers : List WatchPc
  pub log : List (ℕ × T)

pub data Event (T Err : Type 0) : Type 0 where
  -- `CancelCause` gets the lock; the next round of its loop, or its end
  cancel : Option Err → Event T Err
  cascades : Event T Err
  -- a call begins, `Subscribe` with an observer that there is; `Observe` makes its observer first
  send : T → Event T Err
  subscribe : ℕ → Event T Err
  observe : Event T Err
  -- the goroutine at an index takes its next step
  send_at join_at watch_at : ℕ → Event T Err
  -- somebody else cancels a subscriber
  cancel_observer : ℕ → Option Err → Event T Err

-- A map's keys: a key is there once.
abbrev pub has : ℕ → List ℕ → Bool
has o [] = false
has o (p ∷ ps) = p == o || has o ps

abbrev pub add : ℕ → List ℕ → List ℕ
add o ps = if has o ps then ps else o ∷ ps

abbrev pub remove : ℕ → List ℕ → List ℕ
remove o [] = []
remove o (p ∷ ps) = if p == o then remove o ps else p ∷ remove o ps

-- `mu` is free for others.
abbrev pub is_free {ℓ} : {C : Type ℓ} → Option C → Bool
is_free none = true
is_free (some c) = false

-- A subscriber's own `CancelCause`.
abbrev pub cancel_at :
    {Err : Type 0}
    → Err
    → ℕ
    → Option Err
    → List (Lifetime Err)
    → Option (Lifetime Err)
    → List (Lifetime Err)
cancel_at completed o cause ls none = ls
cancel_at completed o cause ls (some l) = set ls o (cancel_cause completed cause l)

module _ {T Err : Type 0} where
  unfoldable pub new_subject : List (Lifetime Err) → Subject T Err
  new_subject observers = record {
    life = Lifetime.new;
    cascade = none;
    subs = [];
    observers = observers;
    senders = [];
    joiners = [];
    watchers = [];
    log = [];
  }

  -- `Done`, as a step of a call of it.
  unfoldable pub subject_done : DonePc → Subject T Err → Subject T Err × DonePc
  subject_done pc s = let (l, pc') = done_step pc s.life in (record s { life = l }, pc')

  unfoldable pub send_step : SendPc T → Subject T Err → Subject T Err × SendPc T
  send_step (entered x) s = (
    s,
    if is_free s.cascade
        then (if is_some s.life.err then refused else passing x s.subs s.subs)
        else entered x,
  )
  send_step (passing x found []) s = (s, sent x found)
  send_step (passing x found (o ∷ left)) s =
      (record s { log = s.log ++ (o, x) ∷ [] }, passing x found left)
  send_step (sent x found) s = (s, sent x found)
  send_step refused s = (s, refused)

  -- `delete(s.subs, o)`, once `o` is done.
  abbrev unwatch : ℕ → ℕ → Option (Lifetime Err) → Subject T Err → Subject T Err
  unwatch i o none s = s
  unwatch i o (some l) s =
      if is_some l.err
      then (if is_free s.cascade
          then record s { subs = remove o s.subs; watchers = set s.watchers i ended }
          else s)
      else s

  unfoldable pub watch_step : ℕ → Option WatchPc → Subject T Err → Subject T Err
  watch_step i (some (watching o)) s = unwatch i o (get_elem? s.observers o) s
  watch_step i w s = s

  abbrev put_sender : ℕ → Subject T Err × SendPc T → Subject T Err
  put_sender i (s, pc) = record s { senders = set s.senders i pc }

  unfoldable pub send_at_step : ℕ → Option (SendPc T) → Subject T Err → Subject T Err
  send_at_step i none s = s
  send_at_step i (some pc) s = put_sender i (send_step pc s)

module _ {T Err : Type 0} (completed : Err) where
  abbrev pub with_canceled : ℕ → Option Err → Subject T Err → Subject T Err
  with_canceled o cause s = record s {
    observers = cancel_at completed o cause s.observers (get_elem? s.observers o);
  }

  unfoldable pub join_step : ℕ → JoinPc Err → Subject T Err → Subject T Err
  join_step i (joining o) s =
      if is_free s.cascade
      then (elim s.life.err [
        | some e ↦ record s { joiners = set s.joiners i (rejecting o e) }
        | none ↦ record s {
          subs = add o s.subs;
          joiners = set s.joiners i (joined o);
          watchers = s.watchers ++ watching o ∷ [];
        }
      ])
      else s
  join_step i (rejecting o e) s = record (with_canceled o (some e) s) {
    joiners = set s.joiners i (joined o);
  }
  join_step i (joined o) s = s

  unfoldable pub join_at_step : ℕ → Option (JoinPc Err) → Subject T Err → Subject T Err
  join_at_step i none s = s
  join_at_step i (some pc) s = join_step i pc s

  -- `CancelCause` up to its loop, and a round of the loop.
  unfoldable pub cancel_begin : Option Err → Subject T Err → Subject T Err
  cancel_begin cause s =
      if is_free s.cascade
      then (if is_some s.life.err then s else record s {
        life = cancel_cause completed cause s.life;
        cascade = some (or_else cause completed, s.subs);
      })
      else s

  unfoldable pub cascade_step : Option (Err × List ℕ) → Subject T Err → Subject T Err
  cascade_step none s = s
  cascade_step (some (e, [])) s = record s { cascade = none; subs = [] }
  cascade_step (some (e, o ∷ left)) s = record (with_canceled o (some e) s) {
    cascade = some (e, left);
  }

  unfoldable pub step : Event T Err → Subject T Err → Subject T Err
  unfolding cancel_begin cascade_step send_at_step join_at_step watch_step
  step (cancel cause) s = cancel_begin cause s
  step cascades s = cascade_step s.cascade s
  step (send x) s = record s { senders = s.senders ++ entered x ∷ [] }
  step (subscribe o) s =
      if is_some (get_elem? s.observers o)
      then record s { joiners = s.joiners ++ joining o ∷ [] }
      else s
  step observe s = record s {
    observers = s.observers ++ Lifetime.new ∷ [];
    joiners = s.joiners ++ joining (length s.observers) ∷ [];
  }
  step (send_at i) s = send_at_step i (get_elem? s.senders i) s
  step (join_at i) s = join_at_step i (get_elem? s.joiners i) s
  step (watch_at i) s = watch_step i (get_elem? s.watchers i) s
  step (cancel_observer o cause) s = with_canceled o cause s

  unfoldable pub run : List (Event T Err) → Subject T Err → Subject T Err
  run [] s = s
  run (e ∷ es) s = run es (step e s)
