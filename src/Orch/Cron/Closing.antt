-- ===== src/Orch/Cron/Closing.antt =====
-- pkg/orch/cron/cron.go: any number of calls of `Close`, and the nest of the cron.
use concx.Prelude.{
  ℕ, suc, ◌+◌, ◌≤◌, ◌≡◌, refl, if_split, if_elim, sym, ap, ◌⊎◌, subst, All, All-append_one, All-get,
  All-set, All-imp, Bool, true, false, Option, none, some, List, [], ◌∷◌, ◌++◌, if◌then◌else◌,
  get_elem?, set, total, total-append, total-one, total-set, total-get, arith, inl, inr,
}
use concx.Prelude.Int.{ℤ}
use concx.Codex.{Codex, sched, scheduler_canceled}
use concx.Nest
use concx.Nest.Past.{cancel-done, step-done}

-- A call of `Close`: before the compare-and-swap, before `c.cancel()`, before `c.nest.Cancel`, before
-- `c.sched.Close()`, before `<-c.nest.Done()`, before `close(c.done)`, returned.
pub data ClosePc : Type 0 where
  begun canceling nest_canceling sched_closing awaiting signaling returned : ClosePc

-- `ended`: `c.cancel` was called, which is nil from then on. `closes` counts the times that `done` was
-- closed.
pub record Cron (Err : Type 0) : Type 0 where
  pub closed : Bool
  pub ended : Bool
  pub nest : Nest.State Err
  pub sched_closed : Bool
  pub closes : ℕ
  pub closers : List ClosePc

pub data Event (Err : Type 0) : Type 0 where
  -- a call begins, by the owner or by the goroutine that waits for the context; one takes a step
  close : Event Err
  close_at : ℕ → Event Err
  -- an event of the nest, of its own or of its goroutines
  by_nest : Nest.Event Err → Event Err

module _ {Err : Type 0} ⦃x : Codex Err⦄ (timeout : ℤ) where
  abbrev put : ℕ → ClosePc → Cron Err → Cron Err
  put i p c = record c { closers = set c.closers i p }

  unfoldable pub close_step : ℕ → Option ClosePc → Cron Err → Cron Err
  close_step i (some begun) c =
      if c.closed then put i returned c else put i canceling (record c { closed = true })
  close_step i (some canceling) c = put i nest_canceling (record c { ended = true })
  close_step i (some nest_canceling) c =
      if Nest.is_free c.nest.phase
      then put i sched_closing
          (record c { nest = Nest.cancel_locked (some (x.new (sched scheduler_canceled))) c.nest })
      else c
  close_step i (some sched_closing) c = put i awaiting (record c { sched_closed = true })
  close_step i (some awaiting) c = if c.nest.done then put i signaling c else c
  close_step i (some signaling) c = put i returned (record c { closes = suc c.closes })
  close_step i p c = c

  abbrev nest_options : Nest.Options (Unit {0}) Err
  nest_options = Nest.with_shutdown_timeout timeout Nest.no_options

  unfoldable pub step : Event Err → Cron Err → Cron Err
  unfolding close_step
  step close c = record c { closers = c.closers ++ begun ∷ [] }
  step (close_at i) c = close_step i (get_elem? c.closers i) c
  step (by_nest e) c = record c { nest = (Nest.step nest_options e c.nest tt).0 }

  unfoldable pub history : List (Event Err) → Cron Err → Cron Err
  history [] c = c
  history (e ∷ es) c = history es (step e c)

-- A cron over a context that has ended if there is a cause.
unfoldable pub start : {Err : Type 0} → Option Err → Cron Err
start parent = record {
  closed = false;
  ended = false;
  nest = Nest.new parent;
  sched_closed = false;
  closes = 0;
  closers = [];
}

-- A call that has won the compare-and-swap and not closed `done` yet.
abbrev winner : ClosePc → ℕ
winner begun = 0
winner returned = 0
winner _ = 1

abbrev once : Bool → ℕ
once true = 1
once false = 0

-- A call is past the wait when the nest is done only.
abbrev IsPatient : Bool → ClosePc → Type 0
IsPatient done signaling = done ≡ true
IsPatient done _ = Unit

still_past_wait : (a b : Bool) (p : ClosePc) → (a ≡ true → b ≡ true) → IsPatient a p → IsPatient b p
still_past_wait a b signaling f h = f h
still_past_wait a b begun f h = tt
still_past_wait a b canceling f h = tt
still_past_wait a b nest_canceling f h = tt
still_past_wait a b sched_closing f h = tt
still_past_wait a b awaiting f h = tt
still_past_wait a b returned f h = tt

finished_later :
    (n : ℕ) (a b : Bool) → (a ≡ true → b ≡ true) → (n ≡ 0) ⊎ (a ≡ true) → (n ≡ 0) ⊎ (b ≡ true)
finished_later n a b f (inl h) = inl h
finished_later n a b f (inr h) = inr (f h)

once_le : (b : Bool) → once b ≤ 1
once_le true = omega arith
once_le false = omega arith

module _ {Err : Type 0} ⦃x : Codex Err⦄ (timeout : ℤ) where
  record Fine (c : Cron Err) : Type 0 where
    single : total winner c.closers + c.closes ≡ once c.closed
    patient : All (IsPatient c.nest.done) c.closers
    finished : (c.closes ≡ 0) ⊎ (c.nest.done ≡ true)

  -- One call gets to another place, while the state of the nest is not further back.
  put-Fine :
      (i : ℕ) (p q : ClosePc) (c u : Cron Err)
      → get_elem? c.closers i ≡ some p
      → Fine c
      → u.closers ≡ set c.closers i q
      → u.nest.done ≡ c.nest.done
      → winner q + u.closes + once c.closed ≡ winner p + c.closes + once u.closed
      → IsPatient c.nest.done q
      → (u.closes ≡ 0) ⊎ (c.nest.done ≡ true)
      → Fine u
  put-Fine i p q c u g v same d n k f = record {
    single = omega (
      arith,
      v.single,
      n,
      total-set winner c.closers i p q g,
      total-get winner c.closers i p g,
      ap (total winner) same,
    );
    patient =
        subst (λ (b : Bool). All (IsPatient b) u.closers) (sym d)
          (subst (All (IsPatient c.nest.done)) (sym same)
            (All-set (IsPatient c.nest.done) c.closers i q v.patient k));
    finished = rw d f;
  }

  at-IsPatient :
      (i : ℕ) (p : ClosePc) (c : Cron Err)
      → get_elem? c.closers i ≡ some p
      → Fine c
      → IsPatient c.nest.done p
  at-IsPatient i p c g v = All-get (IsPatient c.nest.done) c.closers i p g v.patient

  close_step-Fine :
      (i : ℕ) (p : Option ClosePc) (c : Cron Err)
      → get_elem? c.closers i ≡ p
      → Fine c
      → Fine (close_step timeout i p c)
  unfolding close_step
  close_step-Fine i (some begun) c g v =
      if_split Fine c.closed _ _
        (λ e. put-Fine i begun returned c _ g v refl refl (omega arith) tt v.finished)
        (λ e. put-Fine i begun canceling c _ g v refl refl (ground (arith, e)) tt v.finished)
  close_step-Fine i (some canceling) c g v =
      put-Fine i canceling nest_canceling c _ g v refl refl (omega arith) tt v.finished
  close_step-Fine i (some nest_canceling) c g v =
      if_elim Fine (Nest.is_free c.nest.phase) _ _
        (put-Fine i nest_canceling sched_closing c _ g v refl (cancel-done (some _) c.nest)
          (omega arith) tt v.finished)
        v
  close_step-Fine i (some sched_closing) c g v =
      put-Fine i sched_closing awaiting c _ g v refl refl (omega arith) tt v.finished
  close_step-Fine i (some awaiting) c g v =
      if_split Fine c.nest.done _ _
        (λ e. put-Fine i awaiting signaling c _ g v refl refl (omega arith) e v.finished) (λ e. v)
  close_step-Fine i (some signaling) c g v =
      put-Fine i signaling returned c _ g v refl refl (omega arith) tt
        (inr (at-IsPatient i signaling c g v))
  close_step-Fine i (some returned) c g v = v
  close_step-Fine i none c g v = v

  step-Fine : (e : Event Err) (c : Cron Err) → Fine c → Fine (step timeout e c)
  unfolding step
  step-Fine close c v = record {
    single =
        omega (arith, v.single, total-append winner c.closers (begun ∷ []), total-one winner begun);
    patient = All-append_one (IsPatient c.nest.done) c.closers begun v.patient tt;
    finished = v.finished;
  }
  step-Fine (close_at i) c v = close_step-Fine i (get_elem? c.closers i) c refl v
  step-Fine (by_nest e) c v =
      let later = step-done (nest_options timeout) e c.nest tt in
      record {
        single = v.single;
        patient =
            All-imp (IsPatient c.nest.done) (IsPatient _) (λ p. still_past_wait _ _ p later)
              c.closers v.patient;
        finished = finished_later c.closes _ _ later v.finished;
      }

  history-Fine : (es : List (Event Err)) (c : Cron Err) → Fine c → Fine (history timeout es c)
  unfolding history
  history-Fine [] c v = v
  history-Fine (e ∷ es) c v = history-Fine es (step timeout e c) (step-Fine e c v)

  start-Fine : (parent : Option Err) → Fine (start parent)
  unfolding start total
  start-Fine parent = record { single = refl; patient = tt; finished = inl refl }

  -- `Done` is closed once. After every history of a new cron, with any number of calls of `Close`: `done`
  -- was closed at most once, so that no call panics, and if it was, the nest is done.
  pub closed_once :
      (es : List (Event Err)) (parent : Option Err)
      → let c = history timeout es (start parent) in
        (c.closes ≤ 1) × ((c.closes ≡ 0) ⊎ (c.nest.done ≡ true))
  closed_once es parent =
      let c = history timeout es (start parent) in
      let v = history-Fine es (start parent) (start-Fine parent) in
      (omega (arith, v.single, once_le c.closed), v.finished)
