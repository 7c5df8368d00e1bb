-- ===== src/Orch/Cron/Loop.antt =====
-- pkg/orch/cron/cron.go: `loop` and `trigger`, as steps while time passes and jobs start and end. The
-- clock does not go back.
use concx.Prelude.{
  ℕ, ◌+◌, ◌-◌, ◌≤◌, ◌<◌, ◌≡◌, refl, Bool, true, false, Option, none, some, List, [], ◌∷◌, ◌++◌, All,
  All-append_one, All-imp, Bool-cases, inl, inr, if◌then◌else◌, if_elim, arith, leb,
}
use concx.Prelude.Int.{ℤ, pos, add_one, sub_one}
use concx.Orch.Cron.{CronOptions, triggers}
use concx.Orch.Cron.Schedule.{Schedule, next}

-- Where the loop stands: before `c.now()`; in the `select`, with the end of the timer and the tick;
-- before `trigger`; returned.
pub data LoopPc : Type 0 where
  reading : LoopPc
  timing : (deadline tick : ℕ) → LoopPc
  triggering : ℕ → LoopPc
  gone : LoopPc

-- `pushed`: the ticks for which `sched.Push` was called, in order. `ended`: the context has ended.
pub record Ticking : Type 0 where
  pub clock : ℕ
  pub ended : Bool
  pub running : ℤ
  pub at : LoopPc
  pub pushed : List ℕ

pub data Event : Type 0 where
  -- the loop takes its next step, by the timer or by the end of the context
  by_timer by_context : Event
  -- time passes, the context ends, a job starts and ends
  elapse : ℕ → Event
  end_context job_starts job_ends : Event

module _ {Name Loc Parser T Err W : Type 0} (o : CronOptions Name Loc Parser T Err W)
    (s : Schedule) where
  -- `next.IsZero()`, and the timer of `max(next.Sub(now), 0)`.
  abbrev set_timer : ℕ → Option ℕ → LoopPc
  set_timer now none = gone
  set_timer now (some tick) = timing (now + (tick - now)) tick

  unfoldable pub loop_step : Bool → LoopPc → Ticking → Ticking
  unfolding next triggers
  loop_step b reading c = record c { at = set_timer c.clock (next s c.clock) }
  loop_step true (timing deadline tick) c =
      if leb deadline c.clock then record c { at = triggering tick } else c
  loop_step false (timing deadline tick) c = if c.ended then record c { at = gone } else c
  loop_step b (triggering tick) c = record c {
    at = reading;
    pushed = if triggers c.running o then c.pushed ++ tick ∷ [] else c.pushed;
  }
  loop_step b gone c = c

  unfoldable pub step : Event → Ticking → Ticking
  unfolding loop_step
  step by_timer c = loop_step true c.at c
  step by_context c = loop_step false c.at c
  step (elapse n) c = record c { clock = c.clock + n }
  step end_context c = record c { ended = true }
  step job_starts c = record c { running = add_one c.running }
  step job_ends c = record c { running = sub_one c.running }

  unfoldable pub history : List Event → Ticking → Ticking
  history [] c = c
  history (e ∷ es) c = history es (step e c)

-- A loop that has not begun.
unfoldable pub start : ℕ → Ticking
start clock = record { clock = clock; ended = false; running = pos 0; at = reading; pushed = [] }

-- Each is before the next.
abbrev pub Increasing : List ℕ → Type 0
Increasing [] = Unit
Increasing (x ∷ xs) = All (λ y. x < y) xs × Increasing xs

Increasing-append :
    (xs : List ℕ) (y : ℕ) → Increasing xs → All (λ x. x < y) xs → Increasing (xs ++ y ∷ [])
Increasing-append [] y h a = (tt, tt)
Increasing-append (x ∷ xs) y h a =
    (All-append_one (λ z. x < z) xs y h.0 a.0, Increasing-append xs y h.1 a.1)

-- What the loop knows of its tick.
abbrev Due : ℕ → List ℕ → LoopPc → Type 0
Due clock pushed reading = Unit
Due clock pushed (timing deadline tick) = (tick ≤ deadline) × All (λ x. x < tick) pushed
Due clock pushed (triggering tick) = (tick ≤ clock) × All (λ x. x < tick) pushed
Due clock pushed gone = Unit

abbrev Fine : Ticking → Type 0
Fine c = Increasing c.pushed × All (λ x. x ≤ c.clock) c.pushed × Due c.clock c.pushed c.at

module _ {Name Loc Parser T Err W : Type 0} (o : CronOptions Name Loc Parser T Err W) (s : Schedule)
    (later : (t n : ℕ) → next s t ≡ some n → t < n) where
  set_timer-Fine :
      (c : Ticking) (r : Option ℕ)
      → next s c.clock ≡ r
      → Fine c
      → Fine (record c { at = set_timer o s c.clock r })
  set_timer-Fine c none e (i, a, d) = (i, a, tt)
  set_timer-Fine c (some tick) e (i, a, d) = (
    i,
    a,
    (
      omega arith,
      All-imp (λ x. x ≤ c.clock) (λ x. x < tick) (λ x h. omega (arith, h, later c.clock tick e))
          c.pushed a,
    ),
  )

  trigger-Fine :
      (c : Ticking) (tick : ℕ) (b : Bool)
      → Increasing c.pushed
      → All (λ x. x ≤ c.clock) c.pushed
      → tick ≤ c.clock
      → All (λ x. x < tick) c.pushed
      → Fine (record c { at = reading; pushed = if b then c.pushed ++ tick ∷ [] else c.pushed })
  trigger-Fine c tick true i a t d =
      (Increasing-append c.pushed tick i d, All-append_one (λ x. x ≤ c.clock) c.pushed tick a t, tt)
  trigger-Fine c tick false i a t d = (i, a, tt)

  loop_step-Fine :
      (b : Bool) (p : LoopPc) (c : Ticking)
      → Increasing c.pushed × All (λ x. x ≤ c.clock) c.pushed × Due c.clock c.pushed p
      → Fine c
      → Fine (loop_step o s b p c)
  unfolding loop_step
  loop_step-Fine b reading c (i, a, d) h = set_timer-Fine c (next s c.clock) refl h
  loop_step-Fine true (timing deadline tick) c (i, a, d) h =
      elim (Bool-cases (leb deadline c.clock)) [
        | inl e ↦ rw e (i, a, (ground (arith, d.0, e), d.1))
        | inr e ↦ rw e h
      ]
  loop_step-Fine false (timing deadline tick) c (i, a, d) h = if_elim Fine c.ended _ _ (i, a, tt) h
  loop_step-Fine b (triggering tick) c (i, a, d) h =
      trigger-Fine c tick (triggers c.running o) i a d.0 d.1
  loop_step-Fine b gone c k h = h

  later-Due : (p : LoopPc) (clock n : ℕ) (xs : List ℕ) → Due clock xs p → Due (clock + n) xs p
  later-Due reading clock n xs d = tt
  later-Due (timing deadline tick) clock n xs d = d
  later-Due (triggering tick) clock n xs d = (omega (arith, d.0), d.1)
  later-Due gone clock n xs d = tt

  step-Fine : (e : Event) (c : Ticking) → Fine c → Fine (step o s e c)
  unfolding step
  step-Fine by_timer c h = loop_step-Fine true c.at c h h
  step-Fine by_context c h = loop_step-Fine false c.at c h h
  step-Fine (elapse n) c (i, a, d) = (
    i,
    All-imp (λ x. x ≤ c.clock) (λ x. x ≤ c.clock + n) (λ x k. omega (arith, k)) c.pushed a,
    later-Due c.at c.clock n c.pushed d,
  )
  step-Fine end_context c h = h
  step-Fine job_starts c h = h
  step-Fine job_ends c h = h

  history-Fine : (es : List Event) (c : Ticking) → Fine c → Fine (history o s es c)
  unfolding history
  history-Fine [] c h = h
  history-Fine (e ∷ es) c h = history-Fine es (step o s e c) (step-Fine e c h)

  -- No tick is pushed twice, and none early: with a schedule whose next time is after the given one,
  -- after every history of a loop the ticks that were pushed are in strictly increasing order, and none
  -- of them is after the clock.
  pub ticks_in_order :
      (es : List Event) (clock : ℕ)
      → let c = history o s es (start clock) in
        Increasing c.pushed × All (λ x. x ≤ c.clock) c.pushed
  unfolding start
  ticks_in_order es clock = let (i, a, d) = history-Fine es (start clock) (tt, tt, tt) in (i, a)
