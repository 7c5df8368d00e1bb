-- ===== src/Chanx/Observer/Order.antt =====
-- pkg/chanx/observer.go: what an observer passes on, and in which order.
use concx.Prelude.{
  ℕ, ◌≤◌, ◌≡◌, refl, sym, ap, ◌∙◌, inl, inr, Bool, true, false, List, [], ◌∷◌, ◌++◌, length, subst,
  Option-cases, get_elem?, arith, if_elim,
}
use mathlib.Core.List.{append_assoc, append-nil}
use concx.Chanx.Lifetime.{begun, missed, got, is_closed}
use concx.Chanx.Observer.{
  Pump, idle, full, gone, SendPc, entered, selecting, finished, Sender, Observer, Event, send,
  cancel, send_at, pump_asks, pump_stops, receive, new_observer, offer, pump_ask, pump_stop,
  pump_give, send_step, send_at_step, pump_step, step, run,
}

module _ {T : Type 0} where
  abbrev pub held : Pump T → List T
  held (full d x) = x ∷ []
  held p = []

  abbrev pub is_gone : Pump T → Bool
  is_gone gone = true
  is_gone p = false

  -- An entry put where the pump left off.
  extend : (a r l : List T) (x : T) → a ≡ r ++ l → l ≡ [] → a ++ x ∷ [] ≡ r ++ (x ∷ l)
  extend a r l x h e = rw (h, e) (ap (λ s. s ++ x ∷ []) (append-nil r))

  -- What was passed on is received, in the pump or lost; the loss comes with the pump's end.
  abbrev pub Split : Pump T → List T → List T → List T → Type 0
  Split p accepted received lost =
      (accepted ≡ received ++ (held p ++ lost))
      × (is_gone p ≡ false → lost ≡ [])
      × (length lost ≤ 1)

  at_most_one :
      (p : Pump T) (l : List T)
      → (is_gone p ≡ false → l ≡ [])
      → length l ≤ 1
      → length (held p ++ l) ≤ 1
  at_most_one (idle d) l h f = f
  at_most_one (full d x) l h f = rw (h refl) (omega arith)
  at_most_one gone l h f = f

module _ {T Err : Type 0} where
  abbrev pub InOrder : Observer T Err → Type 0
  InOrder o = Split o.pump o.accepted o.received o.lost

  at_pump :
      (o : Observer T Err) (p : Pump T)
      → o.pump ≡ p
      → InOrder o
      → Split p o.accepted o.received o.lost
  at_pump o p e v = subst (λ q. Split q o.accepted o.received o.lost) e v

  offer-InOrder :
      (p : Pump T) (o : Observer T Err) (i : ℕ) (s : Sender T)
      → o.pump ≡ p
      → InOrder o
      → InOrder (offer p o i s)
  offer-InOrder (idle (got c)) o i s e v =
      let (order, empty, few) = at_pump o (idle (got c)) e v in
      (extend o.accepted o.received o.lost s.value order (empty refl), λ _. empty refl, few)
  offer-InOrder (idle begun) o i s e v = v
  offer-InOrder (idle missed) o i s e v = v
  offer-InOrder (full d x) o i s e v = v
  offer-InOrder gone o i s e v = v

  send_step-InOrder :
      (b : Bool) (i : ℕ) (s : Sender T) (at : SendPc) (o : Observer T Err)
      → InOrder o
      → InOrder (send_step b i s at o)
  unfolding send_step
  send_step-InOrder b i s entered o v = v
  send_step-InOrder true i s (selecting (got c)) o v = offer-InOrder o.pump o i s refl v
  send_step-InOrder false i s (selecting (got c)) o v = if_elim InOrder (is_closed o.life c) _ o v v
  send_step-InOrder true i s (selecting begun) o v = v
  send_step-InOrder true i s (selecting missed) o v = v
  send_step-InOrder false i s (selecting begun) o v = v
  send_step-InOrder false i s (selecting missed) o v = v
  send_step-InOrder b i s (finished r) o v = v

  pump_ask-InOrder :
      (p : Pump T) (o : Observer T Err) → o.pump ≡ p → InOrder o → InOrder (pump_ask p o)
  pump_ask-InOrder (idle d) o e v = at_pump o (idle d) e v
  pump_ask-InOrder (full d x) o e v = at_pump o (full d x) e v
  pump_ask-InOrder gone o e v = v

  pump_stop-InOrder :
      (p : Pump T) (o : Observer T Err) → o.pump ≡ p → InOrder o → InOrder (pump_stop p o)
  pump_stop-InOrder (idle (got c)) o e v =
      let (order, empty, few) = at_pump o (idle (got c)) e v in
      if_elim InOrder (is_closed o.life c) _ o (order, λ h. absurd (cc), few) v
  pump_stop-InOrder (full (got c) x) o e v =
      let (order, empty, few) = at_pump o (full (got c) x) e v in
      let none_lost = empty refl in
      if_elim InOrder (is_closed o.life c) _ o
        (order ∙ rw none_lost refl, λ h. absurd (cc), rw none_lost (omega arith)) v
  pump_stop-InOrder (idle begun) o e v = v
  pump_stop-InOrder (idle missed) o e v = v
  pump_stop-InOrder (full begun x) o e v = v
  pump_stop-InOrder (full missed x) o e v = v
  pump_stop-InOrder gone o e v = v

  pump_give-InOrder :
      (p : Pump T) (o : Observer T Err) → o.pump ≡ p → InOrder o → InOrder (pump_give p o)
  pump_give-InOrder (full (got c) x) o e v =
      let (order, empty, few) = at_pump o (full (got c) x) e v in
      (order ∙ sym (append_assoc o.received (x ∷ []) o.lost), λ _. empty refl, few)
  pump_give-InOrder (full begun x) o e v = v
  pump_give-InOrder (full missed x) o e v = v
  pump_give-InOrder (idle d) o e v = v
  pump_give-InOrder gone o e v = v

  step-InOrder :
      (completed : Err) (e : Event T Err) (o : Observer T Err)
      → InOrder o
      → InOrder (step completed e o)
  unfolding step pump_step send_at_step
  step-InOrder completed (send x) o v = v
  step-InOrder completed (cancel c) o v = v
  step-InOrder completed (send_at i b) o v = elim (Option-cases (get_elem? o.senders i)) [
    | inl n ↦ rw n v
    | inr (s, n) ↦ rw n (send_step-InOrder b i s s.at o v)
  ]
  step-InOrder completed pump_asks o v = pump_ask-InOrder o.pump o refl v
  step-InOrder completed pump_stops o v = pump_stop-InOrder o.pump o refl v
  step-InOrder completed receive o v = pump_give-InOrder o.pump o refl v

  run-InOrder :
      (completed : Err) (es : List (Event T Err)) (o : Observer T Err)
      → InOrder o
      → InOrder (run completed es o)
  unfolding run
  run-InOrder completed [] o v = v
  run-InOrder completed (e ∷ es) o v =
      run-InOrder completed es (step completed e o) (step-InOrder completed e o v)

  -- After every history of a new observer, the values that `Send` handed over are those that readers
  -- of `Value` received, in the same order, then at most one more: the one in the pump, or the one that
  -- the pump held when it returned, and none is lost before.
  pub values_in_order :
      (completed : Err) (es : List (Event T Err))
      → let o = run completed es new_observer in
        (o.accepted ≡ o.received ++ (held o.pump ++ o.lost)) × (length (held o.pump ++ o.lost) ≤ 1)
  values_in_order completed es =
      let o = run completed es new_observer in
      let v =
        run-InOrder completed es new_observer
          (unfold new_observer in (refl, (λ _. refl), omega arith)) in
      (v.0, at_most_one o.pump o.lost v.1 v.2)
