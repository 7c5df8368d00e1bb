-- ===== src/Chanx/Observer/Progress.antt =====
-- pkg/chanx/observer.go: what a cancellation sets free.
use concx.Prelude.{
  ℕ, ◌-◌, ◌≤◌, ◌≡◌, refl, Bool, true, false, some, List, [], ◌∷◌, is_some, get_elem?,
  get_elem?-set_self, All, All-imp, All-set, All-get, All-append_one, Option-cases, ◌⊎◌, inl, inr,
  if_elim, arith,
}
use concx.Chanx.Lifetime.{
  Chan, Lifetime, DonePc, begun, missed, got, is_closed, done_step, cancel_cause,
}
use concx.Chanx.Lifetime.Laws.{
  IsSound, Agrees, cancel_cause-IsSound, done_step-IsSound, done_step-Agrees, done_step-kept,
  cancel_cause-kept,
}
use concx.Chanx.Observer.{
  Pump, idle, full, gone, SendPc, entered, selecting, finished, Sender, Observer, Event, send,
  cancel, send_at, pump_asks, pump_stops, receive, new_observer, offer, pump_ask, pump_stop,
  pump_give, put, ask, send_step, send_at_step, pump_step, step, run,
}
use concx.Chanx.Observer.Order.{is_gone}

-- How many of its own steps a call of `Send` has still to make once there is an error.
abbrev pub rank : SendPc → ℕ
rank entered = 1
rank (selecting (got c)) = 1
rank (selecting begun) = 2
rank (selecting missed) = 2
rank (finished r) = 0

module _ {Err : Type 0} where
  -- The channels in hand are the one that `done` holds.
  abbrev AtPc : Lifetime Err → SendPc → Type 0
  AtPc l (selecting d) = Agrees l d
  AtPc l _ = Unit

  AtPc-kept :
      (l l' : Lifetime Err) (at : SendPc)
      → ((d : DonePc) → Agrees l d → Agrees l' d)
      → AtPc l at
      → AtPc l' at
  AtPc-kept l l' entered k g = tt
  AtPc-kept l l' (selecting d) k g = k d g
  AtPc-kept l l' (finished r) k g = tt

  -- With an error, the channel in hand is closed.
  in_hand_closed :
      (l : Lifetime Err) (c : Chan)
      → IsSound l
      → l.done ≡ some c
      → is_some l.err ≡ true
      → is_closed l c ≡ true
  in_hand_closed l c v e h = ground arith

  asked_rank :
      (d : DonePc) (l : Lifetime Err)
      → IsSound l
      → Agrees l d
      → is_some l.err ≡ true
      → rank (selecting (done_step d l).1) ≡ 1
  unfolding done_step
  asked_rank d l v a h = ground arith

module _ {T Err : Type 0} where
  abbrev AtSend : Lifetime Err → Sender T → Type 0
  AtSend l s = AtPc l s.at

  abbrev AtPump : Lifetime Err → Pump T → Type 0
  AtPump l (idle d) = Agrees l d
  AtPump l (full d x) = Agrees l d
  AtPump l gone = Unit

  record Inv (o : Observer T Err) : Type 0 where
    pub sound : IsSound o.life
    pub sends : All (AtSend o.life) o.senders
    pub pumps : AtPump o.life o.pump

  -- A change of the lifetime by which no channel is taken back.
  AtPump-kept :
      (l l' : Lifetime Err) (p : Pump T)
      → ((d : DonePc) → Agrees l d → Agrees l' d)
      → AtPump l p
      → AtPump l' p
  AtPump-kept l l' (idle d) k h = k d h
  AtPump-kept l l' (full d x) k h = k d h
  AtPump-kept l l' gone k h = tt

  with_life :
      (l : Lifetime Err) (o : Observer T Err)
      → IsSound l
      → ((d : DonePc) → Agrees o.life d → Agrees l d)
      → Inv o
      → Inv (record o { life = l })
  with_life l o sound k v = record {
    sound = sound;
    sends =
        All-imp (AtSend o.life) (AtSend l) (λ s h. AtPc-kept o.life l s.at k h) o.senders v.sends;
    pumps = AtPump-kept o.life l o.pump k v.pumps;
  }

  put-Inv :
      (o : Observer T Err) (i : ℕ) (s : Sender T) (at : SendPc)
      → AtPc o.life at
      → Inv o
      → Inv (put o i s at)
  put-Inv o i s at h v = record {
    sound = v.sound;
    sends = All-set (AtSend o.life) o.senders i (record s { at = at }) v.sends h;
    pumps = v.pumps;
  }

  ask-Inv :
      (o : Observer T Err) (i : ℕ) (s : Sender T) (d : DonePc)
      → Agrees o.life d
      → Inv o
      → Inv (ask o i s (done_step d o.life))
  ask-Inv o i s d h v =
      put-Inv (record o { life = (done_step d o.life).0 }) i s (selecting (done_step d o.life).1)
        (done_step-Agrees d o.life h)
        (with_life (done_step d o.life).0 o (done_step-IsSound d o.life v.sound)
          (λ at a. done_step-kept d at o.life a) v)

  offer-Inv : (p : Pump T) (o : Observer T Err) (i : ℕ) (s : Sender T) → Inv o → Inv (offer p o i s)
  offer-Inv (idle (got c)) o i s v = record {
    sound = v.sound;
    sends = All-set (AtSend o.life) o.senders i _ v.sends tt;
    pumps = tt;
  }
  offer-Inv (idle begun) o i s v = v
  offer-Inv (idle missed) o i s v = v
  offer-Inv (full d x) o i s v = v
  offer-Inv gone o i s v = v

  send_step-Inv :
      (b : Bool) (i : ℕ) (s : Sender T) (at : SendPc) (o : Observer T Err)
      → AtPc o.life at
      → Inv o
      → Inv (send_step b i s at o)
  unfolding send_step
  send_step-Inv b i s entered o h v =
      put-Inv o i s _ (if_elim (AtPc o.life) (is_some o.life.err) _ _ tt tt) v
  send_step-Inv true i s (selecting (got c)) o h v = offer-Inv o.pump o i s v
  send_step-Inv false i s (selecting (got c)) o h v =
      if_elim Inv (is_closed o.life c) _ o (put-Inv o i s (finished false) tt v) v
  send_step-Inv true i s (selecting begun) o h v = ask-Inv o i s begun h v
  send_step-Inv true i s (selecting missed) o h v = ask-Inv o i s missed h v
  send_step-Inv false i s (selecting begun) o h v = ask-Inv o i s begun h v
  send_step-Inv false i s (selecting missed) o h v = ask-Inv o i s missed h v
  send_step-Inv b i s (finished r) o h v = v

  -- A step of the pump that leaves the lifetime.
  with_pump :
      (p : Pump T) (o : Observer T Err) (r m : List T)
      → AtPump o.life p
      → Inv o
      → Inv (record o { pump = p; received = r; lost = m })
  with_pump p o r m h v = record { sound = v.sound; sends = v.sends; pumps = h }

  pump_ask-Inv : (p : Pump T) (o : Observer T Err) → AtPump o.life p → Inv o → Inv (pump_ask p o)
  pump_ask-Inv (idle d) o h v =
      let l = (done_step d o.life).0 in
      let w =
        with_life l o (done_step-IsSound d o.life v.sound) (λ at a. done_step-kept d at o.life a)
          v in
      with_pump (idle (done_step d o.life).1) (record o { life = l }) o.received o.lost
        (done_step-Agrees d o.life h) w
  pump_ask-Inv (full d x) o h v =
      let l = (done_step d o.life).0 in
      let w =
        with_life l o (done_step-IsSound d o.life v.sound) (λ at a. done_step-kept d at o.life a)
          v in
      with_pump (full (done_step d o.life).1 x) (record o { life = l }) o.received o.lost
        (done_step-Agrees d o.life h) w
  pump_ask-Inv gone o h v = v

  pump_stop-Inv : (p : Pump T) (o : Observer T Err) → Inv o → Inv (pump_stop p o)
  pump_stop-Inv (idle (got c)) o v =
      if_elim Inv (is_closed o.life c) _ o (with_pump gone o o.received o.lost tt v) v
  pump_stop-Inv (full (got c) x) o v =
      if_elim Inv (is_closed o.life c) _ o (with_pump gone o o.received _ tt v) v
  pump_stop-Inv (idle begun) o v = v
  pump_stop-Inv (idle missed) o v = v
  pump_stop-Inv (full begun x) o v = v
  pump_stop-Inv (full missed x) o v = v
  pump_stop-Inv gone o v = v

  pump_give-Inv : (p : Pump T) (o : Observer T Err) → Inv o → Inv (pump_give p o)
  pump_give-Inv (full (got c) x) o v = with_pump (idle begun) o _ o.lost tt v
  pump_give-Inv (full begun x) o v = v
  pump_give-Inv (full missed x) o v = v
  pump_give-Inv (idle d) o v = v
  pump_give-Inv gone o v = v

  step-Inv :
      (completed : Err) (e : Event T Err) (o : Observer T Err) → Inv o → Inv (step completed e o)
  unfolding step pump_step send_at_step
  step-Inv completed (send x) o v = record {
    sound = v.sound;
    sends = All-append_one (AtSend o.life) o.senders _ v.sends tt;
    pumps = v.pumps;
  }
  step-Inv completed (cancel c) o v =
      with_life (cancel_cause completed c o.life) o
        (cancel_cause-IsSound completed c o.life v.sound)
        (λ d a. cancel_cause-kept completed c d o.life a) v
  step-Inv completed (send_at i b) o v = elim (Option-cases (get_elem? o.senders i)) [
    | inl n ↦ rw n v
    | inr (s, n) ↦
        rw n (send_step-Inv b i s s.at o (All-get (AtSend o.life) o.senders i s n v.sends) v)
  ]
  step-Inv completed pump_asks o v = pump_ask-Inv o.pump o v.pumps v
  step-Inv completed pump_stops o v = pump_stop-Inv o.pump o v
  step-Inv completed receive o v = pump_give-Inv o.pump o v

  run-Inv :
      (completed : Err) (es : List (Event T Err)) (o : Observer T Err)
      → Inv o
      → Inv (run completed es o)
  unfolding run
  run-Inv completed [] o v = v
  run-Inv completed (e ∷ es) o v =
      run-Inv completed es (step completed e o) (step-Inv completed e o v)

  -- What the call at an index is at, after a step of its own.
  send_step-rank :
      (i : ℕ) (s : Sender T) (at : SendPc) (o : Observer T Err)
      → get_elem? o.senders i ≡ some s
      → s.at ≡ at
      → AtPc o.life at
      → IsSound o.life
      → is_some o.life.err ≡ true
      → (s' : Sender T) × (get_elem? (send_step false i s at o).senders i ≡ some s')
        × (rank s'.at ≡ rank at - 1)
  unfolding send_step
  send_step-rank i s entered o e f h v w =
      (_, get_elem?-set_self o.senders i s _ e, rw w (omega arith))
  send_step-rank i s (selecting (got c)) o e f h v w =
      rw (in_hand_closed o.life c v h w)
        (record s { at = finished false }, get_elem?-set_self o.senders i s _ e, omega arith)
  send_step-rank i s (selecting begun) o e f h v w =
      (_, get_elem?-set_self o.senders i s _ e, omega (arith, asked_rank begun o.life v h w))
  send_step-rank i s (selecting missed) o e f h v w =
      (_, get_elem?-set_self o.senders i s _ e, omega (arith, asked_rank missed o.life v h w))
  send_step-rank i s (finished r) o e f h v w = (s, e, rw f (omega arith))

  -- The call is one step nearer to its return.
  abbrev pub IsNearer : ℕ → SendPc → Observer T Err → Type 0
  IsNearer i at o = (s : Sender T) × (get_elem? o.senders i ≡ some s) × (rank s.at ≡ rank at - 1)

  offer-IsNearer :
      (p : Pump T) (c : Chan) (o : Observer T Err) (i : ℕ) (s : Sender T)
      → get_elem? o.senders i ≡ some s
      → IsNearer i (selecting (got c)) (offer p o i s) ⊎ (offer p o i s ≡ o)
  offer-IsNearer (idle (got d)) c o i s e =
      inl (record s { at = finished true }, get_elem?-set_self o.senders i s _ e, omega arith)
  offer-IsNearer (idle begun) c o i s e = inr refl
  offer-IsNearer (idle missed) c o i s e = inr refl
  offer-IsNearer (full d v) c o i s e = inr refl
  offer-IsNearer gone c o i s e = inr refl

  -- A step by which the `select` would take `o.in` may find the pump not there.
  send_step-IsNearer :
      (b : Bool) (i : ℕ) (s : Sender T) (at : SendPc) (o : Observer T Err)
      → get_elem? o.senders i ≡ some s
      → s.at ≡ at
      → AtPc o.life at
      → IsSound o.life
      → is_some o.life.err ≡ true
      → IsNearer i at (send_step b i s at o) ⊎ ((b ≡ true) × (send_step b i s at o ≡ o))
  unfolding send_step
  send_step-IsNearer false i s at o e f h v w = inl (send_step-rank i s at o e f h v w)
  send_step-IsNearer true i s entered o e f h v w = inl (send_step-rank i s entered o e f h v w)
  send_step-IsNearer true i s (selecting (got c)) o e f h v w =
      elim (offer-IsNearer o.pump c o i s e) [ inl n ↦ inl n | inr n ↦ inr (refl, n) ]
  send_step-IsNearer true i s (selecting begun) o e f h v w =
      inl (send_step-rank i s (selecting begun) o e f h v w)
  send_step-IsNearer true i s (selecting missed) o e f h v w =
      inl (send_step-rank i s (selecting missed) o e f h v w)
  send_step-IsNearer true i s (finished r) o e f h v w =
      inl (send_step-rank i s (finished r) o e f h v w)

  -- Its pump closes `value`.
  pump_ends :
      (p : Pump T) (o : Observer T Err)
      → o.pump ≡ p
      → AtPump o.life p
      → IsSound o.life
      → is_some o.life.err ≡ true
      → is_gone (pump_stop (pump_ask p o).pump (pump_ask p o)).pump ≡ true
  unfolding done_step
  pump_ends (idle d) o e h v w = ground arith
  pump_ends (full d x) o e h v w = ground arith
  pump_ends gone o e h v w = rw e refl

  new-Inv : Inv (new_observer {T = T} {Err = Err})
  unfolding new_observer
  new-Inv = record { sound = ((refl, refl), refl); sends = tt; pumps = tt }

  -- After every history of a new observer that has an error, whatever the others did: each step of a
  -- call of `Send` brings it nearer to its return, from which it is two steps away at most, unless its
  -- `select` tries `o.in` and the pump is not there to take the value, which changes nothing; and a pump
  -- that asks for `o.Done()` and then takes it in its `select` has returned, and so closed `value`.
  pub cancel_frees :
      (completed : Err) (es : List (Event T Err)) (i : ℕ) (b : Bool) (s : Sender T)
      → is_some (run completed es new_observer).life.err ≡ true
      → get_elem? (run completed es new_observer).senders i ≡ some s
      → let o = run completed es new_observer in
        (IsNearer i s.at (step completed (send_at i b) o)
          ⊎ ((b ≡ true) × (step completed (send_at i b) o ≡ o)))
        × (rank s.at ≤ 2)
        × (is_gone (step completed pump_stops (step completed pump_asks o)).pump ≡ true)
  unfolding step pump_step send_at_step
  cancel_frees completed es i b s w e =
      let o = run completed es new_observer in
      let v = run-Inv completed es new_observer new-Inv in
      (
        rw e (
            send_step-IsNearer b i s s.at o e refl (All-get (AtSend o.life) o.senders i s e v.sends)
              v.sound w),
        ground arith,
        pump_ends o.pump o refl v.pumps v.sound w,
      )
