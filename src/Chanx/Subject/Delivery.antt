-- ===== src/Chanx/Subject/Delivery.antt =====
-- pkg/chanx/subject.go: who is sent what.
use concx.Prelude.{
  ℕ, ◌+◌, ◌≤◌, ◌==◌, ◌≡◌, refl, false, ◌&&◌, not, Option, none, some, List, [], ◌∷◌, ◌++◌, is_some,
  get_elem?, set, total, total-append, total-set, total-one, Option-cases, inl, inr, if_elim, All,
  All-set, All-get, All-append_one, arith, if◌then◌else◌,
}
use concx.Chanx.Lifetime.{Lifetime}
use concx.Chanx.Subject.{
  SendPc, entered, passing, sent, refused, JoinPc, joining, rejecting, joined, WatchPc, watching,
  ended, Subject, Event, cancel, cascades, send, subscribe, observe, send_at, join_at, watch_at,
  cancel_observer, has, add, remove, new_subject, is_free, unwatch, send_step, send_at_step,
  watch_step, join_step, join_at_step, cancel_begin, cascade_step, step, run,
}

-- How often a subscriber is in a list.
abbrev pub is_it : ℕ → ℕ → ℕ
is_it i o = if o == i then 1 else 0

-- A value by how often a subscriber is in a list.
abbrev pub hits : {T : Type 0} → (T → ℕ) → ℕ → T → ℕ → ℕ
hits v i x o = if o == i then v x else 0

module _ (i : ℕ) where
  has-count : (o : ℕ) (ps : List ℕ) → has o ps ≡ false → o ≡ i → total (is_it i) ps ≡ 0
  unfolding total
  has-count o [] h e = refl
  has-count o (p ∷ ps) h e = ground (arith, has-count o ps)

  add-count : (o : ℕ) (ps : List ℕ) → total (is_it i) ps ≤ 1 → total (is_it i) (add o ps) ≤ 1
  unfolding total
  add-count o ps h = ground (arith, has-count o ps)

  remove-count : (o : ℕ) (ps : List ℕ) → total (is_it i) (remove o ps) ≤ total (is_it i) ps
  unfolding total
  remove-count o [] = omega arith
  remove-count o (p ∷ ps) = ground (arith, remove-count o ps)

module _ {T : Type 0} (v : T → ℕ) (i : ℕ) where
  -- What a call of `Send` owes a subscriber, all in all and still.
  abbrev pub owed : SendPc T → ℕ
  owed (passing x found left) = total (hits v i x) found
  owed (sent x found) = total (hits v i x) found
  owed _ = 0

  abbrev pub unpaid : SendPc T → ℕ
  unpaid (passing x found left) = total (hits v i x) left
  unpaid _ = 0

  -- What a step of a call of `Send` makes it owe: the value, if the call gets the lock and the subject
  -- has no error, as often as the subscriber is among the subscribers of that moment.
  abbrev pub due : {Err : Type 0} → Option (SendPc T) → Subject T Err → ℕ
  due (some (entered x)) s =
      if is_free s.cascade && not (is_some s.life.err) then total (hits v i x) s.subs else 0
  due pc s = 0

  -- What the subscriber was sent.
  abbrev pub paid : ℕ × T → ℕ
  paid (o, x) = hits v i x o

  -- A call of `Send` found the subscriber at most once.
  abbrev pub FoundOnce : SendPc T → Type 0
  FoundOnce (passing x found left) = total (is_it i) found ≤ 1
  FoundOnce (sent x found) = total (is_it i) found ≤ 1
  FoundOnce _ = Unit

  module _ {Err : Type 0} where
    record Inv (s : Subject T Err) : Type 0 where
      pub balance : total paid s.log + total unpaid s.senders ≡ total owed s.senders
      pub keys : total (is_it i) s.subs ≤ 1
      pub once : All FoundOnce s.senders

    send_step-balance :
        (pc : SendPc T) (s : Subject T Err)
        → let (s', pc') = send_step pc s in
          total paid s'.log + unpaid pc' + owed pc ≡ total paid s.log + unpaid pc + owed pc'
    unfolding send_step total
    send_step-balance (entered x) s = ground arith
    send_step-balance (passing x found []) s = omega arith
    send_step-balance (passing x found (o ∷ left)) s =
        omega (arith, total-append paid s.log ((o, x) ∷ []))
    send_step-balance (sent x found) s = omega arith
    send_step-balance refused s = omega arith

    send_step-once :
        (pc : SendPc T) (s : Subject T Err)
        → total (is_it i) s.subs ≤ 1
        → FoundOnce pc
        → FoundOnce (send_step pc s).1
    unfolding send_step
    send_step-once (entered x) s k h = ground arith
    send_step-once (passing x found []) s k h = h
    send_step-once (passing x found (o ∷ left)) s k h = h
    send_step-once (sent x found) s k h = h
    send_step-once refused s k h = h

    send_step-subs :
        (pc : SendPc T) (s : Subject T Err)
        → ((send_step pc s).0.subs ≡ s.subs) × ((send_step pc s).0.senders ≡ s.senders)
    unfolding send_step
    send_step-subs (entered x) s = (refl, refl)
    send_step-subs (passing x found []) s = (refl, refl)
    send_step-subs (passing x found (o ∷ left)) s = (refl, refl)
    send_step-subs (sent x found) s = (refl, refl)
    send_step-subs refused s = (refl, refl)

    send_step-due :
        (pc : SendPc T) (s : Subject T Err) → owed (send_step pc s).1 ≡ owed pc + due (some pc) s
    unfolding send_step
    send_step-due (entered x) s = ground arith
    send_step-due (passing x found []) s = omega arith
    send_step-due (passing x found (o ∷ left)) s = omega arith
    send_step-due (sent x found) s = omega arith
    send_step-due refused s = refl

    send_at_step-due :
        (n : ℕ) (pc : Option (SendPc T)) (s : Subject T Err)
        → get_elem? s.senders n ≡ pc
        → total owed (send_at_step n pc s).senders ≡ total owed s.senders + due pc s
    unfolding send_at_step
    send_at_step-due n none s e = omega arith
    send_at_step-due n (some pc) s e =
        let (s', pc') = send_step pc s in
        rw ((send_step-subs pc s).1)
          (omega (arith, send_step-due pc s, total-set owed s.senders n pc pc' e))

    -- A step that sends nothing, and leaves each subscriber at most once.
    elsewhere :
        (s : Subject T Err) (l : Lifetime Err) (c : Option (Err × List ℕ)) (ps : List ℕ)
        (os : List (Lifetime Err)) (js : List (JoinPc Err)) (ws : List WatchPc)
        → total (is_it i) ps ≤ 1
        → Inv s
        → Inv (record s {
          life = l;
          cascade = c;
          subs = ps;
          observers = os;
          joiners = js;
          watchers = ws;
        })
    elsewhere s l c ps os js ws h a = record { balance = a.balance; keys = h; once = a.once }

    send_at-Inv :
        (n : ℕ) (pc : Option (SendPc T)) (s : Subject T Err)
        → get_elem? s.senders n ≡ pc
        → Inv s
        → Inv (send_at_step n pc s)
    unfolding send_at_step
    send_at-Inv n none s e a = a
    send_at-Inv n (some pc) s e a =
        let (s', pc') = send_step pc s in
        let (same_subs, same_senders) = send_step-subs pc s in
        let unpaids = total-set unpaid s.senders n pc pc' e in
        let oweds = total-set owed s.senders n pc pc' e in
        record {
          balance =
              rw same_senders (omega (arith, send_step-balance pc s, unpaids, oweds, a.balance));
          keys = rw same_subs a.keys;
          once = rw same_senders (
              All-set FoundOnce s.senders n pc' a.once
                (send_step-once pc s a.keys (All-get FoundOnce s.senders n pc e a.once)));
        }

    watch_step-Inv :
        (n : ℕ) (w : Option WatchPc) (s : Subject T Err) → Inv s → Inv (watch_step n w s)
    unfolding watch_step
    watch_step-Inv n none s a = a
    watch_step-Inv n (some ended) s a = a
    watch_step-Inv n (some (watching o)) s a = by_observer (get_elem? s.observers o)
      where
        by_observer : (l : Option (Lifetime Err)) → Inv (unwatch n o l s)
        by_observer none = a
        by_observer (some l) =
            if_elim Inv (is_some l.err) _ s
              (if_elim Inv (is_free s.cascade) _ s
                (elsewhere s s.life s.cascade (remove o s.subs) s.observers s.joiners _
                  (omega (arith, remove-count i o s.subs, a.keys)) a)
                a)
              a

    module _ (completed : Err) where
      join_step-Inv :
          (n : ℕ) (pc : JoinPc Err) (s : Subject T Err) → Inv s → Inv (join_step completed n pc s)
      unfolding join_step
      join_step-Inv n (joining o) s a = if_elim Inv (is_free s.cascade) _ s (by_err s.life.err) a
        where
          by_err :
              (e : Option Err)
              → Inv (elim e [
                | some e ↦ record s { joiners = set s.joiners n (rejecting o e) }
                | none ↦ record s {
                  subs = add o s.subs;
                  joiners = set s.joiners n (joined o);
                  watchers = s.watchers ++ watching o ∷ [];
                }
              ])
          by_err (some e) = elsewhere s s.life s.cascade s.subs s.observers _ s.watchers a.keys a
          by_err none =
              elsewhere s s.life s.cascade (add o s.subs) s.observers _ _
                (add-count i o s.subs a.keys) a
      join_step-Inv n (rejecting o e) s a =
          elsewhere s s.life s.cascade s.subs _ _ s.watchers a.keys a
      join_step-Inv n (joined o) s a = a

      cascade_step-Inv :
          (c : Option (Err × List ℕ)) (s : Subject T Err) → Inv s → Inv (cascade_step completed c s)
      unfolding cascade_step total
      cascade_step-Inv none s a = a
      cascade_step-Inv (some (e, [])) s a =
          elsewhere s s.life none [] s.observers s.joiners s.watchers (omega arith) a
      cascade_step-Inv (some (e, o ∷ left)) s a =
          elsewhere s s.life _ s.subs _ s.joiners s.watchers a.keys a

      cancel_begin-Inv :
          (c : Option Err) (s : Subject T Err) → Inv s → Inv (cancel_begin completed c s)
      unfolding cancel_begin
      cancel_begin-Inv c s a =
          if_elim Inv (is_free s.cascade) _ s
            (if_elim Inv (is_some s.life.err) s _ a
              (elsewhere s _ _ s.subs s.observers s.joiners s.watchers a.keys a))
            a

      step-Inv : (e : Event T Err) (s : Subject T Err) → Inv s → Inv (step completed e s)
      unfolding step join_at_step
      step-Inv (cancel c) s a = cancel_begin-Inv c s a
      step-Inv cascades s a = cascade_step-Inv s.cascade s a
      step-Inv (send x) s a =
          let pc : SendPc T = entered x in
          record {
            balance = omega (
              arith,
              a.balance,
              total-append unpaid s.senders (entered x ∷ []),
              total-one unpaid pc,
              total-append owed s.senders (entered x ∷ []),
              total-one owed pc,
            );
            keys = a.keys;
            once = All-append_one FoundOnce s.senders (entered x) a.once tt;
          }
      step-Inv (subscribe o) s a =
          if_elim Inv (is_some (get_elem? s.observers o)) _ s
            (elsewhere s s.life s.cascade s.subs s.observers _ s.watchers a.keys a) a
      step-Inv observe s a = elsewhere s s.life s.cascade s.subs _ _ s.watchers a.keys a
      step-Inv (send_at n) s a = send_at-Inv n (get_elem? s.senders n) s refl a
      step-Inv (join_at n) s a = elim (Option-cases (get_elem? s.joiners n)) [
        | inl e ↦ rw e a
        | inr (pc, e) ↦ rw e (join_step-Inv n pc s a)
      ]
      step-Inv (watch_at n) s a = watch_step-Inv n (get_elem? s.watchers n) s a
      step-Inv (cancel_observer o c) s a =
          elsewhere s s.life s.cascade s.subs _ s.joiners s.watchers a.keys a

      run-Inv : (es : List (Event T Err)) (s : Subject T Err) → Inv s → Inv (run completed es s)
      unfolding run
      run-Inv [] s a = a
      run-Inv (e ∷ es) s a = run-Inv es (step completed e s) (step-Inv e s a)

      -- A subject sends each value once to each subscriber that it has when the call of `Send` gets the
      -- lock. After every history of a new subject, for each subscriber and by any measure of the
      -- values: what it was sent, with what calls of `Send` under way have still to send it, is what
      -- the calls owe it; the next step of a call makes it owe its value to each subscriber that the
      -- subject has then, if the call gets the lock at this step and the subject has no error, and
      -- nothing more otherwise; and each call found a subscriber once at most.
      pub each_sent_once :
          (es : List (Event T Err)) (os : List (Lifetime Err)) (n : ℕ)
          → let s = run completed es (new_subject os) in
            (total paid s.log + total unpaid s.senders ≡ total owed s.senders)
            × (total owed (step completed (send_at n) s).senders
                ≡ total owed s.senders + due (get_elem? s.senders n) s)
            × All FoundOnce s.senders
      unfolding new_subject total step
      each_sent_once es os n =
          let a =
            run-Inv es (new_subject os)
              (record { balance = omega arith; keys = omega arith; once = tt }) in
          let s = run completed es (new_subject os) in
          (a.balance, send_at_step-due n (get_elem? s.senders n) s refl, a.once)
