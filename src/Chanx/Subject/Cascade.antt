-- ===== src/Chanx/Subject/Cascade.antt =====
-- pkg/chanx/subject.go: a cancellation reaches every subscriber.
use concx.Prelude.{
  ℕ, ◌≡◌, refl, ap, ◌∙◌, Bool, true, false, ◌||◌, Option, none, some, List, [], ◌∷◌, ◌++◌, is_some,
  get_elem?, set, get_elem?-append, get_elem?-length, Option-cases, inl, inr, length, if_elim,
  subst, if_split, All, All-imp, All-set, All-get, All-append_one, arith,
}
use concx.Chanx.Lifetime
use concx.Chanx.Lifetime.{Lifetime, cancel_cause}
use concx.Chanx.Subject.{
  SendPc, entered, passing, sent, refused, JoinPc, joining, rejecting, joined, WatchPc, watching,
  ended, Subject, Event, cancel, cascades, send, subscribe, observe, send_at, join_at, watch_at,
  cancel_observer, has, add, remove, new_subject, is_free, cancel_at, unwatch, with_canceled,
  send_step, send_at_step, watch_step, join_step, join_at_step, cancel_begin, cascade_step, step,
  run,
}
use concx.Chanx.Subject.Members.{
  is_canceled, canceled_now, cancel_at-known, has-add, has-remove, not_there, left_out, or_right,
  or_mono, removed_before, added_known,
}

module _ {Err : Type 0} (i : ℕ) where
  -- By whether the observer at `i` is there, whether it is among the subscribers, and whether it is
  -- canceled.
  abbrev Fine : Bool → Bool → Bool → JoinPc Err → Type 0
  Fine e h c (joining o) = o ≡ i → e ≡ true
  Fine e h c (rejecting o er) = o ≡ i → e ≡ true
  Fine e h c (joined o) = o ≡ i → h || c ≡ true

  abbrev LoopOk : Bool → Bool → Bool → Option Err → Option (Err × List ℕ) → Type 0
  LoopOk e h c err none = is_some err ≡ true → h ≡ false
  LoopOk e h c err (some (er, todo)) =
      (is_some err ≡ true) × (h ≡ true → has i todo || c ≡ true) × (has i todo ≡ true → e ≡ true)

  Fine-mono :
      (e h c e' h' c' : Bool) (pc : JoinPc Err)
      → (e ≡ true → e' ≡ true)
      → (h || c ≡ true → h' || c' ≡ true)
      → Fine e h c pc
      → Fine e' h' c' pc
  Fine-mono e h c e' h' c' (joining o) f g k = λ q. f (k q)
  Fine-mono e h c e' h' c' (rejecting o er) f g k = λ q. f (k q)
  Fine-mono e h c e' h' c' (joined o) f g k = λ q. g (k q)

  abbrev there : List (Lifetime Err) → Bool
  there ls = is_some (get_elem? ls i)

  abbrev gone : List (Lifetime Err) → Bool
  gone ls = is_canceled (get_elem? ls i)

  removed_or_gone :
      (o : ℕ) (ps : List ℕ) (ls : List (Lifetime Err)) (l : Lifetime Err)
      → get_elem? ls o ≡ some l
      → is_some l.err ≡ true
      → has i ps || gone ls ≡ true
      → has i (remove o ps) || gone ls ≡ true
  removed_or_gone o ps ls l e c h = rw (has-remove o i ps) (ground (arith, e, c, h))

  free_loop :
      (e h h' g : Bool) (err : Option Err) (c : Option (Err × List ℕ))
      → is_free c ≡ true
      → (h' ≡ true → h ≡ true)
      → LoopOk e h g err c
      → LoopOk e h' g err c
  free_loop e h h' g err none f k lo = λ q. not_there h' h k (lo q)
  free_loop e h h' g err (some c) f k lo = absurd (cc)

  appended :
      (ls : List (Lifetime Err)) (l : Lifetime Err)
      → (there ls ≡ true → there (ls ++ l ∷ []) ≡ true)
        × (gone ls ≡ true → gone (ls ++ l ∷ []) ≡ true)
  appended ls l = elim (Option-cases (get_elem? ls i)) [
    | inl e ↦ rw e ((λ h. absurd (cc)), λ h. absurd (cc))
    | inr (m, e) ↦ rw (e, get_elem?-append ls (l ∷ []) i m e) ((λ h. h), λ h. h)
  ]

  loop_mono :
      (e h g e' g' : Bool) (err : Option Err) (c : Option (Err × List ℕ))
      → (e ≡ true → e' ≡ true)
      → (g ≡ true → g' ≡ true)
      → LoopOk e h g err c
      → LoopOk e' h g' err c
  loop_mono e h g e' g' err none f k lo = lo
  loop_mono e h g e' g' err (some (er, todo)) f k lo =
      (lo.0, (λ q. or_mono (has i todo) g g' k (lo.1 q)), λ q. f (lo.2 q))

  drained :
      (e h g : Bool) (err : Option Err) (c : Option (Err × List ℕ))
      → is_free c ≡ true
      → is_some err ≡ true
      → LoopOk e h g err c
      → h ≡ false
  drained e h g err none f q lo = lo q
  drained e h g err (some c) f q lo = absurd (cc)

  fresh_loop :
      (e h g : Bool) (err : Option Err) (c : Option (Err × List ℕ))
      → err ≡ none
      → is_free c ≡ true
      → LoopOk e h g err c
  fresh_loop e h g err none n f = λ q. absurd (ground (arith, n, q))
  fresh_loop e h g err (some c) n f = absurd (cc)

  module _ {T : Type 0} where
    record Inv (s : Subject T Err) : Type 0 where
      pub subs_known : has i s.subs ≡ true → there s.observers ≡ true
      pub loop : LoopOk (there s.observers) (has i s.subs) (gone s.observers) s.life.err s.cascade
      pub joins : All (Fine (there s.observers) (has i s.subs) (gone s.observers)) s.joiners

    -- A step by which the observer at `i` stays where it is, and nothing that was settled is undone.
    move :
        (s : Subject T Err) (l : Lifetime Err) (c : Option (Err × List ℕ)) (ps : List ℕ)
        (os : List (Lifetime Err)) (ws : List WatchPc)
        → (there s.observers ≡ true → there os ≡ true)
        → (has i s.subs || gone s.observers ≡ true → has i ps || gone os ≡ true)
        → (has i ps ≡ true → there os ≡ true)
        → LoopOk (there os) (has i ps) (gone os) l.err c
        → Inv s
        → Inv (record s { life = l; cascade = c; subs = ps; observers = os; watchers = ws })
    move s l c ps os ws f g k lo a = record {
      subs_known = k;
      loop = lo;
      joins =
          All-imp (Fine (there s.observers) (has i s.subs) (gone s.observers)) _
            (λ pc h.
              Fine-mono (there s.observers) (has i s.subs) (gone s.observers) (there os) (has i ps)
                (gone os) pc f g h)
            s.joiners a.joins;
    }

    put_joiner :
        (s : Subject T Err) (n : ℕ) (pc : JoinPc Err)
        → Fine (there s.observers) (has i s.subs) (gone s.observers) pc
        → Inv s
        → Inv (record s { joiners = set s.joiners n pc })
    put_joiner s n pc h a = record {
      subs_known = a.subs_known;
      loop = a.loop;
      joins =
          All-set (Fine (there s.observers) (has i s.subs) (gone s.observers)) s.joiners n pc
            a.joins h;
    }

    -- Somebody cancels an observer.
    module _ (completed : Err) where
      loop_kept :
          (o : ℕ) (cause : Option Err) (s : Subject T Err) (c : Option (Err × List ℕ))
          → LoopOk (there s.observers) (has i s.subs) (gone s.observers) s.life.err c
          → let os = cancel_at completed o cause s.observers (get_elem? s.observers o) in
            LoopOk (there os) (has i s.subs) (gone os) s.life.err c
      loop_kept o cause s none h = h
      loop_kept o cause s (some (er, todo)) h =
          let (known, stays, now) = cancel_at-known completed o i cause s.observers in
          (h.0, λ q. or_mono (has i todo) (gone s.observers) _ stays (h.1 q), λ t. known ∙ h.2 t)

      cancel_one :
          (o : ℕ) (cause : Option Err) (s : Subject T Err)
          → Inv s
          → Inv (with_canceled completed o cause s)
      cancel_one o cause s a =
          let (known, stays, now) = cancel_at-known completed o i cause s.observers in
          move s s.life s.cascade s.subs _ s.watchers (λ h. known ∙ h)
            (or_mono (has i s.subs) (gone s.observers) _ stays) (λ h. known ∙ a.subs_known h)
            (loop_kept o cause s s.cascade a.loop) a

      cascade_step-Inv :
          (c : Option (Err × List ℕ)) (s : Subject T Err)
          → s.cascade ≡ c
          → Inv s
          → Inv (cascade_step completed c s)
      unfolding cascade_step
      cascade_step-Inv none s e a = a
      cascade_step-Inv (some (er, [])) s e a =
          let (started, reached, todo) =
            subst (LoopOk (there s.observers) (has i s.subs) (gone s.observers) s.life.err) e
              a.loop in
          move s s.life none [] s.observers s.watchers (λ h. h) (λ h. ground (arith, reached, h))
            (λ h. absurd (cc)) (λ h. refl) a
      cascade_step-Inv (some (er, o ∷ left)) s e a =
          let (started, reached, todo) =
            subst (LoopOk (there s.observers) (has i s.subs) (gone s.observers) s.life.err) e
              a.loop in
          let (known, stays, now) = cancel_at-known completed o i (some er) s.observers in
          move s s.life (some (er, left)) s.subs _ s.watchers (λ h. known ∙ h)
            (or_mono (has i s.subs) (gone s.observers) _ stays) (λ h. known ∙ a.subs_known h)
            (
              started,
              λ h. ground (arith, reached h, todo, stays, now, h),
              λ h. known ∙ todo (ground (arith, h)),
            )
            a

      cancel_begin-Inv :
          (cause : Option Err) (s : Subject T Err) → Inv s → Inv (cancel_begin completed cause s)
      unfolding cancel_begin
      cancel_begin-Inv cause s a =
          if_elim Inv (is_free s.cascade) _ s
            (if_elim Inv (is_some s.life.err) s _ a (
              move s _ _ s.subs s.observers s.watchers (λ h. h) (λ h. h) a.subs_known
                (canceled_now completed cause s.life, (λ h. ground (arith, h)), a.subs_known) a))
            a

      watch_step-Inv :
          (n : ℕ) (w : Option WatchPc) (s : Subject T Err) → Inv s → Inv (watch_step n w s)
      unfolding watch_step
      watch_step-Inv n none s a = a
      watch_step-Inv n (some ended) s a = a
      watch_step-Inv n (some (watching o)) s a = by_observer (get_elem? s.observers o) refl
        where
          by_observer :
              (l : Option (Lifetime Err)) → get_elem? s.observers o ≡ l → Inv (unwatch n o l s)
          by_observer none e = a
          by_observer (some l) e =
              if_split Inv (is_some l.err) _ s
                (λ c.
                  if_split Inv (is_free s.cascade) _ s
                    (λ f.
                      move s s.life s.cascade (remove o s.subs) s.observers _ (λ h. h)
                        (λ h. removed_or_gone o s.subs s.observers l e c h)
                        (λ h. a.subs_known (removed_before o i s.subs h))
                        (free_loop (there s.observers) (has i s.subs) (has i (remove o s.subs))
                          (gone s.observers) s.life.err s.cascade f (removed_before o i s.subs)
                          a.loop)
                        a)
                    (λ f. a))
                (λ c. a)

      join_step-Inv :
          (n : ℕ) (pc : JoinPc Err) (s : Subject T Err)
          → Fine (there s.observers) (has i s.subs) (gone s.observers) pc
          → Inv s
          → Inv (join_step completed n pc s)
      unfolding join_step
      join_step-Inv n (joining o) s h a =
          if_split Inv (is_free s.cascade) _ s (λ f. by_err s.life.err refl f) (λ f. a)
        where
          by_err :
              (e : Option Err)
              → s.life.err ≡ e
              → is_free s.cascade ≡ true
              → Inv (elim e [
                | some er ↦ record s { joiners = set s.joiners n (rejecting o er) }
                | none ↦ record s {
                  subs = add o s.subs;
                  joiners = set s.joiners n (joined o);
                  watchers = s.watchers ++ watching o ∷ [];
                }
              ])
          by_err (some er) e f = put_joiner s n (rejecting o er) h a
          by_err none e f =
              put_joiner
                (record s { subs = add o s.subs; watchers = s.watchers ++ watching o ∷ [] }) n
                (joined o) (λ q. rw (has-add o i s.subs) (ground (arith, q)))
                (move s s.life s.cascade (add o s.subs) s.observers _ (λ k. k)
                  (λ k. rw (has-add o i s.subs) (ground (arith, k)))
                  (λ k. added_known o i s.subs (there s.observers) h a.subs_known k)
                  (fresh_loop (there s.observers) (has i (add o s.subs)) (gone s.observers)
                    s.life.err s.cascade e f)
                  a)
      join_step-Inv n (rejecting o e) s h a =
          put_joiner (with_canceled completed o (some e) s) n (joined o)
            (λ q. or_right _ _ ((cancel_at-known completed o i (some e) s.observers).2 q (h q)))
            (cancel_one o (some e) s a)
      join_step-Inv n (joined o) s h a = a

      send_step-kept :
          (pc : SendPc T) (s : Subject T Err)
          → let s' = (send_step pc s).0 in
            (s'.life ≡ s.life)
            × (s'.cascade ≡ s.cascade)
            × (s'.subs ≡ s.subs)
            × (s'.observers ≡ s.observers)
            × (s'.joiners ≡ s.joiners)
      unfolding send_step
      send_step-kept (entered x) s = (refl, refl, refl, refl, refl)
      send_step-kept (passing x found []) s = (refl, refl, refl, refl, refl)
      send_step-kept (passing x found (o ∷ left)) s = (refl, refl, refl, refl, refl)
      send_step-kept (sent x found) s = (refl, refl, refl, refl, refl)
      send_step-kept refused s = (refl, refl, refl, refl, refl)

      send_at-Inv :
          (n : ℕ) (pc : Option (SendPc T)) (s : Subject T Err) → Inv s → Inv (send_at_step n pc s)
      unfolding send_at_step
      send_at-Inv n none s a = a
      send_at-Inv n (some pc) s a =
          let (l, c, ps, os, js) = send_step-kept pc s in
          record {
            subs_known = rw (ps, os) a.subs_known;
            loop = rw (l, c, ps, os) a.loop;
            joins = rw (ps, os, js) a.joins;
          }

      with_new :
          (s : Subject T Err)
          → Inv s
          → Inv (record s {
            observers = s.observers ++ Lifetime.new ∷ [];
            joiners = s.joiners ++ joining (length s.observers) ∷ [];
          })
      with_new s a =
          let os = s.observers ++ Lifetime.new ∷ [] in
          let (known, stays) = appended s.observers Lifetime.new in
          let moved =
            move s s.life s.cascade s.subs os s.watchers known
              (or_mono (has i s.subs) (gone s.observers) (gone os) stays)
              (λ h. known (a.subs_known h))
              (loop_mono (there s.observers) (has i s.subs) (gone s.observers) (there os) (gone os)
                s.life.err s.cascade known stays a.loop)
              a in
          record {
            subs_known = moved.subs_known;
            loop = moved.loop;
            joins =
                All-append_one (Fine (there os) (has i s.subs) (gone os)) s.joiners
                  (joining (length s.observers)) moved.joins
                  (λ q. ap is_some (
                    subst (λ n. get_elem? os n ≡ some Lifetime.new) q
                      (get_elem?-length s.observers Lifetime.new)));
          }

      step-Inv : (e : Event T Err) (s : Subject T Err) → Inv s → Inv (step completed e s)
      unfolding step join_at_step
      step-Inv (cancel c) s a = cancel_begin-Inv c s a
      step-Inv cascades s a = cascade_step-Inv s.cascade s refl a
      step-Inv (send x) s a = record { subs_known = a.subs_known; loop = a.loop; joins = a.joins }
      step-Inv (subscribe o) s a =
          if_split Inv (is_some (get_elem? s.observers o)) _ s
            (λ h. record {
              subs_known = a.subs_known;
              loop = a.loop;
              joins =
                  All-append_one (Fine (there s.observers) (has i s.subs) (gone s.observers))
                    s.joiners (joining o) a.joins (λ q. ground (arith, q, h));
            })
            (λ h. a)
      step-Inv observe s a = with_new s a
      step-Inv (send_at n) s a = send_at-Inv n (get_elem? s.senders n) s a
      step-Inv (join_at n) s a = elim (Option-cases (get_elem? s.joiners n)) [
        | inl e ↦ rw e a
        | inr (pc, e) ↦ rw e (
            join_step-Inv n pc s
              (All-get (Fine (there s.observers) (has i s.subs) (gone s.observers)) s.joiners n pc e
                a.joins)
              a)
      ]
      step-Inv (watch_at n) s a = watch_step-Inv n (get_elem? s.watchers n) s a
      step-Inv (cancel_observer o c) s a = cancel_one o c s a

      run-Inv : (es : List (Event T Err)) (s : Subject T Err) → Inv s → Inv (run completed es s)
      unfolding run
      run-Inv [] s a = a
      run-Inv (e ∷ es) s a = run-Inv es (step completed e s) (step-Inv e s a)

      new-Inv : (os : List (Lifetime Err)) → Inv (new_subject {T = T} os)
      unfolding new_subject
      new-Inv os = record { subs_known = λ h. absurd (cc); loop = λ h. refl; joins = tt }

      -- A cancellation reaches every subscriber. After every history of a new subject, with any
      -- interleaving of `Send`, `Subscribe`, `Observe`, `CancelCause` and of others that cancel the
      -- subscribers: if the subject has an error and no `CancelCause` is in its loop, no subscriber is
      -- left, and whoever a call of `Subscribe` has returned for, before or after, is canceled.
      pub cancel_reaches_all :
          (es : List (Event T Err)) (os : List (Lifetime Err)) (n : ℕ)
          → is_some (run completed es (new_subject os)).life.err ≡ true
          → is_free (run completed es (new_subject os)).cascade ≡ true
          → get_elem? (run completed es (new_subject os)).joiners n ≡ some (joined i)
          → let s = run completed es (new_subject os) in
            (has i s.subs ≡ false) × (is_canceled (get_elem? s.observers i) ≡ true)
      cancel_reaches_all es os n err free e =
          let s = run completed es (new_subject os) in
          let a = run-Inv es (new_subject os) (new-Inv os) in
          let out =
            drained (there s.observers) (has i s.subs) (gone s.observers) s.life.err s.cascade free
              err a.loop in
          (
            out,
            left_out (has i s.subs) (gone s.observers) out (
                All-get (Fine (there s.observers) (has i s.subs) (gone s.observers)) s.joiners n
                  (joined i) e a.joins refl),
          )
