-- ===== src/Schedx/Retrievable/Result/Laws.antt =====
-- `result` of pkg/schedx/retrievable_scheduler.go: it is settled once, and its waiters are told so.
use concx.Prelude.{
  ◌≡◌, refl, true, Option, none, some, List, [], ◌∷◌, All, is_some, subst, if_elim, arith,
}
use concx.Codex.{Codex}
use concx.Schedx.Retrievable.Result.{
  Once, unsettled, assigned, settled, Shared, Event, finish, publish, store, close, WaitPc, first,
  second, saw_closed, got, Choice, by_context, by_done, by_closed, reason, step, run, wait_step,
  after_done, choose, begin, published, Action, happens, waits, play,
}

module _ {Out Err : Type 0} ⦃x : Codex Err⦄ (zero_out : Out) where
  step-settled :
      (e : Event Out Err) (s : Shared Out Err) (out : Out) (err : Option Err)
      → s.once ≡ settled out err
      → (step zero_out e s).once ≡ settled out err
  unfolding step
  step-settled (finish o r) s out err h = rw h refl
  step-settled publish s out err h = rw h refl
  step-settled (store c) s out err h = h
  step-settled close s out err h = h

  run-settled :
      (es : List (Event Out Err)) (s : Shared Out Err) (out : Out) (err : Option Err)
      → s.once ≡ settled out err
      → (run zero_out es s).once ≡ settled out err
  unfolding run
  run-settled [] s out err h = h
  run-settled (e ∷ es) s out err h =
      run-settled es (step zero_out e s) out err (step-settled e s out err h)

  -- Once a result is settled, every call of `Result` answers at once with the same value and error,
  -- whatever else finishes, closes or stores a cause in the meantime, and even if its own context
  -- has ended.
  pub settled_forever :
      (es : List (Event Out Err)) (s : Shared Out Err) (out : Out) (err : Option Err)
      (c : Choice Err)
      → s.once ≡ settled out err
      → wait_step zero_out c first (run zero_out es s) ≡ got out err
  unfolding wait_step
  settled_forever es s out err c h = rw (run-settled es s out err h) refl

-- A property of what the once has chosen.
abbrev pub Sound : {Out Err : Type 0} → (Out → Option Err → Type 0) → Once Out Err → Type 0
Sound P unsettled = Unit
Sound P (assigned out err) = P out err
Sound P (settled out err) = P out err

abbrev pub IsFine : {Out Err : Type 0} → (Event Out Err → Type 0) → Action Out Err → Type 0
IsFine Fine (happens e) = Fine e
IsFine Fine (waits c) = Unit

module _ {Out Err : Type 0} ⦃x : Codex Err⦄ (zero_out : Out) (P : Out → Option Err → Type 0) where
  pub begin-Sound : (o n : Once Out Err) → Sound P n → Sound P o → Sound P (begin zero_out o n)
  begin-Sound unsettled n g h = g
  begin-Sound (assigned out err) n g h = h
  begin-Sound (settled out err) n g h = h

  pub published-Sound : (o : Once Out Err) → Sound P o → Sound P (published zero_out o)
  published-Sound unsettled h = h
  published-Sound (assigned out err) h = h
  published-Sound (settled out err) h = h

  -- What an event would choose has the property.
  abbrev Gives : Event Out Err → Shared Out Err → Type 0
  Gives (finish out err) s = Sound P (choose zero_out out err s)
  Gives _ s = Unit

  step-Sound :
      (e : Event Out Err) (s : Shared Out Err)
      → Gives e s
      → Sound P s.once
      → Sound P (step zero_out e s).once
  unfolding step
  step-Sound (finish out err) s g h = begin-Sound s.once _ g h
  step-Sound publish s g h = published-Sound s.once h
  step-Sound (store c) s g h = h
  step-Sound close s g h = h

  -- What a call of `Result` returns has it too.
  abbrev Told : WaitPc Out Err → Type 0
  Told (got out err) = P out err
  Told _ = Unit

  after_done-Told :
      (o : Once Out Err) (w : WaitPc Out Err) → Sound P o → Told w → Told (after_done zero_out o w)
  after_done-Told unsettled w h t = t
  after_done-Told (assigned out err) w h t = t
  after_done-Told (settled out err) w h t = h

  module _ (fails : (e : Err) → P zero_out (some e)) where
    wait_step-Told :
        (c : Choice Err) (w : WaitPc Out Err) (s : Shared Out Err)
        → Sound P s.once
        → Told w
        → Told (wait_step zero_out c w s)
    unfolding wait_step
    wait_step-Told c first s h t = after_done-Told s.once second h tt
    wait_step-Told (by_context e) second s h t = fails e
    wait_step-Told by_done second s h t = after_done-Told s.once second h tt
    wait_step-Told by_closed second s h t = if_elim Told s.closed saw_closed second tt tt
    wait_step-Told c saw_closed s h t = after_done-Told s.once _ h (fails (reason zero_out s.cause))
    wait_step-Told c (got out err) s h t = t

    -- `I` holds all along, and with it no event that is `Fine` chooses anything else.
    module _ (I : Shared Out Err → Type 0) (Fine : Event Out Err → Type 0)
        (keeps : (e : Event Out Err) (s : Shared Out Err) → I s → I (step zero_out e s))
        (gives : (e : Event Out Err) (s : Shared Out Err) → Fine e → I s → Gives e s) where
      play-Told :
          (acts : List (Action Out Err)) (s : Shared Out Err) (w : WaitPc Out Err)
          → All (IsFine Fine) acts
          → I s
          → Sound P s.once
          → Told w
          → Told (play zero_out acts s w)
      unfolding play
      play-Told [] s w f i h t = t
      play-Told (happens e ∷ acts) s w f i h t =
          play-Told acts (step zero_out e s) w f.1 (keeps e s i)
            (step-Sound e s (gives e s f.0 i) h) t
      play-Told (waits c ∷ acts) s w f i h t =
          play-Told acts s (wait_step zero_out c w s) f.1 i h (wait_step-Told c w s h t)

module _ {Out Err : Type 0} ⦃x : Codex Err⦄ (zero_out : Out) where
  abbrev Failed : Out → Option Err → Type 0
  Failed out err = (out ≡ zero_out) × (is_some err ≡ true)

  choose-Failed :
      (e : Event Out Err) (s : Shared Out Err)
      → Unit {0}
      → s.closed ≡ true
      → Gives zero_out Failed e s
  choose-Failed (finish out err) s f c = rw c (refl, refl)
  choose-Failed publish s f c = tt
  choose-Failed (store e) s f c = tt
  choose-Failed close s f c = tt

  stays_closed :
      (e : Event Out Err) (s : Shared Out Err) → s.closed ≡ true → (step zero_out e s).closed ≡ true
  unfolding step
  stays_closed e s c = ground arith

  All-IsFine : (acts : List (Action Out Err)) → All (IsFine (λ e. Unit {0})) acts
  All-IsFine [] = tt
  All-IsFine (happens e ∷ acts) = (tt, All-IsFine acts)
  All-IsFine (waits c ∷ acts) = (tt, All-IsFine acts)

  -- When the scheduler has closed before any finish got to a result, no call of `Result` on it ever
  -- returns without an error, nor a value other than the zero value, whatever the jobs that finish
  -- later return.
  pub closed_first :
      (acts : List (Action Out Err)) (s : Shared Out Err) (out : Out) (err : Option Err)
      → s.closed ≡ true
      → s.once ≡ unsettled
      → play zero_out acts s first ≡ got out err
      → (out ≡ zero_out) × (is_some err ≡ true)
  closed_first acts s out err c u h = subst (Told zero_out Failed) h (
      play-Told zero_out Failed (λ e. (refl, refl)) (λ s. s.closed ≡ true) (λ e. Unit) stays_closed
        choose-Failed acts s first (All-IsFine acts) c (rw u tt) tt)

  module _ (Q : Out → Type 0) where
    -- Every finish without an error carries a value in `Q`.
    abbrev pub Carries : Event Out Err → Type 0
    Carries (finish out none) = Q out
    Carries _ = Unit

    abbrev Good : Out → Option Err → Type 0
    Good out none = Q out
    Good out (some e) = Unit

    choose-Good :
        (e : Event Out Err) (s : Shared Out Err) → Carries e → Unit {0} → Gives zero_out Good e s
    choose-Good (finish out none) s f i = if_elim (Sound Good) s.closed _ _ tt f
    choose-Good (finish out (some e)) s f i = if_elim (Sound Good) s.closed _ _ tt tt
    choose-Good publish s f i = tt
    choose-Good (store e) s f i = tt
    choose-Good close s f i = tt

    -- A call of `Result` that returns no error returns a value with which a job has finished: any
    -- property of the values of all finishes that came without an error is one of what it returns,
    -- in every history of a result that was not settled at its beginning.
    pub result_from_finish :
        (acts : List (Action Out Err)) (s : Shared Out Err) (out : Out)
        → All (IsFine Carries) acts
        → s.once ≡ unsettled
        → play zero_out acts s first ≡ got out none
        → Q out
    result_from_finish acts s out f u h = subst (Told zero_out Good) h (
        play-Told zero_out Good (λ e. tt) (λ s. Unit) Carries (λ e s i. tt) choose-Good acts s first
          f tt (rw u tt) tt)
