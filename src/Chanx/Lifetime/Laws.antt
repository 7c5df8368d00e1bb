-- ===== src/Chanx/Lifetime/Laws.antt =====
-- pkg/chanx: `Done` and `CancelCause` refine a cell that is written once.
use concx.Prelude.{
  All-imp, ℕ, ◌≡◌, refl, ◌∙◌, ap, true, false, Option, none, some, List, [], ◌∷◌, is_some, or_else,
  All, All-append_one, All-set, All-get, get_elem?, arith, if◌then◌else◌,
}
use concx.Chanx.Lifetime.{
  Chan, own, closedch, Lifetime, DonePc, begun, got, new, is_closed, done_step, cancel_cause, Event,
  cancel, ask, ask_at, Calls, ask_step, step, run, first_cause,
}

module _ {Err : Type 0} where
  -- What `done` holds is closed exactly if there is an error, and nothing was closed twice.
  abbrev pub IsHeld : Lifetime Err → Option Chan → Type 0
  IsHeld s none = (s.err ≡ none) × (s.own_closed ≡ false)
  IsHeld s (some own) = s.own_closed ≡ is_some s.err
  IsHeld s (some closedch) = is_some s.err ≡ true

  abbrev pub IsSound : Lifetime Err → Type 0
  IsSound s = IsHeld s s.done × (s.panicked ≡ false)

  -- A call of `Done` that has returned gave the channel that `done` holds.
  abbrev pub Agrees : Lifetime Err → DonePc → Type 0
  Agrees s (got c) = s.done ≡ some c
  Agrees s _ = Unit

  pub cancel_cause-IsSound :
      (completed : Err) (cause : Option Err) (s : Lifetime Err)
      → IsSound s
      → IsSound (cancel_cause completed cause s)
  unfolding cancel_cause
  cancel_cause-IsSound completed cause s h = ground arith

  pub done_step-IsSound : (pc : DonePc) (s : Lifetime Err) → IsSound s → IsSound (done_step pc s).0
  unfolding done_step
  done_step-IsSound pc s h = ground arith

  pub done_step-Agrees :
      (pc : DonePc) (s : Lifetime Err) → Agrees s pc → Agrees (done_step pc s).0 (done_step pc s).1
  unfolding done_step
  done_step-Agrees pc s h = ground arith

  -- A channel once held stays.
  pub done_step-kept :
      (pc at : DonePc) (s : Lifetime Err) → Agrees s at → Agrees (done_step pc s).0 at
  unfolding done_step
  done_step-kept pc at s h = ground arith

  pub cancel_cause-kept :
      (completed : Err) (cause : Option Err) (at : DonePc) (s : Lifetime Err)
      → Agrees s at
      → Agrees (cancel_cause completed cause s) at
  unfolding cancel_cause
  cancel_cause-kept completed cause at s h = ground arith

  -- A returned channel is closed exactly if there is an error.
  abbrev pub Tells : Lifetime Err → DonePc → Type 0
  Tells s (got c) = is_closed s c ≡ is_some s.err
  Tells s _ = Unit

  Agrees-Tells : (pc : DonePc) (s : Lifetime Err) → IsSound s → Agrees s pc → Tells s pc
  Agrees-Tells pc s h a = ground arith

module _ {Err : Type 0} (completed : Err) where
  record Inv (s : Calls Err) : Type 0 where
    pub sound : IsSound s.life
    pub agree : All (Agrees s.life) s.calls

  ask-Inv :
      (i : ℕ) (c : Option DonePc) (s : Calls Err)
      → get_elem? s.calls i ≡ c
      → Inv s
      → Inv (ask_step completed i c s)
  unfolding ask_step
  ask-Inv i none s e v = v
  ask-Inv i (some pc) s e v = record {
    sound = done_step-IsSound pc s.life v.sound;
    agree =
        All-set (Agrees (done_step pc s.life).0) s.calls i _
          (All-imp (Agrees s.life) _ (λ at a. done_step-kept pc at s.life a) s.calls v.agree)
          (done_step-Agrees pc s.life (All-get (Agrees s.life) s.calls i pc e v.agree));
  }

  step-Inv : (e : Event Err) (s : Calls Err) → Inv s → Inv (step completed e s)
  unfolding step
  step-Inv (cancel cause) s v = record {
    sound = cancel_cause-IsSound completed cause s.life v.sound;
    agree =
        All-imp (Agrees s.life) _ (λ at a. cancel_cause-kept completed cause at s.life a) s.calls
          v.agree;
  }
  step-Inv ask s v = record {
    sound = v.sound;
    agree = All-append_one (Agrees s.life) s.calls begun v.agree tt;
  }
  step-Inv (ask_at i) s v = ask-Inv i (get_elem? s.calls i) s refl v

  run-Inv : (es : List (Event Err)) (s : Calls Err) → Inv s → Inv (run completed es s)
  unfolding run
  run-Inv [] s v = v
  run-Inv (e ∷ es) s v = run-Inv es (step completed e s) (step-Inv e s v)

  pub cancel_cause-err :
      (cause : Option Err) (s : Lifetime Err)
      → (cancel_cause completed cause s).err
        ≡ (if is_some s.err then s.err else some (or_else cause completed))
  unfolding cancel_cause
  cancel_cause-err cause s = ground arith

  ask_step-err :
      (i : ℕ) (c : Option DonePc) (s : Calls Err) → (ask_step completed i c s).life.err ≡ s.life.err
  unfolding ask_step done_step
  ask_step-err i none s = refl
  ask_step-err i (some pc) s = ground arith

  run-err :
      (es : List (Event Err)) (s : Calls Err)
      → (run completed es s).life.err ≡ first_cause completed es s.life.err
  unfolding run step first_cause
  run-err [] s = refl
  run-err (cancel cause ∷ es) s =
      run-err es _ ∙ ap (first_cause completed es) (cancel_cause-err cause s.life)
  run-err (ask ∷ es) s = run-err es _
  run-err (ask_at i ∷ es) s =
      run-err es _ ∙ ap (first_cause completed es) (ask_step-err i (get_elem? s.calls i) s)

  -- An observer's, and a subject's, `Done` and `CancelCause` refine a cell that is written once. After
  -- every history of calls, of which any number of `Done` may be under way: the error is the cause of
  -- the first cancellation, `ErrCompleted` for nil; every channel that a call of `Done` returned is
  -- closed exactly if there is an error; and no channel was closed twice.
  pub lifetime_refines :
      (es : List (Event Err))
      → let s = run completed es (record { life = new; calls = [] }) in
        (s.life.err ≡ first_cause completed es none)
        × All (Tells s.life) s.calls
        × (s.life.panicked ≡ false)
  lifetime_refines es =
      let start : Calls Err = record { life = new; calls = [] } in
      let v = run-Inv es start (record { sound = ((refl, refl), refl); agree = tt }) in
      let s = run completed es start in
      (
        run-err es start,
        All-imp (Agrees s.life) _ (λ pc a. Agrees-Tells pc s.life v.sound a) s.calls v.agree,
        v.sound.1,
      )
