-- ===== src/Orch/Pipe/Run/Shutting.antt =====
-- pkg/orch/pipe/pipe.go: what holds of `shutdown` at each of its steps, and of the calls of `Close`.
use concx.Prelude.{
  ℕ, ◌≡◌, refl, sym, ap, ◌∙◌, ◌⊎◌, inl, inr, true, false, Option, none, some, List, [], ◌∷◌, ◌++◌,
  map, subst, All, All-imp, arith, is_some,
}
use mathlib.Core.List.{append_assoc, append-nil}
use concx.Codex.{Codex}
use concx.Orch.Pipe.Lifetime.{
  Lifetime, built, is_at, ShutPc, unshut, storing, ending, waking, cutting, sche_closing, over,
  is_over, Running, reason_or, close_sche, begin_shutdown, shut_step,
}
use concx.Orch.Pipe.Run.{ClosePc, begun, shutting, joining, closed, crashed, Line}

close_sche_once :
    (s : Option ℕ) → (s ≡ none) ⊎ (s ≡ some 0) → (close_sche s ≡ none) ⊎ (close_sche s ≡ some 1)
close_sche_once none h = inl refl
close_sche_once (some n) (inl h) = absurd (cc)
close_sche_once (some n) (inr h) = inr (ground (arith, h))

module _ {Err : Type 0} where
  -- The reason is stored from the first step on, and not changed.
  abbrev pub Reason : ShutPc Err → Option Err → Type 0
  Reason (ending e) c = c ≡ some e
  Reason (waking e) c = c ≡ some e
  Reason (cutting e left) c = c ≡ some e
  Reason sche_closing c = is_some c ≡ true
  Reason over c = is_some c ≡ true
  Reason _ c = c ≡ none

  -- The pipeline is closed from the second step on.
  abbrev pub Ended : ShutPc Err → Lifetime → Type 0
  Ended (waking e) l = l ≡ Lifetime.closed
  Ended (cutting e left) l = l ≡ Lifetime.closed
  Ended sche_closing l = l ≡ Lifetime.closed
  Ended over l = l ≡ Lifetime.closed
  Ended _ l = Unit

  -- Each channel canceled with the cause.
  abbrev pub with_cause : Option Err → List ℕ → List (ℕ × Err)
  with_cause none cs = []
  with_cause (some e) cs = map (λ c. (c, e)) cs

  -- The calls of `CancelCause`, in a pipeline with the channels `cs`.
  abbrev pub Cut : List ℕ → ShutPc Err → Option Err → List (ℕ × Err) → Type 0
  Cut cs (cutting e left) c done = done ++ with_cause (some e) left ≡ with_cause (some e) cs
  Cut cs sche_closing c done = done ≡ with_cause c cs
  Cut cs over c done = done ≡ with_cause c cs
  Cut cs _ c done = done ≡ []

  -- The scheduler is closed by the last step.
  abbrev pub ScheClosed : ShutPc Err → Option ℕ → Type 0
  ScheClosed over s = (s ≡ none) ⊎ (s ≡ some 1)
  ScheClosed _ s = (s ≡ none) ⊎ (s ≡ some 0)

  pub record Part (cs : List ℕ) (at : ShutPc Err) (p : Running Err) : Type 0 where
    pub same : p.cancels ≡ cs
    pub reason : Reason at p.cause
    pub ended : Ended at p.lifetime
    pub cut : Cut cs at p.cause p.canceled
    pub sche : ScheClosed at p.sche

  -- A call of `Close` is past `shutdown` with the stored reason, once it has returned.
  abbrev pub AtClose : ShutPc Err → Option Err → ClosePc Err → Type 0
  AtClose at c (ClosePc.canceling r) = (is_over at ≡ true) × (r ≡ c)
  AtClose at c _ = Unit

  pub record Inv (cs : List ℕ) (l : Line Err) : Type 0 where
    pub part : Part cs l.pipeline.shut l.pipeline
    pub closing : All (AtClose l.pipeline.shut l.pipeline.cause) l.closers

  -- The first half of `shutdown` is before the lifetime is changed.
  pub not_over :
      (at : ShutPc Err) (l : Lifetime) → Ended at l → is_at l built ≡ true → is_over at ≡ false
  not_over over l h b = absurd (ground (arith, h, b))
  not_over unshut l h b = refl
  not_over (storing e) l h b = refl
  not_over (ending e) l h b = refl
  not_over (waking e) l h b = refl
  not_over (cutting e left) l h b = refl
  not_over sche_closing l h b = refl

  -- A built pipeline gets another scheduler, or goes on to run.
  pub fresh_sche : (at : ShutPc Err) → is_over at ≡ false → ScheClosed at (some 0)
  fresh_sche over h = absurd (cc)
  fresh_sche unshut h = inr refl
  fresh_sche (storing e) h = inr refl
  fresh_sche (ending e) h = inr refl
  fresh_sche (waking e) h = inr refl
  fresh_sche (cutting e left) h = inr refl
  fresh_sche sche_closing h = inr refl

  pub still_open :
      (at : ShutPc Err) (l m : Lifetime) → Ended at l → is_at l built ≡ true → Ended at m
  still_open unshut l m h b = tt
  still_open (storing e) l m h b = tt
  still_open (ending e) l m h b = tt
  still_open (waking e) l m h b = absurd (ground (arith, h, b))
  still_open (cutting e left) l m h b = absurd (ground (arith, h, b))
  still_open sche_closing l m h b = absurd (ground (arith, h, b))
  still_open over l m h b = absurd (ground (arith, h, b))

  -- A step of `shutdown`.
  pub shut_step-Part :
      (cs : List ℕ) (at : ShutPc Err) (p : Running Err)
      → p.shut ≡ at
      → Part cs at p
      → Part cs (shut_step at p).shut (shut_step at p)
  unfolding shut_step
  shut_step-Part cs unshut p e v = subst (λ a. Part cs a p) (sym e) v
  shut_step-Part cs over p e v = subst (λ a. Part cs a p) (sym e) v
  shut_step-Part cs (storing r) p e v = record {
    same = v.same;
    reason = refl;
    ended = tt;
    cut = v.cut;
    sche = v.sche;
  }
  shut_step-Part cs (ending r) p e v = record {
    same = v.same;
    reason = v.reason;
    ended = refl;
    cut = v.cut;
    sche = v.sche;
  }
  shut_step-Part cs (waking r) p e v = record {
    same = v.same;
    reason = v.reason;
    ended = v.ended;
    cut = ap (λ ds. ds ++ with_cause (some r) p.cancels) v.cut ∙ ap (with_cause (some r)) v.same;
    sche = v.sche;
  }
  shut_step-Part cs (cutting r []) p e v = record {
    same = v.same;
    reason = ap is_some v.reason;
    ended = v.ended;
    cut = sym (append-nil p.canceled) ∙ v.cut ∙ ap (λ c. with_cause c cs) (sym v.reason);
    sche = v.sche;
  }
  shut_step-Part cs (cutting r (c ∷ left)) p e v = record {
    same = v.same;
    reason = v.reason;
    ended = v.ended;
    cut = append_assoc p.canceled ((c, r) ∷ []) (with_cause (some r) left) ∙ v.cut;
    sche = v.sche;
  }
  shut_step-Part cs sche_closing p e v = record {
    same = v.same;
    reason = v.reason;
    ended = v.ended;
    cut = v.cut;
    sche = close_sche_once p.sche v.sche;
  }

  -- Before the end of `shutdown` no call of `Close` is past it.
  none_past :
      (at at' : ShutPc Err) (c c' : Option Err) (cs : List (ClosePc Err))
      → is_over at ≡ false
      → All (AtClose at c) cs
      → All (AtClose at' c') cs
  none_past at at' c c' cs h = All-imp (AtClose at c) (AtClose at' c') one cs
    where
      one : (p : ClosePc Err) → AtClose at c p → AtClose at' c' p
      one (ClosePc.canceling r) a = absurd (ground (arith, a.0, h))
      one begun a = tt
      one shutting a = tt
      one (joining r) a = tt
      one (closed r) a = tt
      one crashed a = tt

  pub shut_step-closing :
      (at : ShutPc Err) (p : Running Err) (cs : List (ClosePc Err))
      → p.shut ≡ at
      → All (AtClose at p.cause) cs
      → All (AtClose (shut_step at p).shut (shut_step at p).cause) cs
  unfolding shut_step
  shut_step-closing unshut p cs e a = subst (λ s. All (AtClose s p.cause) cs) (sym e) a
  shut_step-closing over p cs e a = subst (λ s. All (AtClose s p.cause) cs) (sym e) a
  shut_step-closing (storing r) p cs e a =
      none_past (storing r) (ending r) p.cause (some r) cs refl a
  shut_step-closing (ending r) p cs e a = none_past (ending r) (waking r) p.cause p.cause cs refl a
  shut_step-closing (waking r) p cs e a =
      none_past (waking r) (cutting r p.cancels) p.cause p.cause cs refl a
  shut_step-closing (cutting r []) p cs e a =
      none_past (cutting r []) sche_closing p.cause p.cause cs refl a
  shut_step-closing (cutting r (c ∷ left)) p cs e a =
      none_past (cutting r (c ∷ left)) (cutting r left) p.cause p.cause cs refl a
  shut_step-closing sche_closing p cs e a = none_past sche_closing over p.cause p.cause cs refl a

module _ {Err : Type 0} ⦃x : Codex Err⦄ where
  pub begin-Part :
      (cs : List ℕ) (r : Option Err) (at : ShutPc Err) (p : Running Err)
      → p.shut ≡ at
      → Part cs at p
      → Part cs (begin_shutdown r at p).shut (begin_shutdown r at p)
  unfolding begin_shutdown
  begin-Part cs r unshut p e v = record {
    same = v.same;
    reason = v.reason;
    ended = tt;
    cut = v.cut;
    sche = v.sche;
  }
  begin-Part cs r at p e v = subst (λ a. Part cs a p) (sym e) v

  pub begin-closing :
      (r : Option Err) (at : ShutPc Err) (p : Running Err) (cs : List (ClosePc Err))
      → p.shut ≡ at
      → All (AtClose at p.cause) cs
      → All (AtClose (begin_shutdown r at p).shut (begin_shutdown r at p).cause) cs
  unfolding begin_shutdown
  begin-closing r unshut p cs e a =
      none_past unshut (storing (reason_or r)) p.cause p.cause cs refl a
  begin-closing r at p cs e a = subst (λ s. All (AtClose s p.cause) cs) (sym e) a
