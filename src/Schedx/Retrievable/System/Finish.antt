-- ===== src/Schedx/Retrievable/System/Finish.antt =====
-- pkg/schedx/retrievable_scheduler.go: what one `finish` does to the results.
use concx.Prelude.{
  ℕ, ◌==◌, ◌≡◌, refl, sym, ◌⊎◌, inl, inr, Bool, true, false, Option, Bool-cases, subst, is_some,
  arith, if_elim,
}
use concx.Codex.{Codex}
use concx.Schedx.Retrievable.Result
use concx.Schedx.Retrievable.Result.{Once, unsettled, assigned, settled, choose, published}
use concx.Schedx.Retrievable.Result.Laws.{Sound, begin-Sound, published-Sound}
use concx.Schedx.Retrievable.System.{Results, view, finish}

abbrev pub is_settled : {Out Err : Type 0} → Once Out Err → Bool
is_settled (settled out err) = true
is_settled _ = false

module _ {Out Err : Type 0} ⦃x : Codex Err⦄ (zero_out : Out) where
  -- The result was failed after the close.
  abbrev pub Failed : Bool → Out → Option Err → Type 0
  Failed closed out err = (closed ≡ true) × (out ≡ zero_out) × (is_some err ≡ true)

  -- What `finish` makes of its own result.
  abbrev finished : Out → Option Err → Result.Shared Out Err → Once Out Err
  finished out err c = published zero_out (Result.begin zero_out c.once (choose zero_out out err c))

  finish-cases :
      (n k : ℕ) (out : Out) (err : Option Err) (r : Results Out Err)
      → ((k == n ≡ true)
          × ((finish zero_out n out err r).rets k ≡ finished out err (view zero_out k r)))
        ⊎ ((k == n ≡ false) × ((finish zero_out n out err r).rets k ≡ r.rets k))
  unfolding finish Result.step
  finish-cases n k out err r = elim (Bool-cases (k == n)) [
    | inl h ↦ inl (h, rw h refl)
    | inr h ↦ inr (h, rw h refl)
  ]

  settles :
      (o : Once Out Err) (c : Result.Shared Out Err) (out : Out) (err : Option Err)
      → is_settled (published zero_out (Result.begin zero_out o (choose zero_out out err c))) ≡ true
  settles unsettled c out err =
      if_elim (λ o. is_settled (published zero_out o) ≡ true) c.closed _ _ refl refl
  settles (assigned o r) c out err = refl
  settles (settled o r) c out err = refl

  -- Afterwards the result is settled, and so are those that were.
  pub finish-settled :
      (n k : ℕ) (out : Out) (err : Option Err) (r : Results Out Err)
      → (k == n ≡ true) ⊎ (is_settled (r.rets k) ≡ true)
      → is_settled ((finish zero_out n out err r).rets k) ≡ true
  finish-settled n k out err r h = elim (finish-cases n k out err r) [
    | inl (e, f) ↦ rw f (settles (r.rets k) (view zero_out k r) out err)
    | inr (e, f) ↦ elim h [ inl g ↦ absurd (ground (arith, e, g)) | inr g ↦ rw f g ]
  ]

  -- A finish keeps what holds of the answers, if what it may choose has it.
  pub finish-Sound :
      (P : ℕ → Out → Option Err → Type 0) (n : ℕ) (out : Out) (err : Option Err)
      (r : Results Out Err)
      → Sound (P n) (choose zero_out out err (view zero_out n r))
      → ((k : ℕ) → Sound (P k) (r.rets k))
      → (k : ℕ) → Sound (P k) ((finish zero_out n out err r).rets k)
  finish-Sound P n out err r c h k = elim (finish-cases n k out err r) [
    | inl (e, f) ↦ subst (Sound (P k)) (sym f) (
        published-Sound zero_out (P k) _ (
          begin-Sound zero_out (P k) (r.rets k) _
            (subst (λ m. Sound (P m) (choose zero_out out err (view zero_out m r)))
              (ground (arith, e)) c)
            (h k)))
    | inr (e, f) ↦ subst (Sound (P k)) (sym f) (h k)
  ]

  pub Sound-imp :
      (P Q : Out → Option Err → Type 0) (o : Once Out Err)
      → ((out : Out) (err : Option Err) → P out err → Q out err)
      → Sound P o
      → Sound Q o
  Sound-imp P Q unsettled f h = tt
  Sound-imp P Q (assigned out err) f h = f out err h
  Sound-imp P Q (settled out err) f h = f out err h
