-- ===== src/Chanx/Subject/Members.antt =====
-- pkg/chanx/subject.go: who is among the subscribers, and who is canceled.
use concx.Prelude.{
  ℕ, ◌==◌, ◌≡◌, refl, Bool, true, false, ◌||◌, Option, none, some, List, [], ◌∷◌, is_some,
  get_elem?, set, get_elem?-set, Option-cases, Bool-cases, inl, inr, arith, if◌then◌else◌,
}
use concx.Chanx.Lifetime.{Lifetime, cancel_cause}
use concx.Chanx.Subject.{has, add, remove, cancel_at}

module _ {Err : Type 0} where
  abbrev pub is_canceled : Option (Lifetime Err) → Bool
  is_canceled none = false
  is_canceled (some l) = is_some l.err

  pub canceled_now :
      (completed : Err) (cause : Option Err) (l : Lifetime Err)
      → is_some (cancel_cause completed cause l).err ≡ true
  unfolding cancel_cause
  canceled_now completed cause l = ground arith

  -- An observer that is canceled, for the one at `i`.
  pub set-known :
      (o i : ℕ) (l m : Lifetime Err) (ls : List (Lifetime Err))
      → get_elem? ls o ≡ some l
      → is_some m.err ≡ true
      → (is_some (get_elem? (set ls o m) i) ≡ is_some (get_elem? ls i))
        × (is_canceled (get_elem? ls i) ≡ true → is_canceled (get_elem? (set ls o m) i) ≡ true)
        × (o ≡ i → is_canceled (get_elem? (set ls o m) i) ≡ true)
  set-known o i l m ls e c = rw (get_elem?-set ls o i m) (ground (arith, e, c))

  pub cancel_at-known :
      (completed : Err) (o i : ℕ) (cause : Option Err) (ls : List (Lifetime Err))
      → let ls' = cancel_at completed o cause ls (get_elem? ls o) in
        (is_some (get_elem? ls' i) ≡ is_some (get_elem? ls i))
        × (is_canceled (get_elem? ls i) ≡ true → is_canceled (get_elem? ls' i) ≡ true)
        × (o ≡ i → is_some (get_elem? ls i) ≡ true → is_canceled (get_elem? ls' i) ≡ true)
  cancel_at-known completed o i cause ls = elim (Option-cases (get_elem? ls o)) [
    | inl e ↦ rw e (refl, (λ h. h), λ q h. absurd (ground (arith, e, q, h)))
    | inr (l, e) ↦
        let (known, stays, now) =
          set-known o i l (cancel_cause completed cause l) ls e (canceled_now completed cause l) in
        rw e (known, stays, λ q h. now q)
  ]

pub has-add : (o i : ℕ) (ps : List ℕ) → has i (add o ps) ≡ (o == i || has i ps)
has-add o i ps = ground arith

pub has-remove :
    (o i : ℕ) (ps : List ℕ) → has i (remove o ps) ≡ (if o == i then false else has i ps)
has-remove o i [] = ground arith
has-remove o i (p ∷ ps) = ground (arith, has-remove o i ps)

pub not_there : (a b : Bool) → (a ≡ true → b ≡ true) → b ≡ false → a ≡ false
not_there true b f h = absurd (ground (arith, f refl, h))
not_there false b f h = refl

pub left_out : (a b : Bool) → a ≡ false → a || b ≡ true → b ≡ true
left_out true b f h = absurd (cc)
left_out false b f h = h

pub or_right : (a b : Bool) → b ≡ true → a || b ≡ true
or_right true b h = refl
or_right false b h = h

pub or_mono : (a b c : Bool) → (b ≡ true → c ≡ true) → a || b ≡ true → a || c ≡ true
or_mono true b c f h = refl
or_mono false b c f h = f h

pub removed_before : (o i : ℕ) (ps : List ℕ) → has i (remove o ps) ≡ true → has i ps ≡ true
removed_before o i ps h = ground (arith, has-remove o i ps)

pub added_known :
    (o i : ℕ) (ps : List ℕ) (e : Bool)
    → (o ≡ i → e ≡ true)
    → (has i ps ≡ true → e ≡ true)
    → has i (add o ps) ≡ true
    → e ≡ true
added_known o i ps e h k q = elim (Bool-cases (o == i)) [
  | inl t ↦ h (ground (arith, t))
  | inr t ↦ k (ground (arith, has-add o i ps, q, t))
]
