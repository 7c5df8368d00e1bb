-- ===== src/Prelude/Lists.antt =====
-- Lists measured and indexed by native numbers, and sums of a weight over a list.
use Prim.Native.Nat.{ℕ, zero, suc, ◌+◌, ◌≤◌}
use mathlib.Core.Path.{◌≡◌, refl, subst}
use mathlib.Core.List.{List, [], ◌∷◌, ◌++◌}
use mathlib.Core.Option.{Option, none, some}
use native.Mathlib.Omega.{arith}
use concx.Prelude.Tests.{◌==◌, if◌then◌else◌}

module _ {ℓ} {A : Type ℓ} where
  abbrev pub length : List A → ℕ
  length [] = 0
  length (x ∷ xs) = suc (length xs)

  abbrev pub get_elem? : List A → ℕ → Option A
  get_elem? [] i = none
  get_elem? (x ∷ xs) zero = some x
  get_elem? (x ∷ xs) (suc i) = get_elem? xs i

  -- A write out of bounds changes nothing.
  abbrev pub set : List A → ℕ → A → List A
  set [] i v = []
  set (x ∷ xs) zero v = v ∷ xs
  set (x ∷ xs) (suc i) v = x ∷ set xs i v

  pub length-set : (xs : List A) (i : ℕ) (v : A) → length (set xs i v) ≡ length xs
  length-set [] i v = refl
  length-set (x ∷ xs) zero v = refl
  length-set (x ∷ xs) (suc i) v = omega (arith, length-set xs i v)

  -- What is there within the bounds.
  pub get_elem?-below :
      (xs : List A) (i : ℕ) → suc i ≤ length xs → (x : A) × (get_elem? xs i ≡ some x)
  get_elem?-below [] i h = absurd (omega (arith, h))
  get_elem?-below (x ∷ xs) zero h = (x, refl)
  get_elem?-below (x ∷ xs) (suc i) h = get_elem?-below xs i (omega (arith, h))

  pub length-append : (xs ys : List A) → length (xs ++ ys) ≡ length xs + length ys
  length-append [] ys = omega arith
  length-append (x ∷ xs) ys = omega (arith, length-append xs ys)

-- The sum of a weight over a list.
module _ {ℓ} {A : Type ℓ} (w : A → ℕ) where
  unfoldable pub total : List A → ℕ
  total [] = 0
  total (x ∷ xs) = w x + total xs

  pub total-append : (xs ys : List A) → total (xs ++ ys) ≡ total xs + total ys
  unfolding total
  total-append [] ys = omega arith
  total-append (x ∷ xs) ys = omega (arith, total-append xs ys)

  -- One entry is replaced: its weight is exchanged.
  pub total-set :
      (xs : List A) (i : ℕ) (p q : A)
      → get_elem? xs i ≡ some p
      → total (set xs i q) + w p ≡ total xs + w q
  unfolding total
  total-set [] i p q h = ground arith
  total-set (x ∷ xs) zero p q h = ground arith
  total-set (x ∷ xs) (suc i) p q h = omega (arith, total-set xs i p q h)

  pub total-get : (xs : List A) (i : ℕ) (p : A) → get_elem? xs i ≡ some p → w p ≤ total xs
  unfolding total
  total-get [] i p h = ground arith
  total-get (x ∷ xs) zero p h = ground arith
  total-get (x ∷ xs) (suc i) p h = omega (arith, total-get xs i p h)

  pub total-one : (x : A) → total (x ∷ []) ≡ w x
  unfolding total
  total-one x = omega arith

  pub total-nil : total [] ≡ 0
  unfolding total
  total-nil = refl

  pub total-cons : (x : A) (xs : List A) → total (x ∷ xs) ≡ w x + total xs
  unfolding total
  total-cons x xs = refl

-- A property of every entry.
module _ {ℓ κ} {A : Type ℓ} (P : A → Type κ) where
  abbrev pub All : List A → Type κ
  All [] = Unit {κ}
  All (x ∷ xs) = P x × All xs

  pub All-append_one : (xs : List A) (x : A) → All xs → P x → All (xs ++ x ∷ [])
  All-append_one [] x h p = (p, tt)
  All-append_one (y ∷ xs) x h p = (h.0, All-append_one xs x h.1 p)

  pub All-get : (xs : List A) (i : ℕ) (x : A) → get_elem? xs i ≡ some x → All xs → P x
  All-get [] i x e h = absurd (cc)
  All-get (y ∷ xs) zero x e h = subst P {x = y} {y = x} (cc) h.0
  All-get (y ∷ xs) (suc i) x e h = All-get xs i x e h.1

  pub All-set : (xs : List A) (i : ℕ) (x : A) → All xs → P x → All (set xs i x)
  All-set [] i x h p = tt
  All-set (y ∷ xs) zero x h p = (p, h.1)
  All-set (y ∷ xs) (suc i) x h p = (h.0, All-set xs i x h.1 p)

-- A property of every entry, from another.
pub All-imp {ℓ κ μ} :
    {A : Type ℓ} (P : A → Type κ) (Q : A → Type μ) (f : (x : A) → P x → Q x) (xs : List A)
    → All P xs
    → All Q xs
All-imp P Q f [] h = tt
All-imp P Q f (x ∷ xs) h = (f x h.0, All-imp P Q f xs h.1)

module _ {ℓ} {A : Type ℓ} where
  pub get_elem?-set_self :
      (xs : List A) (i : ℕ) (u v : A) → get_elem? xs i ≡ some u → get_elem? (set xs i v) i ≡ some v
  get_elem?-set_self [] i u v h = absurd (cc)
  get_elem?-set_self (x ∷ xs) zero u v h = refl
  get_elem?-set_self (x ∷ xs) (suc i) u v h = get_elem?-set_self xs i u v h

  pub get_elem?-set :
      (xs : List A) (o i : ℕ) (v : A)
      → get_elem? (set xs o v) i ≡ (
          if o == i
          then elim (get_elem? xs i) [ none ↦ none | some _ ↦ some v ]
          else get_elem? xs i)
  get_elem?-set [] o i v = ground arith
  get_elem?-set (x ∷ xs) zero zero v = ground arith
  get_elem?-set (x ∷ xs) zero (suc i) v = ground arith
  get_elem?-set (x ∷ xs) (suc o) zero v = ground arith
  get_elem?-set (x ∷ xs) (suc o) (suc i) v = ground (arith, get_elem?-set xs o i v)

  -- What is there stays there when more is appended.
  pub get_elem?-append :
      (xs ys : List A) (i : ℕ) (v : A) → get_elem? xs i ≡ some v → get_elem? (xs ++ ys) i ≡ some v
  get_elem?-append [] ys i v h = absurd (cc)
  get_elem?-append (x ∷ xs) ys zero v h = h
  get_elem?-append (x ∷ xs) ys (suc i) v h = get_elem?-append xs ys i v h

  pub get_elem?-length : (xs : List A) (v : A) → get_elem? (xs ++ v ∷ []) (length xs) ≡ some v
  get_elem?-length [] v = refl
  get_elem?-length (x ∷ xs) v = get_elem?-length xs v

-- A property of every entry and its index.
abbrev pub Indexed {ℓ κ} : {A : Type ℓ} → (ℕ → A → Type κ) → List A → Type κ
Indexed P [] = Unit {κ}
Indexed P (x ∷ xs) = P 0 x × Indexed (λ i. P (suc i)) xs

module _ {ℓ κ} {A : Type ℓ} where
  pub Indexed-append_one :
      (P : ℕ → A → Type κ) (xs : List A) (x : A)
      → Indexed P xs
      → P (length xs) x
      → Indexed P (xs ++ x ∷ [])
  Indexed-append_one P [] x h p = (p, tt)
  Indexed-append_one P (y ∷ xs) x h p = (h.0, Indexed-append_one (λ i. P (suc i)) xs x h.1 p)

  pub Indexed-get :
      (P : ℕ → A → Type κ) (xs : List A) (i : ℕ) (x : A)
      → get_elem? xs i ≡ some x
      → Indexed P xs
      → P i x
  Indexed-get P [] i x e h = absurd (cc)
  Indexed-get P (y ∷ xs) zero x e h = subst (P 0) {x = y} {y = x} (cc) h.0
  Indexed-get P (y ∷ xs) (suc i) x e h = Indexed-get (λ j. P (suc j)) xs i x e h.1

  pub Indexed-imp {μ} :
      (P : ℕ → A → Type κ) (Q : ℕ → A → Type μ) (f : (i : ℕ) (x : A) → P i x → Q i x) (xs : List A)
      → Indexed P xs
      → Indexed Q xs
  Indexed-imp P Q f [] h = tt
  Indexed-imp P Q f (x ∷ xs) h =
      (f 0 x h.0, Indexed-imp (λ j. P (suc j)) (λ j. Q (suc j)) (λ j. f (suc j)) xs h.1)

  -- One entry is replaced, and what the others have changes with it.
  pub Indexed-set {μ} :
      (P : ℕ → A → Type κ) (Q : ℕ → A → Type μ) (f : (i : ℕ) (x : A) → P i x → Q i x) (xs : List A)
      (i : ℕ) (x : A)
      → Indexed P xs
      → Q i x
      → Indexed Q (set xs i x)
  Indexed-set P Q f [] i x h q = tt
  Indexed-set P Q f (y ∷ xs) zero x h q =
      (q, Indexed-imp (λ j. P (suc j)) (λ j. Q (suc j)) (λ j. f (suc j)) xs h.1)
  Indexed-set P Q f (y ∷ xs) (suc i) x h q =
      (f 0 y h.0, Indexed-set (λ j. P (suc j)) (λ j. Q (suc j)) (λ j. f (suc j)) xs i x h.1 q)
