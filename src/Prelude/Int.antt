-- ===== src/Prelude/Int.antt =====
-- Signed integers: Go's `int`, `int64` and `time.Duration`, without their upper and lower bounds.
use Prim.Native.Nat.{ℕ, zero, suc}
use mathlib.Core.Bool.{Bool, true, false}
use concx.Prelude.Tests.{leb, ◌==◌}

-- `negsuc n` is -(n + 1).
pub data ℤ : Type 0 where
  pos : ℕ → ℤ
  negsuc : ℕ → ℤ

abbrev pub is_neg : ℤ → Bool
is_neg (pos _) = false
is_neg (negsuc _) = true

abbrev pub is_zero : ℤ → Bool
is_zero (pos zero) = true
is_zero _ = false

-- `0 < a`
abbrev pub is_positive : ℤ → Bool
is_positive (pos (suc _)) = true
is_positive _ = false

-- `a ≤ b`
abbrev pub leb_ℤ : ℤ → ℤ → Bool
leb_ℤ (pos a) (pos b) = leb a b
leb_ℤ (pos a) (negsuc b) = false
leb_ℤ (negsuc a) (pos b) = true
leb_ℤ (negsuc a) (negsuc b) = leb b a

abbrev pub eq_ℤ : ℤ → ℤ → Bool
eq_ℤ (pos a) (pos b) = a == b
eq_ℤ (negsuc a) (negsuc b) = a == b
eq_ℤ _ _ = false

-- Atomic `Add(1)` and `Add(-1)`.
abbrev pub add_one : ℤ → ℤ
add_one (pos n) = pos (suc n)
add_one (negsuc zero) = pos 0
add_one (negsuc (suc n)) = negsuc n

abbrev pub sub_one : ℤ → ℤ
sub_one (pos zero) = negsuc 0
sub_one (pos (suc n)) = pos n
sub_one (negsuc n) = negsuc (suc n)

-- How many rounds `for range n` makes: none for a number below zero.
abbrev pub rounds : ℤ → ℕ
rounds (pos n) = n
rounds (negsuc _) = 0

abbrev pub min_ℤ : ℤ → ℤ → ℤ
min_ℤ a b = elim (leb_ℤ a b) [ true ↦ a | false ↦ b ]

-- Negative numbers count as zero.
abbrev pub pos_part : ℤ → ℕ
pos_part (pos n) = n
pos_part (negsuc _) = 0
