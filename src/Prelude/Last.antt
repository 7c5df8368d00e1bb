-- ===== src/Prelude/Last.antt =====
-- The last entry of a list that sets something.
use concx.Prelude.Tests.{or_else}
use mathlib.Core.List.{List, [], ◌∷◌}
use mathlib.Core.Option.{Option}

-- What the last entry says that says anything, and `d` if none does.
abbrev pub last_or {ℓ κ} : {A : Type ℓ} {V : Type κ} → (A → Option V) → List A → V → V
last_or f [] d = d
last_or f (a ∷ xs) d = last_or f xs (or_else (f a) d)
