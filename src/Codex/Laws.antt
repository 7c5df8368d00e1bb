-- ===== src/Codex/Laws.antt =====
-- Laws of joined errors.
use concx.Prelude.{◌≡◌, ◌||◌, Option, none, some, arith}
use concx.Codex.Codes.{Code}
use concx.Codex.{Codex, join_errors}

-- A joined error has the codes of both.
pub is_code-join_errors :
    {Err : Type 0} ⦃x : Codex Err⦄ (a b : Option Err) (c : Code)
    → x.is_code (join_errors a b) c ≡ x.is_code a c || x.is_code b c
is_code-join_errors ⦃x⦄ none b c = rw x.is_code-none
is_code-join_errors ⦃x⦄ (some a) none c = ground (arith, x.is_code-none c)
is_code-join_errors ⦃x⦄ (some a) (some b) c = x.is_code-join a b c
