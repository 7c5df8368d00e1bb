-- ===== src/Codex.antt =====
-- The error values: the codes of pkg/nest/error.go, pkg/schedx/error.go and pkg/orch/pipe/error.go,
-- and what the program uses of `github.com/xoctopus/x/codex`, `errors` and `context`.
mod Codes
pub mod Laws
pub mod Sample
unfoldable pub use Codes.*
use concx.Prelude.{◌≡◌, Bool, true, false, ◌||◌, Option, none, some}

-- A value that a job panics with: an `error`, or anything else.
pub data Panic (Err : Type 0) : Type 0 where
  error : Err → Panic Err
  other : Panic Err

-- `Err` stands for the non-nil values of `error`, and `Option Err` for `error` itself. The fields
-- below `join` are what the program relies on.
pub record Codex (Err : Type 0) : Type 0 where
  -- `codex.New`, `codex.Wrap`, and `codex.Errorf(code, "caused by: %v", x)`
  pub new : Code → Err
  pub wrap : Code → Err → Err
  pub errorf : Code → Err
  -- `codex.IsCode`
  pub is_code : Option Err → Code → Bool
  -- `context.Canceled` and `context.DeadlineExceeded`, and `errors.Is` at either of them
  pub context_canceled : Err
  pub deadline_exceeded : Err
  pub is_context : Option Err → Bool
  -- `errors.Join` of two errors that are not nil
  pub join : Err → Err → Err
  pub is_code-none : (c : Code) → is_code none c ≡ false
  pub is_code-new : (c d : Code) → is_code (some (new c)) d ≡ code_eq c d
  pub is_code-errorf : (c d : Code) → is_code (some (errorf c)) d ≡ code_eq c d
  pub is_code-wrap : (c : Code) (e : Err) → is_code (some (wrap c e)) c ≡ true
  pub is_code-join :
      (a b : Err) (c : Code)
      → is_code (some (join a b)) c ≡ is_code (some a) c || is_code (some b) c
  pub is_context-none : is_context none ≡ false
  pub is_context-new : (c : Code) → is_context (some (new c)) ≡ false
  pub is_context-canceled : is_context (some context_canceled) ≡ true

-- `errors.Join` drops nil, and joins nothing to nil.
abbrev pub join_errors : {Err : Type 0} ⦃x : Codex Err⦄ → Option Err → Option Err → Option Err
join_errors none b = b
join_errors (some a) none = some a
join_errors ⦃x⦄ (some a) (some b) = some (x.join a b)
