-- ===== src/Codex/Sample.antt =====
-- An error type that does what the program relies on, for tests.
use concx.Prelude.{ℕ, ◌≡◌, refl, Bool, true, false, ◌||◌, Option, none, some, arith}
use concx.Codex.Codes.{Code, code_eq, nest, sched, pipe}
use concx.Codex.{Codex}

pub data SampleErr : Type 0 where
  coded : Code → SampleErr
  wrapped : Code → SampleErr → SampleErr
  joined : SampleErr → SampleErr → SampleErr
  canceled_error : SampleErr
  deadline_error : SampleErr
  plain : ℕ → SampleErr

abbrev pub has_code : SampleErr → Code → Bool
has_code (coded c) d = code_eq c d
has_code (wrapped c e) d = code_eq c d || has_code e d
has_code (joined a b) d = has_code a d || has_code b d
has_code canceled_error d = false
has_code deadline_error d = false
has_code (plain n) d = false

abbrev pub has_code? : Option SampleErr → Code → Bool
has_code? none d = false
has_code? (some e) d = has_code e d

abbrev pub has_context : SampleErr → Bool
has_context (coded c) = false
has_context (wrapped c e) = has_context e
has_context (joined a b) = has_context a || has_context b
has_context canceled_error = true
has_context deadline_error = true
has_context (plain n) = false

abbrev pub has_context? : Option SampleErr → Bool
has_context? none = false
has_context? (some e) = has_context e

pub code_eq_self : (c : Code) → code_eq c c ≡ true
code_eq_self (nest e) = ground arith
code_eq_self (sched e) = ground arith
code_eq_self (pipe e) = ground arith

pub wrapped_has : (c : Code) (e : SampleErr) → has_code? (some (wrapped c e)) c ≡ true
wrapped_has c e = ground (arith, code_eq_self c)

instance abbrev pub sample_codex : Codex SampleErr
sample_codex = record {
  new = coded;
  wrap = wrapped;
  errorf = coded;
  is_code = has_code?;
  context_canceled = canceled_error;
  deadline_exceeded = deadline_error;
  is_context = has_context?;
  join = joined;
  is_code-none = λ c. refl;
  is_code-new = λ c d. refl;
  is_code-errorf = λ c d. refl;
  is_code-wrap = wrapped_has;
  is_code-join = λ a b c. refl;
  is_context-none = refl;
  is_context-new = λ c. refl;
  is_context-canceled = refl;
}
