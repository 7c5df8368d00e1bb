-- ===== src/Orch/Pipe/Stages.antt =====
-- pkg/orch/pipe/node.go: what a stage makes of the end of a job (`execute`, `summary`), and one round
-- of a `SimpleNode`.
use concx.Prelude.{
  ◌≡◌, refl, ◌⊎◌, inl, inr, Bool, true, ◌||◌, Option, none, some, List, [], ◌∷◌, arith,
}
use concx.Codex.{
  Codex, Panic, error, other, pipe, pipeline_canceled, job_failed, pipeline_job_panicked,
  pipeline_summary_panicked,
}

-- How `j.Do` ends, and how the function of a summary does.
pub data JobEnd (Out Err : Type 0) : Type 0 where
  returns : Out → Option Err → JobEnd Out Err
  panics : Panic Err → JobEnd Out Err

pub data SummaryEnd (Out Err : Type 0) : Type 0 where
  sums : Out → SummaryEnd Out Err
  panics : Panic Err → SummaryEnd Out Err

-- What the `select` at the head of a round finds: the context has ended with `ctx.Err()`, the channel
-- is closed, or there is a flight with a value and its ticket.
pub data Found (Key In Err : Type 0) : Type 0 where
  ended : Err → Found Key In Err
  shut : Found Key In Err
  flight : Key → In → Found Key In Err

-- What a round does: it fails the ticket of the flight, or sends the next flight with the ticket.
pub data Effect (Key Out Err : Type 0) : Type 0 where
  fails : Key → Err → Effect Key Out Err
  sends : Key → Out → Effect Key Out Err

module _ {Err : Type 0} ⦃x : Codex Err⦄ where
  abbrev recovered : Panic Err → Err
  recovered (error e) = x.wrap (pipe pipeline_job_panicked) e
  recovered other = x.errorf (pipe pipeline_job_panicked)

  abbrev summary_recovered : Panic Err → Err
  summary_recovered (error e) = x.wrap (pipe pipeline_summary_panicked) e
  summary_recovered other = x.errorf (pipe pipeline_summary_panicked)

  -- The codes with which a job fails.
  abbrev pub is_job_error : Err → Bool
  is_job_error e =
      x.is_code (some e) (pipe job_failed) || x.is_code (some e) (pipe pipeline_job_panicked)

module _ {Out Err : Type 0} ⦃x : Codex Err⦄ (zero_out : Out) where
  unfoldable pub execute : JobEnd Out Err → Out × Option Err
  execute (returns out none) = (out, none)
  execute (returns out (some e)) = (out, some (x.wrap (pipe job_failed) e))
  execute (JobEnd.panics p) = (zero_out, some (recovered p))

  unfoldable pub summary : SummaryEnd Out Err → Out × Option Err
  summary (sums out) = (out, none)
  summary (SummaryEnd.panics p) = (zero_out, some (summary_recovered p))

  module _ {Key : Type 0} where
    abbrev pub pass_on : Key → Out × Option Err → List (Effect Key Out Err) × Option Err
    pass_on t (out, none) = (sends t out ∷ [], none)
    pass_on t (out, some e) = (fails t e ∷ [], some e)

    pass_ends :
        (t : Key) (j : JobEnd Out Err)
        → ((e : Err) × (pass_on t (execute j) ≡ (fails t e ∷ [], some e)) × (is_job_error e ≡ true))
          ⊎ ((out : Out) × (pass_on t (execute j) ≡ (sends t out ∷ [], none))
              × (j ≡ returns out none))
    unfolding execute
    pass_ends t (returns out none) = inr (out, refl, refl)
    pass_ends t (returns out (some e)) =
        inl (_, refl, ground (arith, x.is_code-wrap (pipe job_failed) e))
    pass_ends t (JobEnd.panics (error e)) =
        inl (_, refl, ground (arith, x.is_code-wrap (pipe pipeline_job_panicked) e))
    pass_ends t (JobEnd.panics other) = inl (_, refl, simp (x.is_code-errorf))

  module _ {Key In : Type 0} where
    -- `SimpleNode.execute`, with a job that ends as `job` says and with a next stage: what it does,
    -- and what it returns.
    unfoldable pub round :
        (In → JobEnd Out Err) → Found Key In Err → List (Effect Key Out Err) × Option Err
    unfolding execute
    round job (ended e) = ([], some (x.wrap (pipe pipeline_canceled) e))
    round job shut = ([], some (x.new (pipe pipeline_canceled)))
    round job (flight t v) = pass_on t (execute (job v))

    -- No flight is lost and none is answered twice: a round that gets one either fails its ticket, with
    -- the error that it returns, which has the code of a failed or of a panicked job, or returns no error
    -- and sends exactly one flight on, with the same ticket and what the job returned without an error.
    pub round_answers_once :
        (job : In → JobEnd Out Err) (t : Key) (v : In)
        → ((e : Err) × (round job (flight t v) ≡ (fails t e ∷ [], some e))
            × (is_job_error e ≡ true))
          ⊎ ((out : Out) × (round job (flight t v) ≡ (sends t out ∷ [], none))
              × (job v ≡ returns out none))
    unfolding round execute
    round_answers_once job t v = pass_ends t (job v)
