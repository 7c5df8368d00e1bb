-- ===== src/Schedx/Retrievable/System/Closing.antt =====
-- pkg/schedx/retrievable_scheduler.go: the close goes past its hook after `dismiss` only, and so
-- leaves no call of `Result` waiting.
use concx.Prelude.{
  ℕ, ◌≡◌, refl, Bool, true, false, not, ◌&&◌, Option, none, some, List, [], ◌∷◌, arith, Bool-cases,
  inl, inr, length,
}
use concx.Codex.{Codex}
use concx.Nest
use concx.Schedx.Tasks.{Tasks}
use concx.Schedx.Retrievable.{RetrievableOptions}
use concx.Schedx.Retrievable.Result.{
  Once, unsettled, assigned, settled, Shared, WaitPc, second, got, Choice, by_closed, reason,
  wait_step,
}
use concx.Schedx.Pool.System.{
  Event, push, run, close, push_at, work_at, run_at, close_at, advance, timer, deadline,
  watch_inherited, watch_dispatched, parent_done, wake, is_opening, init,
}
use concx.Schedx.Pool.Past.{close_is_past, at_hook, step-past}
use concx.Schedx.Retrievable.System.{
  Task, Dismissal, before, reading, asking, storing, closing, popping, counting, failing, over,
  Retrievable, Act, dismiss, pool, is_advance, is_over, as_task, begin, store_cause, failed, view,
  retrievable, take, dismiss_step, pool_step, step, history, new_retrievable, Outcome,
}
use concx.Schedx.Retrievable.System.Answers.{has_closed, reached-Fine}

hook_advances :
    {T E Err : Type 0} (r : ℕ) (e : Event T E Err) (b : Bool)
    → at_hook (as_task r e) b ≡ is_advance e && b
hook_advances r (push v) b = refl
hook_advances r run b = refl
hook_advances r close b = refl
hook_advances r (push_at i) b = refl
hook_advances r (work_at i e) b = refl
hook_advances r (run_at i) b = refl
hook_advances r (close_at i) b = refl
hook_advances r advance b = ground arith
hook_advances r timer b = refl
hook_advances r deadline b = refl
hook_advances r watch_inherited b = refl
hook_advances r watch_dispatched b = refl
hook_advances r (parent_done c) b = refl
hook_advances r wake b = refl

over_closed : {In Err : Type 0} (d : Dismissal In Err) → is_over d ≡ true → has_closed d ≡ true
over_closed over h = refl
over_closed d h = absurd (cc)

begin_over : {In Err : Type 0} (d : Dismissal In Err) → is_over d ≡ true → is_over (begin d) ≡ true
begin_over before h = absurd (cc)
begin_over over h = refl
begin_over d h = absurd (cc)

module _ {S In Out Err : Type 0} ⦃x : Codex Err⦄ (t : Tasks S (Task In)) (zero_out : Out)
    (o : RetrievableOptions) where
  abbrev IsOrdered : Retrievable S In Out Err → Type 0
  IsOrdered s = close_is_past s.base.nest ≡ true → is_over s.dismissal ≡ true

  dismiss-IsOrdered :
      (d : Dismissal In Err) (s : Retrievable S In Out Err)
      → (close_is_past s.base.nest ≡ true → is_over d ≡ true)
      → IsOrdered s
      → IsOrdered (dismiss_step t zero_out o d s)
  unfolding dismiss_step store_cause failed
  dismiss-IsOrdered before s h g = g
  dismiss-IsOrdered over s h g = g
  dismiss-IsOrdered (popping e) s h g = taken (t.pop s.base.pool.tasks)
    where
      taken : (r : Option (Task In × S)) → IsOrdered (take t zero_out o e r s)
      taken none p = refl
      taken (some (v, rest)) p = absurd (ground (arith, h p))
  dismiss-IsOrdered reading s h g = λ p. absurd (ground (arith, h p))
  dismiss-IsOrdered asking s h g = λ p. absurd (ground (arith, h p))
  dismiss-IsOrdered (storing e) s h g = λ p. absurd (ground (arith, h p))
  dismiss-IsOrdered (closing e) s h g = λ p. absurd (ground (arith, h p))
  dismiss-IsOrdered (counting e v) s h g = λ p. absurd (ground (arith, h p))
  dismiss-IsOrdered (failing e v) s h g = λ p. absurd (ground (arith, h p))

  -- No event of the pool takes the close past the hook, if `dismiss` has not returned.
  held_back :
      (r : ℕ) (e : Event In (Outcome Out Err) Err) (b v : Bool)
      → is_advance e && b && not v ≡ false
      → v ≡ false
      → at_hook (as_task r e) b ≡ false
  held_back r e b v c f = ground (arith, hook_advances r e b, c, f)

  step-IsOrdered :
      (a : Act In Out Err) (s : Retrievable S In Out Err)
      → IsOrdered s
      → IsOrdered (step t zero_out o a s)
  unfolding step pool_step
  step-IsOrdered dismiss s h = dismiss-IsOrdered s.dismissal s h h
  step-IsOrdered (pool e) s h =
      elim (Bool-cases (is_advance e && is_opening s.base.nest && not (is_over s.dismissal))) [
        | inl c ↦ rw c (λ p. begin_over s.dismissal (h p))
        | inr c ↦ rw c (elim (Bool-cases (is_over s.dismissal)) [
          | inl v ↦ λ p. v
          | inr v ↦ λ p. h (
              step-past t (retrievable t zero_out o) (as_task (length s.base.pushers) e) s.base
                (held_back (length s.base.pushers) e (is_opening s.base.nest) (is_over s.dismissal)
                  c v)
                p)
        ])
      ]

  history-IsOrdered :
      (acts : List (Act In Out Err)) (s : Retrievable S In Out Err)
      → IsOrdered s
      → IsOrdered (history t zero_out o acts s)
  unfolding history
  history-IsOrdered [] s h = h
  history-IsOrdered (a ∷ acts) s h =
      history-IsOrdered acts (step t zero_out o a s) (step-IsOrdered a s h)

  reached-IsOrdered :
      (acts : List (Act In Out Err)) (parent : Option Err)
      → IsOrdered (history t zero_out o acts (new_retrievable t zero_out o parent))
  unfolding new_retrievable init
  reached-IsOrdered acts parent =
      history-IsOrdered acts (new_retrievable t zero_out o parent) (λ p. absurd (cc))

-- What a call of `Result` returns that finds the scheduler closed.
abbrev pub answer_at_close :
    {Out Err : Type 0} ⦃x : Codex Err⦄ → Out → Once Out Err → Option Err → WaitPc Out Err
answer_at_close zero_out (settled out err) cause = got out err
answer_at_close zero_out o cause = got zero_out (some (reason zero_out cause))

module _ {Out Err : Type 0} ⦃x : Codex Err⦄ (zero_out : Out) where
  two_steps :
      (c : Choice Err) (o : Once Out Err) (b : Bool) (cause : Option Err)
      → b ≡ true
      → let r : Shared Out Err = record { once = o; closed = b; cause = cause } in
        wait_step zero_out c (wait_step zero_out by_closed second r) r
        ≡ answer_at_close zero_out o cause
  unfolding wait_step
  two_steps c unsettled b cause h = rw h refl
  two_steps c (assigned out err) b cause h = rw h refl
  two_steps c (settled out err) b cause h = rw h refl

module _ {S In Out Err : Type 0} ⦃x : Codex Err⦄ (t : Tasks S (Task In)) (zero_out : Out)
    (o : RetrievableOptions) where
  -- A close leaves no waiter behind. After every history of a new scheduler whose nest is done, which
  -- is when a call of `Close` that found it returns: `dismiss` has returned, and for every result a
  -- call of `Result` that waits for it returns with the case of `closed` and one step more, with the
  -- value and the error of the result if it is settled, and else with the zero value and the cause
  -- that the scheduler has noted down.
  pub close_frees_waiters :
      (acts : List (Act In Out Err)) (parent : Option Err) (n : Nest.State Err) (k : ℕ)
      (c : Choice Err)
      → (history t zero_out o acts (new_retrievable t zero_out o parent)).base.nest ≡ some n
      → n.done ≡ true
      → let s = history t zero_out o acts (new_retrievable t zero_out o parent) in
        let r = view zero_out k s.base.pool.world in
        (is_over s.dismissal ≡ true)
        × (wait_step zero_out c (wait_step zero_out by_closed second r) r
            ≡ answer_at_close zero_out r.once r.cause)
  close_frees_waiters acts parent n k c f d =
      let s = history t zero_out o acts (new_retrievable t zero_out o parent) in
      let over = reached-IsOrdered t zero_out o acts parent (rw f (rw d refl)) in
      let closed = (reached-Fine t zero_out o acts parent).0 (over_closed s.dismissal over) in
      (
        over,
        two_steps zero_out c (s.base.pool.world.rets k) s.base.pool.world.closed
            s.base.pool.world.cause closed,
      )
