-- ===== src/Schedx/Retrievable/System/Answers.antt =====
-- pkg/schedx/retrievable_scheduler.go: where the answer of a result comes from, and who has one.
use concx.Prelude.{
  ℕ, ◌≡◌, refl, ◌⊎◌, inl, inr, Bool, true, false, Option, none, some, List, [], ◌∷◌, ◌++◌, All,
  All-append_one, All-imp, Bool-cases, subst, arith, get_elem?, get_elem?-append, get_elem?-length,
  length,
}
use concx.Codex.{Codex}
use concx.Schedx.Tasks.{Tasks}
use concx.Schedx.Retrievable.{RetrievableOptions}
use concx.Schedx.Retrievable.Result.{settled, choose}
use concx.Schedx.Retrievable.Result.Laws.{Sound}
use concx.Schedx.Pool.System.{init}
use concx.Schedx.Retrievable.System.{
  Task, Results, Outcome, Dismissal, before, reading, asking, storing, closing, popping, counting,
  failing, over, Retrievable, Act, begin, view, finish, failed, outcome, do_end, store_cause, take,
  dismiss_step, history, new_retrievable,
}
use concx.Schedx.Retrievable.System.Finish.{
  Failed, is_settled, finish-settled, finish-Sound, Sound-imp,
}
use concx.Schedx.Retrievable.System.Invariant.{AllKeep, history-keeps, results-Keeps}

-- `dismiss` has closed `r.closed`.
abbrev pub has_closed : {In Err : Type 0} → Dismissal In Err → Bool
has_closed (popping e) = true
has_closed (counting e v) = true
has_closed (failing e v) = true
has_closed over = true
has_closed _ = false

module _ {In Out Err : Type 0} ⦃x : Codex Err⦄ (zero_out : Out) where
  -- The job of a task whose result is `k` has ended with this value and error.
  abbrev pub FromJob : ℕ → List (Task In × Outcome Out Err) → Out → Option Err → Type 0
  FromJob k js out err =
      (i : ℕ) × (v : Task In) × (e : Outcome Out Err) × (get_elem? js i ≡ some (v, e))
      × (v.ret ≡ k)
      × (outcome zero_out e ≡ (out, err))

  abbrev pub Due : ℕ → Bool → List (Task In × Outcome Out Err) → Out → Option Err → Type 0
  Due k closed js out err = FromJob k js out err ⊎ Failed zero_out closed out err

  abbrev Answers : Results Out Err → List (Task In × Outcome Out Err) → Type 0
  Answers r js =
      ((k : ℕ) → Sound (Due k r.closed js) (r.rets k))
      × All (λ (j : Task In × Outcome Out Err). is_settled (r.rets (j.0).ret) ≡ true) js

  Due-later :
      (k : ℕ) (c : Bool) (js : List (Task In × Outcome Out Err)) (j : Task In × Outcome Out Err)
      (out : Out) (err : Option Err)
      → Due k c js out err
      → Due k c (js ++ j ∷ []) out err
  Due-later k c js j out err (inl (i, v, e, at, n, g)) =
      inl (i, v, e, get_elem?-append js (j ∷ []) i (v, e) at, n, g)
  Due-later k c js j out err (inr f) = inr f

  choose-Due :
      (v : Task In) (e : Outcome Out Err) (r : Results Out Err)
      (js : List (Task In × Outcome Out Err))
      → let (out, err) = outcome zero_out e in
        Sound
          (Due v.ret r.closed (js ++ (v, e) ∷ []))
          (choose zero_out out err (view zero_out v.ret r))
  choose-Due v e r js =
      let (out, err) = outcome zero_out e in
      elim (Bool-cases r.closed) [
        | inl h ↦ rw h (inr (refl, refl, refl))
        | inr h ↦ rw h (inl (length js, v, e, get_elem?-length js (v, e), refl, refl))
      ]

  end-Answers :
      (v : Task In) (e : Outcome Out Err) (r : Results Out Err)
      (js : List (Task In × Outcome Out Err))
      → Answers r js
      → Answers (do_end zero_out v e r) (js ++ (v, e) ∷ [])
  unfolding do_end
  end-Answers v e r js h =
      let (out, err) = outcome zero_out e in
      let js' = js ++ (v, e) ∷ [] in
      (
        finish-Sound zero_out (λ k. Due k r.closed js') v.ret out err r (choose-Due v e r js)
            (λ k.
              Sound-imp zero_out (Due k r.closed js) (Due k r.closed js') (r.rets k)
                (Due-later k r.closed js (v, e)) (h.0 k)),
        All-append_one
            (λ (j : Task In × Outcome Out Err).
              is_settled ((finish zero_out v.ret out err r).rets (j.0).ret) ≡ true)
            js (v, e)
            (All-imp (λ (j : Task In × Outcome Out Err). is_settled (r.rets (j.0).ret) ≡ true)
              (λ (j : Task In × Outcome Out Err).
                is_settled ((finish zero_out v.ret out err r).rets (j.0).ret) ≡ true)
              (λ j g. finish-settled zero_out v.ret (j.0).ret out err r (inr g)) js h.1)
            (finish-settled zero_out v.ret v.ret out err r (inl (ground arith))),
      )

  close-Due :
      (k : ℕ) (c : Bool) (js : List (Task In × Outcome Out Err)) (out : Out) (err : Option Err)
      → Due k c js out err
      → Due k true js out err
  close-Due k c js out err (inl j) = inl j
  close-Due k c js out err (inr f) = inr (refl, f.1, f.2)

  fail-Due :
      (k : ℕ) (e : Err) (r : Results Out Err) (js : List (Task In × Outcome Out Err))
      → r.closed ≡ true
      → Sound (Due k r.closed js) (choose zero_out zero_out (some e) (view zero_out k r))
  fail-Due k e r js c = rw c (inr (refl, refl, refl))

  -- The results, while `dismiss` stands somewhere and has failed some tasks.
  abbrev Fine :
      Dismissal In Err
      → List (Task In)
      → Results Out Err
      → List (Task In × Outcome Out Err)
      → Type 0
  Fine d ts r js =
      (has_closed d ≡ true → r.closed ≡ true)
      × All (λ (v : Task In). is_settled (r.rets v.ret) ≡ true) ts
      × Answers r js

  still_settled :
      (n : ℕ) (out : Out) (err : Option Err) (r : Results Out Err) (ts : List (Task In))
      → All (λ (v : Task In). is_settled (r.rets v.ret) ≡ true) ts
      → All (λ (v : Task In). is_settled ((finish zero_out n out err r).rets v.ret) ≡ true) ts
  still_settled n out err r ts h =
      All-imp (λ (v : Task In). is_settled (r.rets v.ret) ≡ true)
        (λ (v : Task In). is_settled ((finish zero_out n out err r).rets v.ret) ≡ true)
        (λ v g. finish-settled zero_out n v.ret out err r (inr g)) ts h

  end-Fine :
      (d : Dismissal In Err) (ts : List (Task In)) (v : Task In) (e : Outcome Out Err)
      (r : Results Out Err) (js : List (Task In × Outcome Out Err))
      → Fine d ts r js
      → Fine d ts (do_end zero_out v e r) (js ++ (v, e) ∷ [])
  unfolding do_end finish
  end-Fine d ts v e r js (c, h, a) =
      let (out, err) = outcome zero_out e in
      (c, still_settled v.ret out err r ts h, end-Answers v e r js a)

  begin-Fine :
      (d : Dismissal In Err) (ts : List (Task In)) (r : Results Out Err)
      (js : List (Task In × Outcome Out Err))
      → Fine d ts r js
      → Fine (begin d) ts r js
  begin-Fine before ts r js h = h
  begin-Fine reading ts r js h = h
  begin-Fine asking ts r js h = h
  begin-Fine (storing e) ts r js h = h
  begin-Fine (closing e) ts r js h = h
  begin-Fine (popping e) ts r js h = h
  begin-Fine (counting e v) ts r js h = h
  begin-Fine (failing e v) ts r js h = h
  begin-Fine over ts r js h = h

  close-Fine :
      (e : Err) (ts : List (Task In)) (r : Results Out Err) (js : List (Task In × Outcome Out Err))
      → Fine (closing e) ts r js
      → Fine (popping e) ts (record r { closed = true }) js
  close-Fine e ts r js (c, h, a) = (
    λ _. refl,
    h,
    (
      λ k.
          Sound-imp zero_out (Due k r.closed js) (Due k true js) (r.rets k)
            (close-Due k r.closed js) (a.0 k),
      a.1,
    ),
  )

  fail-Fine :
      (e : Err) (v : Task In) (ts : List (Task In)) (r : Results Out Err)
      (js : List (Task In × Outcome Out Err))
      → Fine (failing e v) ts r js
      → Fine (popping e) (ts ++ v ∷ []) (failed zero_out v.ret e r) js
  unfolding failed finish
  fail-Fine e v ts r js (c, h, a) = (
    c,
    All-append_one
        (λ (u : Task In).
          is_settled ((finish zero_out v.ret zero_out (some e) r).rets u.ret) ≡ true)
        ts v (still_settled v.ret zero_out (some e) r ts h)
        (finish-settled zero_out v.ret v.ret zero_out (some e) r (inl (ground arith))),
    (
      finish-Sound zero_out (λ k. Due k r.closed js) v.ret zero_out (some e) r
          (fail-Due v.ret e r js (c refl)) a.0,
      All-imp (λ (j : Task In × Outcome Out Err). is_settled (r.rets (j.0).ret) ≡ true)
          (λ (j : Task In × Outcome Out Err).
            is_settled ((finish zero_out v.ret zero_out (some e) r).rets (j.0).ret) ≡ true)
          (λ j g. finish-settled zero_out v.ret (j.0).ret zero_out (some e) r (inr g)) js a.1,
    ),
  )

module _ {S In Out Err : Type 0} ⦃x : Codex Err⦄ (t : Tasks S (Task In)) (zero_out : Out)
    (o : RetrievableOptions) where
  abbrev pub AreFine : Retrievable S In Out Err → Type 0
  AreFine s = Fine zero_out s.dismissal s.dismissed s.base.pool.world s.base.pool.finished

  take-Fine :
      (e : Err) (r : Option (Task In × S)) (s : Retrievable S In Out Err)
      → Fine zero_out (popping e) s.dismissed s.base.pool.world s.base.pool.finished
      → AreFine (take t zero_out o e r s)
  take-Fine e none s h = h
  take-Fine e (some (v, rest)) s h = h

  dismiss-Fine :
      (d : Dismissal In Err) (s : Retrievable S In Out Err)
      → Fine zero_out d s.dismissed s.base.pool.world s.base.pool.finished
      → AreFine s
      → AreFine (dismiss_step t zero_out o d s)
  unfolding dismiss_step store_cause
  dismiss-Fine before s h g = g
  dismiss-Fine reading s (c, h, a) g =
      elim (s.base.pool.world.cause)
        as (λ r. AreFine (record s { dismissal = elim r [ none ↦ asking | some e ↦ storing e ] })) [
          | none ↦ (c, h, a)
          | some e ↦ (λ f. absurd (cc), h, a)
        ]
  dismiss-Fine asking s (c, h, a) g = (λ e. absurd (cc), h, a)
  dismiss-Fine (storing e) s (c, h, a) g = (λ e. absurd (cc), h, a)
  dismiss-Fine (closing e) s h g =
      close-Fine zero_out e s.dismissed s.base.pool.world s.base.pool.finished h
  dismiss-Fine (popping e) s h g = take-Fine e (t.pop s.base.pool.tasks) s h
  dismiss-Fine (counting e v) s h g = h
  dismiss-Fine (failing e v) s h g =
      fail-Fine zero_out e v s.dismissed s.base.pool.world s.base.pool.finished h
  dismiss-Fine over s h g = g

  all-Fine :
      AllKeep {S = S} {In = In} {Err = Err} t zero_out o
        λ d ts p. Fine zero_out d ts p.world p.finished
  all-Fine = record {
    by_pool = λ d ts.
        results-Keeps t zero_out o (Fine zero_out d ts)
          (record { by_end = end-Fine zero_out d ts; by_store = λ e r js h. h });
    by_begin = λ d ts p h. begin-Fine zero_out d ts p.world p.finished h;
    by_dismiss = dismiss-Fine;
  }

  pub reached-Fine :
      (acts : List (Act In Out Err)) (parent : Option Err)
      → AreFine (history t zero_out o acts (new_retrievable t zero_out o parent))
  unfolding new_retrievable init
  reached-Fine acts parent =
      history-keeps t zero_out o (λ d ts p. Fine zero_out d ts p.world p.finished) all-Fine acts
        (new_retrievable t zero_out o parent) (λ e. absurd (cc), tt, (λ k. tt, tt))

  -- A result gets its answer from its own job or from the close. After every history of a new
  -- scheduler, the value and the error of a settled result are those with which the job of a task with
  -- this result has ended, after the recovery from a panic; or the scheduler has closed, the value is
  -- the zero value and there is an error.
  pub answer_of_job :
      (acts : List (Act In Out Err)) (parent : Option Err) (k : ℕ) (out : Out) (err : Option Err)
      → (history t zero_out o acts (new_retrievable t zero_out o parent)).base.pool.world.rets k
        ≡ settled out err
      → let p = (history t zero_out o acts (new_retrievable t zero_out o parent)).base.pool in
        FromJob zero_out k p.finished out err ⊎ Failed zero_out p.world.closed out err
  answer_of_job acts parent k out err h =
      let s = history t zero_out o acts (new_retrievable t zero_out o parent) in
      subst (Sound (Due zero_out k s.base.pool.world.closed s.base.pool.finished)) h
        ((reached-Fine acts parent).2.0 k)
