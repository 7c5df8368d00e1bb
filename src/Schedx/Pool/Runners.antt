-- ===== src/Schedx/Pool/Runners.antt =====
-- pkg/schedx: how a call of `Run` starts the workers.
use concx.Prelude.{
  ℕ, zero, suc, ◌+◌, ◌≡◌, refl, sym, inl, inr, Bool, true, false, Option, none, some, List, [], ◌∷◌,
  arith, get_elem?, set, total, total-append, total-set, total-get, total-one, Bool-cases, subst,
  if_elim, if_split,
}
use concx.Codex.{Codex, nest, nest_closed}
use concx.Nest
use concx.Nest.Invariant
use concx.Schedx.Tasks.{Tasks}
use concx.Schedx.Pool.{WorkPc, idle}
use concx.Schedx.Pool.System.{
  System, RunPc, starting, making_nest, spawning, failing, refusing, awaiting, ran, Scheme,
  run_step, spawned,
}
use concx.Schedx.Pool.Counts.{one}
use concx.Schedx.Pool.Staffing.{
  alive, left, making, alive-le, parallel, NestCounts, Staffed, settle, some_kept, counts_at,
}

module _ {S T E W Err : Type 0} ⦃x : Codex Err⦄ (t : Tasks S T) (k : Scheme S T E W Err) where
  pub start-Staffed :
      (i : ℕ) (s : System S T E W Err)
      → get_elem? s.runners i ≡ some starting
      → s.pool.running ≡ false
      → Staffed t k s
      → Staffed t k (record s {
        pool = record (s.pool) { running = true };
        runners = set s.runners i making_nest;
      })
  start-Staffed i s e f v =
      let lefts = total-set (left (parallel t k)) s.runners i starting making_nest e in
      let makes = total-set making s.runners i starting making_nest e in
      elim v.fresh [
        | inl h ↦ absurd (cc)
        | inr h ↦ record {
          counted = v.counted;
          few = omega (arith, lefts, h.1, h.2);
          maker = omega (arith, makes, h.3);
          unmade = inr (h.0);
          fresh = inl refl;
        }
      ]

  pub make_nest-Staffed :
      (i : ℕ) (s : System S T E W Err)
      → get_elem? s.runners i ≡ some making_nest
      → Staffed t k s
      → Staffed t k (record s {
        nest = some (Nest.new s.parent);
        runners = set s.runners i (spawning (parallel t k));
      })
  unfolding Nest.new
  make_nest-Staffed i s e v =
      let lefts =
        total-set (left (parallel t k)) s.runners i making_nest (spawning (parallel t k)) e in
      let makes = total-set making s.runners i making_nest (spawning (parallel t k)) e in
      let here = total-get making s.runners i making_nest e in
      let none_there : s.nest ≡ none = elim v.unmade [
        | inl h ↦ absurd (omega (arith, here, h))
        | inr h ↦ h
      ] in
      let no_worker : total one s.workers ≡ 0 = counts_at t k s none none_there v in
      record {
        counted = (
          omega (arith, alive-le s.workers, no_worker),
          Invariant.new-Inv k.nest_options s.parent,
        );
        few = omega (arith, v.few, lefts);
        maker = omega (arith, v.maker, makes);
        unmade = inl (omega (arith, v.maker, makes));
        fresh = elim v.fresh [ inl h ↦ inl h | inr h ↦ absurd (omega (arith, here, h.3)) ];
      }

  -- What `Spawn` returns, by whether the nest is canceled.
  abbrev pub spawn_result : Bool → Nest.State Err → Nest.State Err × Option Err
  spawn_result true n = (n, some (x.new (nest nest_closed)))
  spawn_result false n = (record n { live = n.live + 1 }, none)

  pub spawn_result-lem : (n : Nest.State Err) → Nest.spawn_locked n ≡ spawn_result n.canceled n
  unfolding Nest.spawn_locked
  spawn_result-lem n = elim (Bool-cases n.canceled) [ inl h ↦ rw h refl | inr h ↦ rw h refl ]

  pub spawn_by-Staffed :
      (b : Bool) (i m : ℕ) (n : Nest.State Err) (s : System S T E W Err)
      → get_elem? s.runners i ≡ some (spawning (suc m))
      → s.nest ≡ some n
      → Invariant.Inv k.nest_options (spawn_result b n).0
      → Staffed t k s
      → Staffed t k (spawned t k s i m (spawn_result b n))
  spawn_by-Staffed true i m n s e f g v =
      settle t k i (spawning (suc m)) (failing _) s (some n) s.pool e (counts_at t k s (some n) f v)
        (some_kept t k s n n f) refl (omega arith) refl refl v
  spawn_by-Staffed false i m n s e f g v =
      let lefts = total-set (left (parallel t k)) s.runners i (spawning (suc m)) (spawning m) e in
      let makes = total-set making s.runners i (spawning (suc m)) (spawning m) e in
      let here = total-get (left (parallel t k)) s.runners i (spawning (suc m)) e in
      let counts = counts_at t k s (some n) f v in
      let new_one : WorkPc T = idle in
      let many = total-append alive s.workers (idle ∷ []) in
      let ones = total-append one s.workers (idle ∷ []) in
      record {
        counted = (omega (arith, many, total-one alive new_one, counts.0), g);
        few = omega (arith, v.few, lefts, ones, total-one one new_one);
        maker = omega (arith, makes, v.maker);
        unmade = elim v.unmade [ inl h ↦ inl (omega (arith, makes, h)) | inr h ↦ absurd (cc) ];
        fresh = elim v.fresh [ inl h ↦ inl h | inr h ↦ absurd (omega (arith, here, h.2)) ];
      }

  pub spawn-Staffed :
      (i m : ℕ) (n : Nest.State Err) (s : System S T E W Err)
      → get_elem? s.runners i ≡ some (spawning (suc m))
      → s.nest ≡ some n
      → Nest.is_free n.phase ≡ true
      → Staffed t k s
      → Staffed t k (spawned t k s i m (Nest.spawn_locked n))
  spawn-Staffed i m n s e f g v =
      let same = spawn_result-lem n in
      let inv =
        subst (λ (r : Nest.State Err × Option Err). Invariant.Inv k.nest_options r.0) same
          (Invariant.spawn_locked-Inv k.nest_options n g (counts_at t k s (some n) f v).1) in
      subst (λ r. Staffed t k (spawned t k s i m r)) (sym same)
        (spawn_by-Staffed n.canceled i m n s e f inv v)

  -- `Cancel` changes no count.
  pub cancel-counts :
      (c : Option Err) (n : Nest.State Err) (ws : List (WorkPc T))
      → Nest.is_free n.phase ≡ true
      → NestCounts t k (some n) ws
      → NestCounts t k (some (Nest.cancel_locked c n)) ws
  unfolding Nest.cancel_locked
  cancel-counts c n ws f h = (
    if_elim (λ (m : Nest.State Err). m.live ≡ total alive ws) n.canceled n _ h.0 h.0,
    Invariant.cancel_locked-Inv k.nest_options c n f h.1,
  )

  pub refuse-Staffed :
      (i : ℕ) (c : Err) (n : Nest.State Err) (s : System S T E W Err)
      → get_elem? s.runners i ≡ some (refusing c)
      → s.nest ≡ some n
      → Nest.is_free n.phase ≡ true
      → Staffed t k s
      → Staffed t k (record s {
        nest = some (Nest.cancel_locked (some (k.run_cause c)) n);
        runners = set s.runners i (awaiting c);
      })
  refuse-Staffed i c n s e f g v =
      settle t k i (refusing c) (awaiting c) s _ s.pool e
        (cancel-counts (some (k.run_cause c)) n s.workers g (counts_at t k s (some n) f v))
        (some_kept t k s n _ f) refl (omega arith) refl refl v

  pub run_step-Staffed :
      (i : ℕ) (r : RunPc Err) (n : Option (Nest.State Err)) (s : System S T E W Err)
      → get_elem? s.runners i ≡ some r
      → s.nest ≡ n
      → Staffed t k s
      → Staffed t k (run_step t k i r n s)
  unfolding run_step
  run_step-Staffed i starting n s e f v =
      if_split (Staffed t k) s.pool.running _ _
        (λ h.
          settle t k i starting (ran _) s s.nest s.pool e v.counted (λ x. x) refl (omega arith) refl
            refl v)
        (λ h. start-Staffed i s e h v)
  run_step-Staffed i making_nest n s e f v = make_nest-Staffed i s e v
  run_step-Staffed i (spawning zero) n s e f v =
      settle t k i (spawning zero) (ran none) s s.nest s.pool e v.counted (λ x. x) refl
        (omega arith) refl refl v
  run_step-Staffed i (spawning (suc m)) none s e f v = v
  run_step-Staffed i (spawning (suc m)) (some n) s e f v =
      if_split (Staffed t k) (Nest.is_free n.phase) _ s (λ h. spawn-Staffed i m n s e f h v)
        (λ h. v)
  run_step-Staffed i (failing c) n s e f v =
      settle t k i (failing c) (refusing c) s s.nest _ e v.counted (λ x. x) refl (omega arith) refl
        refl v
  run_step-Staffed i (refusing c) none s e f v = v
  run_step-Staffed i (refusing c) (some n) s e f v =
      if_split (Staffed t k) (Nest.is_free n.phase) _ s (λ h. refuse-Staffed i c n s e f h v)
        (λ h. v)
  run_step-Staffed i (awaiting c) none s e f v = v
  run_step-Staffed i (awaiting c) (some n) s e f v =
      if_elim (Staffed t k) n.done _ s
        (settle t k i (awaiting c) (ran (some c)) s s.nest s.pool e v.counted (λ x. x) refl
          (omega arith) refl refl v)
        v
  run_step-Staffed i (ran c) n s e f v = v
