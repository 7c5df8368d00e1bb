-- ===== src/Schedx/Pool/Staffing.antt =====
-- pkg/schedx: how many workers there are, and that the nest counts them, with the steps of `Push` and of
-- the workers.
use concx.Prelude.{
  ℕ, ◌+◌, ◌≤◌, ◌≡◌, refl, ◌∙◌, ◌⊎◌, inl, inr, Bool, true, Option, none, some, List, [], ◌∷◌, arith,
  get_elem?, set, total, total-set, if◌then◌else◌, Option-cases, Bool-cases, subst,
}
use concx.Prelude.Int.{rounds}
use concx.Codex.{Codex}
use concx.Nest
use concx.Nest.Invariant
use concx.Schedx.Tasks.{Tasks}
use concx.Schedx.Pool.{
  Pool, PushPc, WorkPc, Config, entered, gone, popping, push_step, work_step, broadcast, wake_one,
}
use concx.Schedx.Pool.System.{
  System, Pusher, RunPc, making_nest, spawning, Scheme, nest_canceled, is_leaving, push_at_step,
  work_at_step, with_nest,
}
use concx.Schedx.Pool.Counts.{one}

-- A worker that has not returned.
abbrev pub alive : {T : Type 0} → WorkPc T → ℕ
alive gone = 0
alive _ = 1

-- The workers that a call of `Run` has still to start, and whether it has still to make the nest.
abbrev pub left : {Err : Type 0} → ℕ → RunPc Err → ℕ
left n making_nest = n
left n (spawning m) = m
left n _ = 0

abbrev pub making : {Err : Type 0} → RunPc Err → ℕ
making making_nest = 1
making _ = 0

module _ {T : Type 0} where
  pub alive-broadcast : (ws : List (WorkPc T)) → total alive (broadcast ws) ≡ total alive ws
  unfolding broadcast total wake_one
  alive-broadcast [] = refl
  alive-broadcast (w ∷ ws) = ground (arith, alive-broadcast ws)

  pub one-broadcast : (ws : List (WorkPc T)) → total one (broadcast ws) ≡ total one ws
  unfolding broadcast total
  one-broadcast [] = refl
  one-broadcast (w ∷ ws) = omega (arith, one-broadcast ws)

  pub alive-le : (ws : List (WorkPc T)) → total alive ws ≤ total one ws
  unfolding total
  alive-le [] = omega arith
  alive-le (w ∷ ws) = ground (arith, alive-le ws)

pub work_step-alive :
    {S T E W : Type 0} (t : Tasks S T) (o : Config T E W) (b : Bool) (e : E) (w : WorkPc T)
    (p : Pool S T E W)
    → alive (work_step t o b e w p).1 + (if is_leaving w then 1 else 0) ≡ alive w
unfolding work_step
work_step-alive t o b e popping p = elim (Option-cases (t.pop p.tasks)) [
  | inl n ↦ rw n (omega arith)
  | inr ((v, r), n) ↦ rw n (omega arith)
]
work_step-alive t o b e w p = ground arith

module _ {S T E W Err : Type 0} ⦃x : Codex Err⦄ (t : Tasks S T) (k : Scheme S T E W Err) where
  abbrev pub parallel : ℕ
  parallel = rounds k.config.parallel

  -- The nest counts the workers that have not returned; before there is one there is no worker.
  abbrev pub NestCounts : Option (Nest.State Err) → List (WorkPc T) → Type 0
  NestCounts none ws = total one ws ≡ 0
  NestCounts (some n) ws = (n.live ≡ total alive ws) × Invariant.Inv k.nest_options n

  pub record Staffed (s : System S T E W Err) : Type 0 where
    pub counted : NestCounts s.nest s.workers
    pub few : total one s.workers + total (left parallel) s.runners ≤ parallel
    pub maker : total making s.runners ≤ 1
    pub unmade : (total making s.runners ≡ 0) ⊎ (s.nest ≡ none)
    pub fresh :
        (s.pool.running ≡ true)
        ⊎ ((s.nest ≡ none)
            × (total one s.workers ≡ 0)
            × (total (left parallel) s.runners ≡ 0)
            × (total making s.runners ≡ 0))

  pub push_step-running :
      (b : Bool) (v : T) (at : PushPc Err) (p : Pool S T E W)
      → (push_step t k.config b v at p).0.running ≡ p.running
  unfolding push_step
  push_step-running b v entered p = refl
  push_step-running b v at p = ground arith

  pub work_step-running :
      (b : Bool) (e : E) (w : WorkPc T) (p : Pool S T E W)
      → (work_step t k.config b e w p).0.running ≡ p.running
  unfolding work_step
  work_step-running b e popping p = elim (Option-cases (t.pop p.tasks)) [
    | inl n ↦ rw n refl
    | inr ((v, r), n) ↦ rw n refl
  ]
  work_step-running b e w p = ground arith

  pub push_at-Staffed :
      (i : ℕ) (c : Option (Pusher T Err)) (s : System S T E W Err)
      → Staffed s
      → Staffed (push_at_step t k i c s)
  unfolding push_at_step
  push_at-Staffed i none s v = v
  push_at-Staffed i (some c) s v =
      let same = push_step-running (nest_canceled s.nest) c.value c.at s.pool in
      let awake = alive-broadcast s.workers in
      let many = one-broadcast s.workers in
      record {
        counted = ground (arith, v.counted);
        few = ground (arith, v.few);
        maker = v.maker;
        unmade = v.unmade;
        fresh = ground (arith, v.fresh);
      }

  pub with_nest-counts :
      (n : Option (Nest.State Err)) (i : ℕ) (w w' : WorkPc T) (ws : List (WorkPc T))
      → get_elem? ws i ≡ some w
      → alive w' + (if is_leaving w then 1 else 0) ≡ alive w
      → NestCounts n ws
      → NestCounts (if is_leaving w then with_nest Nest.wg_done n else n) (set ws i w')
  unfolding Nest.wg_done
  with_nest-counts none i w w' ws e f h = ground (arith, total-set one ws i w w' e)
  with_nest-counts (some n) i w w' ws e f h = elim (Bool-cases (is_leaving w)) [
    | inl out ↦
        rw out
          (ground (arith, total-set alive ws i w w' e), Invariant.wg_done-Inv k.nest_options n h.1)
    | inr in_loop ↦ rw in_loop (ground (arith, total-set alive ws i w w' e), h.1)
  ]

  pub work_at-Staffed :
      (i : ℕ) (j : E) (w : Option (WorkPc T)) (s : System S T E W Err)
      → get_elem? s.workers i ≡ w
      → Staffed s
      → Staffed (work_at_step t k i j w s)
  unfolding work_at_step
  work_at-Staffed i j none s e v = v
  work_at-Staffed i j (some w) s e v =
      let b : Bool = nest_canceled s.nest in
      let (q, w') = work_step t k.config b j w s.pool in
      let same = work_step-running b j w s.pool in
      let many = total-set one s.workers i w w' e in
      record {
        counted =
            with_nest-counts s.nest i w w' s.workers e (work_step-alive t k.config b j w s.pool)
              v.counted;
        few = omega (arith, v.few);
        maker = v.maker;
        unmade = ground (arith, v.unmade);
        fresh = ground (arith, v.fresh);
      }

  -- A call of `Run` goes on with the loop, with the workers and the nest that it finds.
  pub settle :
      (i : ℕ) (r r' : RunPc Err) (s : System S T E W Err) (n : Option (Nest.State Err))
      (p : Pool S T E W)
      → get_elem? s.runners i ≡ some r
      → NestCounts n s.workers
      → (s.nest ≡ none → n ≡ none)
      → p.running ≡ s.pool.running
      → left parallel r' ≤ left parallel r
      → making r ≡ 0
      → making r' ≡ 0
      → Staffed s
      → Staffed (record s { pool = p; nest = n; runners = set s.runners i r' })
  settle i r r' s n p e counts none_kept same fewer a b v =
      let lefts = total-set (left parallel) s.runners i r r' e in
      let makes = total-set making s.runners i r r' e in
      record {
        counted = counts;
        few = omega (arith, v.few);
        maker = omega (arith, v.maker);
        unmade = elim v.unmade [
          | inl h ↦ inl (omega (arith, makes, a, b, h))
          | inr h ↦ inr (none_kept h)
        ];
        fresh = elim v.fresh [
          | inl h ↦ inl (same ∙ h)
          | inr h ↦ inr (
            none_kept h.0,
            h.1,
            omega (arith, lefts, fewer, h.2),
            omega (arith, makes, a, b, h.3),
          )
        ];
      }

  -- The same, where the nest is there and another one takes its place.
  pub some_kept :
      (s : System S T E W Err) (n m : Nest.State Err)
      → s.nest ≡ some n
      → s.nest ≡ none
      → some m ≡ none
  some_kept s n m f h = absurd (cc)

  pub counts_at :
      (s : System S T E W Err) (n : Option (Nest.State Err))
      → s.nest ≡ n
      → Staffed s
      → NestCounts n s.workers
  counts_at s n f v = subst (λ m. NestCounts m s.workers) f v.counted
