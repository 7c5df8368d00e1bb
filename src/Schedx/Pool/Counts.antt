-- ===== src/Schedx/Pool/Counts.antt =====
-- How one step of pkg/schedx's `Push` or of its workers moves the counter of pending tasks.
use concx.Prelude.{
  ℕ, ◌+◌, ◌≤◌, ◌≡◌, refl, inl, inr, Bool, false, some, List, [], ◌∷◌, arith, total, total-cons,
}
use concx.Prelude.Int.{ℤ, pos, negsuc, pos_part, leb_ℤ}
use concx.Codex.{Codex}
use concx.Schedx.Tasks.{Tasks, TasksLaws, total-push}
use concx.Schedx.Pool.{
  Pool, PushPc, WorkPc, Config, loaded, appending, popping, popped, counting, push_step, work_step,
  broadcast, wake_one,
}
use concx.Schedx.Pool.System.{Pusher}

-- A call of `Push` that has counted its value and not appended it yet.
abbrev pub reserved : {Err : Type 0} → PushPc Err → ℕ
reserved appending = 1
reserved _ = 0

-- A worker that has popped a value and not counted it down yet.
abbrev pub uncounted : {T : Type 0} → WorkPc T → ℕ
uncounted (popped (some _)) = 1
uncounted (counting _) = 1
uncounted _ = 0

abbrev pub reserved_by : {T Err : Type 0} → Pusher T Err → ℕ
reserved_by c = reserved c.at

abbrev pub one : {T : Type 0} → T → ℕ
one _ = 1

pub uncounted-broadcast :
    {T : Type 0} (ws : List (WorkPc T)) → total uncounted (broadcast ws) ≡ total uncounted ws
unfolding broadcast total wake_one
uncounted-broadcast [] = refl
uncounted-broadcast (w ∷ ws) = ground (arith, uncounted-broadcast ws)

-- A limit that is not negative bounds the counter.
abbrev pub IsWithin : ℤ → ℤ → Type 0
IsWithin (pos m) n = pos_part n ≤ m
IsWithin (negsuc _) n = Unit {0}

pub IsWithin-zero : (m : ℤ) → IsWithin m (pos 0)
IsWithin-zero (pos m) = omega arith
IsWithin-zero (negsuc m) = tt

-- A counter that was read below the limit.
abbrev pub IsBelow : {Err : Type 0} → ℤ → PushPc Err → Type 0
IsBelow m (loaded current) = leb_ℤ m current ≡ false
IsBelow m _ = Unit {0}

module _ {S T E W Err : Type 0} ⦃x : Codex Err⦄ (t : Tasks S T) (l : TasksLaws t) where
  open l use {items}

  module _ (o : Config T E W) where
    pub push_step-counts :
        (b : Bool) (v : T) (at : PushPc Err) (p : Pool S T E W) (r : ℕ)
        → p.pending ≡ pos (total one (items p.tasks) + reserved at + r)
        → IsWithin o.max_pending p.pending
        → IsBelow o.max_pending at
        → let (q, at') = push_step t o b v at p in
          (q.pending ≡ pos (total one (items q.tasks) + reserved at' + r))
          × IsWithin o.max_pending q.pending
          × IsBelow o.max_pending at'
    unfolding push_step
    push_step-counts b v appending p r h k f = ground (arith, total-push t l one v p.tasks)
    push_step-counts b v at p r h k f = ground arith

-- The same for a worker.
module _ {S T E W : Type 0} (t : Tasks S T) (l : TasksLaws t) (o : Config T E W) where
  open l use {items}

  pub work_step-counts :
      (b : Bool) (e : E) (w : WorkPc T) (p : Pool S T E W) (r : ℕ)
      → p.pending ≡ pos (total one (items p.tasks) + uncounted w + r)
      → IsWithin o.max_pending p.pending
      → let (q, w') = work_step t o b e w p in
        (q.pending ≡ pos (total one (items q.tasks) + uncounted w' + r))
        × IsWithin o.max_pending q.pending
  unfolding work_step
  work_step-counts b e popping p r h k = elim (l.pop-items p.tasks) [
    | inl (none_left, _) ↦ rw none_left (ground arith)
    | inr (v, rest, some_left, split, _) ↦
        rw some_left (ground (arith, total-cons one v (items rest)))
  ]
  work_step-counts b e w p r h k = ground arith
