-- ===== src/Schedx/Pool/History.antt =====
-- pkg/schedx: where the pushed values are.
use concx.Prelude.{
  ℕ, ◌+◌, ◌≡◌, refl, inl, inr, Bool, none, some, List, [], ◌∷◌, arith, total, total-append,
  total-one, total-cons,
}
use concx.Codex.{Codex}
use concx.Schedx.Tasks.{Tasks, TasksLaws, total-push}
use concx.Schedx.Pool.{
  Pool, PushPc, WorkPc, Config, appending, broadcasting, returned, popping, popped, counting, doing,
  push_step, work_step, broadcast, wake_one,
}
use concx.Schedx.Pool.System.{Pusher}

module _ {T : Type 0} (w : T → ℕ) where
  -- A call of `Push` that has appended its value, by what the value weighs.
  abbrev pub accepted : {Err : Type 0} → T → PushPc Err → ℕ
  accepted v broadcasting = w v
  accepted v (returned none) = w v
  accepted v _ = 0

  abbrev pub accepted_by : {Err : Type 0} → Pusher T Err → ℕ
  accepted_by c = accepted c.value c.at

  -- The value that a worker has popped and whose job has not ended.
  abbrev pub in_hand : WorkPc T → ℕ
  in_hand (popped (some v)) = w v
  in_hand (counting v) = w v
  in_hand (doing _ v) = w v
  in_hand _ = 0

  abbrev pub ended : {E : Type 0} → T × E → ℕ
  ended r = w r.0

  pub in_hand-broadcast : (ws : List (WorkPc T)) → total in_hand (broadcast ws) ≡ total in_hand ws
  unfolding broadcast total wake_one
  in_hand-broadcast [] = refl
  in_hand-broadcast (p ∷ ws) = ground (arith, in_hand-broadcast ws)

module _ {S T E W : Type 0} (t : Tasks S T) (l : TasksLaws t) (w : T → ℕ) where
  open l use {items}

  -- What was appended is taken or in the queue.
  abbrev pub IsSplit : Pool S T E W → Type 0
  IsSplit p = total w p.appended ≡ total w p.taken + total w (items p.tasks)

  module _ {Err : Type 0} ⦃x : Codex Err⦄ (o : Config T E W) where
    pub push_step-IsSplit :
        (b : Bool) (v : T) (at : PushPc Err) (p : Pool S T E W) (r : ℕ)
        → IsSplit p
        → total w p.appended ≡ accepted w v at + r
        → let (q, at') = push_step t o b v at p in
          IsSplit q
          × (total w q.appended ≡ accepted w v at' + r)
          × (q.taken ≡ p.taken)
          × (q.finished ≡ p.finished)
    unfolding push_step
    push_step-IsSplit b v appending p r h k =
        ground
          (arith, total-push t l w v p.tasks, total-append w p.appended (v ∷ []), total-one w v)
    push_step-IsSplit b v at p r h k = ground arith

  pub work_step-IsSplit :
      (o : Config T E W) (b : Bool) (e : E) (at : WorkPc T) (p : Pool S T E W) (r : ℕ)
      → IsSplit p
      → total w p.taken ≡ in_hand w at + total (ended w) p.finished + r
      → let (q, at') = work_step t o b e at p in
        IsSplit q
        × (total w q.taken ≡ in_hand w at' + total (ended w) q.finished + r)
        × (q.appended ≡ p.appended)
  unfolding work_step
  work_step-IsSplit o b e popping p r h k = elim (l.pop-items p.tasks) [
    | inl (none_left, _) ↦ rw none_left (ground arith)
    | inr (v, rest, some_left, split, _) ↦ rw some_left (
        ground (arith, total-cons w v (items rest), total-append w p.taken (v ∷ []), total-one w v))
  ]
  work_step-IsSplit o b e (doing d v) p r h k =
      ground
        (arith, total-append (ended w) p.finished ((v, e) ∷ []), total-one (ended w {E = E}) (v, e))
  work_step-IsSplit o b e at p r h k = ground arith
