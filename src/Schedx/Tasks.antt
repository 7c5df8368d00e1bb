-- ===== src/Schedx/Tasks.antt =====
-- The interface `Tasks` of pkg/schedx/types.go, and what the schedulers rely on of its two
-- implementations, `queue.NewSafeQueue` and `stack.NewSafeStack` of github.com/xoctopus/x.
use concx.Prelude.{
  ℕ, ◌+◌, ◌≡◌, ◌⊎◌, Option, none, some, List, [], ◌∷◌, ◌++◌, total, total-append, total-one,
  total-cons, arith,
}

pub data ScheduleMode : Type 0 where
  fifo lifo : ScheduleMode

-- `S` is the type of the containers, of either kind. `pop` gives no value where its `ok` is false.
pub record Tasks (S T : Type 0) : Type 0 where
  -- the constructor that `NewScheduler` calls in each mode
  pub new : ScheduleMode → S
  pub len : S → ℕ
  pub push : T → S → S
  pub pop : S → Option (T × S)
  -- the values that `Range` visits, in its order
  pub range : S → List T
  pub clear : S → S

-- `items` lists a container in the order in which it would be popped.
pub record TasksLaws {S T : Type 0} (t : Tasks S T) : Type 0 where
  pub items : S → List T
  pub mode : S → ScheduleMode
  pub mode-new : (m : ScheduleMode) → mode (t.new m) ≡ m
  pub mode-push : (v : T) (s : S) → mode (t.push v s) ≡ mode s
  pub items-new : (m : ScheduleMode) → items (t.new m) ≡ []
  -- A queue takes a value at its end, a stack on its top.
  pub items-push :
      (v : T) (s : S)
      → items (t.push v s) ≡ elim (mode s) [ fifo ↦ items s ++ v ∷ [] | lifo ↦ v ∷ items s ]
  pub len-items : (s : S) → t.len s ≡ total (λ (v : T). 1) (items s)
  pub pop-items :
      (s : S)
      → ((t.pop s ≡ none) × (items s ≡ []))
        ⊎ ((v : T) × (r : S) × (t.pop s ≡ some (v, r))
            × (items s ≡ v ∷ items r)
            × (mode r ≡ mode s))
  -- `Range` visits every item once, in some order.
  pub total-range : (w : T → ℕ) (s : S) → total w (t.range s) ≡ total w (items s)
  pub items-clear : (s : S) → items (t.clear s) ≡ []

module _ {S T : Type 0} (t : Tasks S T) (l : TasksLaws t) (w : T → ℕ) where
  open l use {items}

  -- In either mode a pushed value is one more item.
  pub total-push : (v : T) (s : S) → total w (items (t.push v s)) ≡ w v + total w (items s)
  total-push v s = ground (
    arith,
    l.items-push v s,
    total-append w (items s) (v ∷ []),
    total-one w v,
    total-cons w v (items s),
  )
