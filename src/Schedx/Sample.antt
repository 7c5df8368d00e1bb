-- ===== src/Schedx/Sample.antt =====
-- A container that is a list in the order of popping, for tests.
use concx.Prelude.{
  ◌≡◌, refl, ◌⊎◌, inl, inr, Option, none, some, List, [], ◌∷◌, ◌++◌, length, total, arith,
}
use concx.Schedx.Tasks.{ScheduleMode, fifo, lifo, Tasks, TasksLaws}

abbrev pub Box : Type 0 → Type 0
Box T = ScheduleMode × List T

abbrev pub box_push : {T : Type 0} → T → Box T → Box T
box_push v (fifo, xs) = (fifo, xs ++ v ∷ [])
box_push v (lifo, xs) = (lifo, v ∷ xs)

abbrev pub box_pop : {T : Type 0} → Box T → Option (T × Box T)
box_pop (m, []) = none
box_pop (m, x ∷ xs) = some (x, (m, xs))

abbrev pub boxes : {T : Type 0} → Tasks (Box T) T
boxes = record {
  new = λ m. (m, []);
  len = λ b. length (b.1);
  push = box_push;
  pop = box_pop;
  range = λ b. b.1;
  clear = λ b. (b.0, []);
}

module _ {T : Type 0} where
  pub push_mode : (v : T) (b : Box T) → (box_push v b).0 ≡ b.0
  push_mode v (fifo, xs) = refl
  push_mode v (lifo, xs) = refl

  pub push_items :
      (v : T) (b : Box T) → (box_push v b).1 ≡ elim (b.0) [ fifo ↦ b.1 ++ v ∷ [] | lifo ↦ v ∷ b.1 ]
  push_items v (fifo, xs) = refl
  push_items v (lifo, xs) = refl

  pub length-total : (xs : List T) → length xs ≡ total (λ (v : T). 1) xs
  unfolding total
  length-total [] = refl
  length-total (x ∷ xs) = omega (arith, length-total xs)

  pub pop_items :
      (b : Box T)
      → ((box_pop b ≡ none) × (b.1 ≡ []))
        ⊎ ((v : T) × (r : Box T) × (box_pop b ≡ some (v, r)) × (b.1 ≡ v ∷ r.1) × (r.0 ≡ b.0))
  pop_items (m, []) = inl (refl, refl)
  pop_items (m, x ∷ xs) = inr (x, (m, xs), refl, refl, refl)

  abbrev pub boxes_laws : TasksLaws (boxes {T = T})
  boxes_laws = record {
    items = λ b. b.1;
    mode = λ b. b.0;
    mode-new = λ m. refl;
    mode-push = push_mode;
    items-new = λ m. refl;
    items-push = push_items;
    len-items = λ b. length-total (b.1);
    pop-items = pop_items;
    total-range = λ w b. refl;
    items-clear = λ b. refl;
  }
