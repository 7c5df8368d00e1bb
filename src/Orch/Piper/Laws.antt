-- ===== src/Orch/Piper/Laws.antt =====
-- pkg/orch/piper: long chains are short ones one after the other, and the first error ends them.
use concx.Prelude.{◌≡◌, refl, none, some}
use concx.Orch.Piper.{
  exec_ex, Operator, exec3, exec5, exec8, Ended, OperatorEx, if_ok, exec_ex, exec_ex2, exec_ex3,
  exec_ex4, exec_ex5, exec_ex6, exec_ex7, exec_ex8,
}

-- `Exec8` is `Exec3` on what `Exec5` gives: the operators are applied from left to right, each to
-- what the one before gave.
pub exec8-split :
    {Head A B C D E F G Tail : Type 0} (v : Head) (op1 : Operator Head A) (op2 : Operator A B)
    (op3 : Operator B C) (op4 : Operator C D) (op5 : Operator D E) (op6 : Operator E F)
    (op7 : Operator F G) (op8 : Operator G Tail)
    → exec8 v op1 op2 op3 op4 op5 op6 op7 op8 ≡ exec3 (exec5 v op1 op2 op3 op4 op5) op6 op7 op8
unfolding exec8
exec8-split v op1 op2 op3 op4 op5 op6 op7 op8 = refl

module _ {W Err : Type 0} where
  if_ok_assoc :
      {A B C : Type 0} (x : C) (y : B) (r : Ended W Err A) (f : A → W → Ended W Err B)
      (g : B → W → Ended W Err C) (h : A → W → Ended W Err C)
      → ((a : A) (w : W) → h a w ≡ if_ok x (f a w) g)
      → if_ok x r h ≡ if_ok x (if_ok y r f) g
  unfolding if_ok
  if_ok_assoc x y (w, a, none) f g h same = same a w
  if_ok_assoc x y (w, a, some e) f g h same = refl

-- The second half of a chain of eight.
abbrev pub rest :
    {Ctx W Err D E F G Tail : Type 0}
    → Ctx
    → OperatorEx Ctx W Err D E
    → OperatorEx Ctx W Err E F
    → OperatorEx Ctx W Err F G
    → OperatorEx Ctx W Err G Tail
    → Tail
    → D
    → W
    → Ended W Err Tail
rest ctx op5 op6 op7 op8 x o w = exec_ex4 x ctx o op5 op6 op7 op8 w

module _ {Ctx W Err B C D E F G Tail : Type 0} (ctx : Ctx) (op3 : OperatorEx Ctx W Err B C)
    (op4 : OperatorEx Ctx W Err C D) (op5 : OperatorEx Ctx W Err D E)
    (op6 : OperatorEx Ctx W Err E F) (op7 : OperatorEx Ctx W Err F G)
    (op8 : OperatorEx Ctx W Err G Tail) (x : Tail) (y : D) where
  exec_ex6-split :
      (v : B) (w : W)
      → exec_ex6 x ctx v op3 op4 op5 op6 op7 op8 w
        ≡ if_ok x (exec_ex2 y ctx v op3 op4 w) (rest ctx op5 op6 op7 op8 x)
  unfolding exec_ex6 exec_ex5 exec_ex2 exec_ex
  exec_ex6-split v w = if_ok_assoc x y (op3 ctx v w) _ (rest ctx op5 op6 op7 op8 x) _ (λ a w'. refl)

module _ {Ctx W Err Head A B C D E F G Tail : Type 0} (ctx : Ctx)
    (op1 : OperatorEx Ctx W Err Head A) (op2 : OperatorEx Ctx W Err A B)
    (op3 : OperatorEx Ctx W Err B C) (op4 : OperatorEx Ctx W Err C D)
    (op5 : OperatorEx Ctx W Err D E) (op6 : OperatorEx Ctx W Err E F)
    (op7 : OperatorEx Ctx W Err F G) (op8 : OperatorEx Ctx W Err G Tail) (x : Tail) (y : D) where
  -- `ExecEx8` is `ExecEx4` and, if that returned no error, a second `ExecEx4` on its value and the
  -- effects that it left: an error of the first half ends the chain, none of the last four operators
  -- is called, and the error comes with the zero value `x`. (What `ExecEx4` returns with an error,
  -- its own zero value `y` included, is dropped.)
  pub exec_ex8-split :
      (v : Head) (w : W)
      → exec_ex8 x ctx v op1 op2 op3 op4 op5 op6 op7 op8 w
        ≡ if_ok x (exec_ex4 y ctx v op1 op2 op3 op4 w) (rest ctx op5 op6 op7 op8 x)
  unfolding exec_ex8 exec_ex7 exec_ex4 exec_ex3
  exec_ex8-split v w = if_ok_assoc x y (op1 ctx v w) _ (rest ctx op5 op6 op7 op8 x) _ (λ a w'.
      if_ok_assoc x y (op2 ctx a w') _ (rest ctx op5 op6 op7 op8 x) _
        (exec_ex6-split ctx op3 op4 op5 op6 op7 op8 x y))
