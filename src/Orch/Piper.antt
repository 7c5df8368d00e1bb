-- ===== src/Orch/Piper.antt =====
-- pkg/orch/piper: chains of operators, without errors (piper.go) and with a context, effects and
-- errors (piper_ex.go).
pub mod Laws
mod Tests
use concx.Prelude.{Option, none, some}

-- `Operator`
abbrev pub Operator : Type 0 → Type 0 → Type 0
Operator I O = I → O

unfoldable pub exec : {Head Tail : Type 0} → Head → Operator Head Tail → Tail
exec v op = op v

unfoldable pub exec2 : {Head A Tail : Type 0} → Head → Operator Head A → Operator A Tail → Tail
unfolding exec
exec2 v op1 op2 = exec (op1 v) op2

unfoldable pub exec3 :
    {Head A B Tail : Type 0} → Head → Operator Head A → Operator A B → Operator B Tail → Tail
unfolding exec2
exec3 v op1 op2 op3 = exec2 (op1 v) op2 op3

unfoldable pub exec4 :
    {Head A B C Tail : Type 0}
    → Head
    → Operator Head A
    → Operator A B
    → Operator B C
    → Operator C Tail
    → Tail
unfolding exec3
exec4 v op1 op2 op3 op4 = exec3 (op1 v) op2 op3 op4

unfoldable pub exec5 :
    {Head A B C D Tail : Type 0}
    → Head
    → Operator Head A
    → Operator A B
    → Operator B C
    → Operator C D
    → Operator D Tail
    → Tail
unfolding exec4
exec5 v op1 op2 op3 op4 op5 = exec4 (op1 v) op2 op3 op4 op5

unfoldable pub exec6 :
    {Head A B C D E Tail : Type 0}
    → Head
    → Operator Head A
    → Operator A B
    → Operator B C
    → Operator C D
    → Operator D E
    → Operator E Tail
    → Tail
unfolding exec5
exec6 v op1 op2 op3 op4 op5 op6 = exec5 (op1 v) op2 op3 op4 op5 op6

unfoldable pub exec7 :
    {Head A B C D E F Tail : Type 0}
    → Head
    → Operator Head A
    → Operator A B
    → Operator B C
    → Operator C D
    → Operator D E
    → Operator E F
    → Operator F Tail
    → Tail
unfolding exec6
exec7 v op1 op2 op3 op4 op5 op6 op7 = exec6 (op1 v) op2 op3 op4 op5 op6 op7

unfoldable pub exec8 :
    {Head A B C D E F G Tail : Type 0}
    → Head
    → Operator Head A
    → Operator A B
    → Operator B C
    → Operator C D
    → Operator D E
    → Operator E F
    → Operator F G
    → Operator G Tail
    → Tail
unfolding exec7
exec8 v op1 op2 op3 op4 op5 op6 op7 op8 = exec7 (op1 v) op2 op3 op4 op5 op6 op7 op8

-- What an operator that works on `W` leaves and returns.
abbrev pub Ended : Type 0 → Type 0 → Type 0 → Type 0
Ended W Err O = W × O × Option Err

-- `OperatorEx`
abbrev pub OperatorEx : Type 0 → Type 0 → Type 0 → Type 0 → Type 0 → Type 0
OperatorEx Ctx W Err I O = Ctx → I → W → Ended W Err O

module _ {W Err : Type 0} where
  -- `if err != nil { return x, err }`, and what follows it. `x` is the zero value of the result.
  unfoldable pub if_ok :
      {A Tail : Type 0} → Tail → Ended W Err A → (A → W → Ended W Err Tail) → Ended W Err Tail
  if_ok x (w, o, some e) f = (w, x, some e)
  if_ok x (w, o, none) f = f o w

module _ {Ctx W Err : Type 0} where
  unfoldable pub exec_ex :
      {Head Tail : Type 0} → Ctx → Head → OperatorEx Ctx W Err Head Tail → W → Ended W Err Tail
  exec_ex ctx v op w = op ctx v w

  unfoldable pub exec_ex2 :
      {Head A Tail : Type 0} (x : Tail)
      → Ctx
      → Head
      → OperatorEx Ctx W Err Head A
      → OperatorEx Ctx W Err A Tail
      → W
      → Ended W Err Tail
  unfolding exec_ex if_ok
  exec_ex2 x ctx v op1 op2 w = if_ok x (op1 ctx v w) (λ o w'. exec_ex ctx o op2 w')

  unfoldable pub exec_ex3 :
      {Head A B Tail : Type 0} (x : Tail)
      → Ctx
      → Head
      → OperatorEx Ctx W Err Head A
      → OperatorEx Ctx W Err A B
      → OperatorEx Ctx W Err B Tail
      → W
      → Ended W Err Tail
  unfolding exec_ex2 if_ok
  exec_ex3 x ctx v op1 op2 op3 w = if_ok x (op1 ctx v w) (λ o w'. exec_ex2 x ctx o op2 op3 w')

  unfoldable pub exec_ex4 :
      {Head A B C Tail : Type 0} (x : Tail)
      → Ctx
      → Head
      → OperatorEx Ctx W Err Head A
      → OperatorEx Ctx W Err A B
      → OperatorEx Ctx W Err B C
      → OperatorEx Ctx W Err C Tail
      → W
      → Ended W Err Tail
  unfolding exec_ex3 if_ok
  exec_ex4 x ctx v op1 op2 op3 op4 w =
      if_ok x (op1 ctx v w) (λ o w'. exec_ex3 x ctx o op2 op3 op4 w')

  unfoldable pub exec_ex5 :
      {Head A B C D Tail : Type 0} (x : Tail)
      → Ctx
      → Head
      → OperatorEx Ctx W Err Head A
      → OperatorEx Ctx W Err A B
      → OperatorEx Ctx W Err B C
      → OperatorEx Ctx W Err C D
      → OperatorEx Ctx W Err D Tail
      → W
      → Ended W Err Tail
  unfolding exec_ex4 if_ok
  exec_ex5 x ctx v op1 op2 op3 op4 op5 w =
      if_ok x (op1 ctx v w) (λ o w'. exec_ex4 x ctx o op2 op3 op4 op5 w')

  unfoldable pub exec_ex6 :
      {Head A B C D E Tail : Type 0} (x : Tail)
      → Ctx
      → Head
      → OperatorEx Ctx W Err Head A
      → OperatorEx Ctx W Err A B
      → OperatorEx Ctx W Err B C
      → OperatorEx Ctx W Err C D
      → OperatorEx Ctx W Err D E
      → OperatorEx Ctx W Err E Tail
      → W
      → Ended W Err Tail
  unfolding exec_ex5 if_ok
  exec_ex6 x ctx v op1 op2 op3 op4 op5 op6 w =
      if_ok x (op1 ctx v w) (λ o w'. exec_ex5 x ctx o op2 op3 op4 op5 op6 w')

  unfoldable pub exec_ex7 :
      {Head A B C D E F Tail : Type 0} (x : Tail)
      → Ctx
      → Head
      → OperatorEx Ctx W Err Head A
      → OperatorEx Ctx W Err A B
      → OperatorEx Ctx W Err B C
      → OperatorEx Ctx W Err C D
      → OperatorEx Ctx W Err D E
      → OperatorEx Ctx W Err E F
      → OperatorEx Ctx W Err F Tail
      → W
      → Ended W Err Tail
  unfolding exec_ex6 if_ok
  exec_ex7 x ctx v op1 op2 op3 op4 op5 op6 op7 w =
      if_ok x (op1 ctx v w) (λ o w'. exec_ex6 x ctx o op2 op3 op4 op5 op6 op7 w')

  unfoldable pub exec_ex8 :
      {Head A B C D E F G Tail : Type 0} (x : Tail)
      → Ctx
      → Head
      → OperatorEx Ctx W Err Head A
      → OperatorEx Ctx W Err A B
      → OperatorEx Ctx W Err B C
      → OperatorEx Ctx W Err C D
      → OperatorEx Ctx W Err D E
      → OperatorEx Ctx W Err E F
      → OperatorEx Ctx W Err F G
      → OperatorEx Ctx W Err G Tail
      → W
      → Ended W Err Tail
  unfolding exec_ex7 if_ok
  exec_ex8 x ctx v op1 op2 op3 op4 op5 op6 op7 op8 w =
      if_ok x (op1 ctx v w) (λ o w'. exec_ex7 x ctx o op2 op3 op4 op5 op6 op7 op8 w')
