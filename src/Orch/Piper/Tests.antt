-- ===== src/Orch/Piper/Tests.antt =====
-- Tests of the chains.
use concx.Prelude.{ℕ, ◌+◌, ◌≡◌, ◌∷◌, [], refl, none, some, List}
use concx.Orch.Piper.{
  OperatorEx, Operator, if_ok, exec_ex8, exec_ex4, exec_ex7, exec_ex6, exec_ex5, exec_ex3, exec_ex2,
  exec_ex,
}
use concx.Orch.Piper.Laws.{exec_ex8-split, rest}

abbrev more : Operator ℕ ℕ
more n = n + 1

-- The effect of a call is the list of the values that it got.
abbrev good : OperatorEx ℕ (List ℕ) ℕ ℕ ℕ
good ctx n w = (n ∷ w, n + ctx, none)

abbrev bad : OperatorEx ℕ (List ℕ) ℕ ℕ ℕ
bad ctx n w = (n ∷ w, n, some 7)

stops : exec_ex8 0 1 4 good good bad good good good good good [] ≡ (6 ∷ 5 ∷ 4 ∷ [], 0, some 7)
unfolding exec_ex8 exec_ex7 exec_ex6 if_ok
stops = refl

-- The last operator's own value comes with its error.
last_value :
    exec_ex8 0 1 4 good good good good good good good bad []
    ≡ (11 ∷ 10 ∷ 9 ∷ 8 ∷ 7 ∷ 6 ∷ 5 ∷ 4 ∷ [], 11, some 7)
unfolding exec_ex8 exec_ex7 exec_ex6 exec_ex5 exec_ex4 exec_ex3 exec_ex2 exec_ex if_ok
last_value = refl

exec_ex8-split_example :
    exec_ex8 0 1 4 good good bad good good good good good []
    ≡ if_ok 0 (exec_ex4 9 1 4 good good bad good []) (rest 1 good good good good 0)
exec_ex8-split_example = exec_ex8-split 1 good good bad good good good good good 0 9 4 []
