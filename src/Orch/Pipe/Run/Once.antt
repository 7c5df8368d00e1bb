-- ===== src/Orch/Pipe/Run/Once.antt =====
-- pkg/orch/pipe/pipe.go: of any number of calls of `Run` one returns nil at most.
use concx.Prelude.{
  ℕ, zero, suc, ◌+◌, ◌≤◌, ◌≡◌, refl, ap, Bool, true, false, not, ◌&&◌, Option, none, some, List, [],
  ◌∷◌, get_elem?, set, total, total-append, total-one, total-set, total-get, if_elim, if_split,
  arith,
}
use concx.Prelude.Int.{ℤ}
use concx.Codex.{Codex}
use concx.Nest
use concx.Orch.Pipe.Lifetime.{
  built, is_at, ShutPc, unshut, ending, cutting, is_over, Running, begin_shutdown, shut_step,
  shutdown,
}
use concx.Orch.Pipe.Run.{
  RunPc, entered, testing, making_nest, spawning, starting, marking, unlocking, aborting, awaiting,
  ran, panicked, ClosePc, begun, shutting, joining, closed, crashed, Line, Event, run, close,
  run_at, close_at, shutdown_step, by_nest, is_advance, own_reason, enter_shutdown, shut_call,
  put_run, spawned, started, run_step, close_step, nest_step, step, history, start,
}

abbrev pub once : Bool → ℕ
once true = 1
once false = 0

once_le : (b : Bool) → once b ≤ 1
once_le true = omega arith
once_le false = omega arith

-- A call of `Run` that has won the compare-and-swap.
abbrev pub won : {Err : Type 0} → RunPc Err → ℕ
won unlocking = 1
won (ran none) = 1
won _ = 0

-- One that holds the mutex; a panic does not give it back.
abbrev pub holds : {Err : Type 0} → RunPc Err → ℕ
holds testing = 1
holds making_nest = 1
holds (spawning m) = 1
holds starting = 1
holds marking = 1
holds unlocking = 1
holds (aborting e) = 1
holds panicked = 1
holds _ = 0

module _ {Err : Type 0} where
  record Sole (l : Line Err) : Type 0 where
    winners : total won l.runners + once (is_at l.pipeline.lifetime built) ≤ 1
    holder : total holds l.runners ≡ once l.locked

  -- A call of `Run` gets to another place.
  put-Sole :
      (i : ℕ) (p q : RunPc Err) (l u : Line Err)
      → get_elem? l.runners i ≡ some p
      → Sole l
      → u.runners ≡ set l.runners i q
      → won q + once (is_at u.pipeline.lifetime built)
        ≤ won p + once (is_at l.pipeline.lifetime built)
      → holds q + once l.locked ≡ holds p + once u.locked
      → Sole u
  put-Sole i p q l u g v same w h = record {
    winners = omega (
      arith,
      v.winners,
      w,
      total-set won l.runners i p q g,
      total-get won l.runners i p g,
      ap (total won) same,
    );
    holder = omega (
      arith,
      v.holder,
      h,
      total-set holds l.runners i p q g,
      total-get holds l.runners i p g,
      ap (total holds) same,
    );
  }

  -- The mutex is held while a call is where it holds it.
  held :
      (i : ℕ) (p : RunPc Err) (l : Line Err)
      → get_elem? l.runners i ≡ some p
      → Sole l
      → holds p ≡ 1
      → 0 + once l.locked ≡ 1
  held i p l g v h = omega (arith, v.holder, total-get holds l.runners i p g, h, once_le l.locked)

  -- The runners and the mutex are the same, and a pipeline that is built was so before.
  other-Sole :
      (l u : Line Err)
      → Sole l
      → u.runners ≡ l.runners
      → u.locked ≡ l.locked
      → once (is_at u.pipeline.lifetime built) ≤ once (is_at l.pipeline.lifetime built)
      → Sole u
  other-Sole l u v r k b = record {
    winners = omega (arith, v.winners, b, ap (total won) r);
    holder = omega (arith, v.holder, ap (total holds) r, ap once k);
  }

module _ {Err : Type 0} ⦃x : Codex Err⦄ (timeout : ℤ) (stages : ℕ) where
  spawned-Sole :
      (i m : ℕ) (n : Nest.State Err) (e : Option Err) (l : Line Err)
      → get_elem? l.runners i ≡ some (spawning (suc m))
      → Sole l
      → Sole (spawned timeout stages i m (n, e) l)
  spawned-Sole i m n none l g v =
      put-Sole i (spawning (suc m)) (spawning m) l _ g v refl (omega arith) (omega arith)
  spawned-Sole i m n (some e) l g v =
      put-Sole i (spawning (suc m)) (aborting e) l _ g v refl (omega arith) (omega arith)

  started-Sole :
      (i : ℕ) (e : Option Err) (l : Line Err)
      → get_elem? l.runners i ≡ some starting
      → Sole l
      → Sole (put_run timeout stages i (started timeout stages e) l)
  started-Sole i none l g v = put-Sole i starting marking l _ g v refl (omega arith) (omega arith)
  started-Sole i (some e) l g v =
      put-Sole i starting (aborting e) l _ g v refl (omega arith) (omega arith)

  run_step-Sole :
      (i : ℕ) (e : Option Err) (r : Option (RunPc Err)) (n : Option (Nest.State Err)) (l : Line Err)
      → get_elem? l.runners i ≡ r
      → Sole l
      → Sole (run_step timeout stages i e r n l)
  unfolding run_step
  run_step-Sole i e (some entered) n l g v =
      if_split Sole l.locked _ _ (λ h. v)
        (λ h. put-Sole i entered testing l _ g v refl (omega arith) (ground (arith, h)))
  run_step-Sole i e (some testing) n l g v =
      if_elim Sole (is_at l.pipeline.lifetime built) _ _
        (put-Sole i testing making_nest l _ g v refl (omega arith) (omega arith))
        (put-Sole i testing panicked l _ g v refl (omega arith) (omega arith))
  run_step-Sole i e (some making_nest) n l g v =
      put-Sole i making_nest (spawning (suc stages)) l _ g v refl (omega arith) (omega arith)
  run_step-Sole i e (some (spawning zero)) n l g v =
      put-Sole i (spawning zero) starting l _ g v refl (omega arith) (omega arith)
  run_step-Sole i e (some (spawning (suc m))) none l g v = v
  run_step-Sole i e (some (spawning (suc m))) (some n) l g v =
      let (n', o) = Nest.spawn_locked n in
      if_elim Sole (Nest.is_free n.phase) _ _ (spawned-Sole i m n' o l g v) v
  run_step-Sole i e (some starting) n l g v = started-Sole i e l g v
  run_step-Sole i e (some marking) n l g v =
      if_split Sole (is_at l.pipeline.lifetime built) _ _
        (λ h. put-Sole i marking unlocking l _ g v refl (ground (arith, h)) (omega arith))
        (λ h. put-Sole i marking panicked l _ g v refl (omega arith) (omega arith))
  run_step-Sole i e (some unlocking) n l g v =
      put-Sole i unlocking (ran none) l _ g v refl (omega arith) (held i unlocking l g v refl)
  run_step-Sole i e (some (aborting c)) n l g v =
      put-Sole i (aborting c) (RunPc.canceling c) l _ g v refl (omega arith)
        (held i (aborting c) l g v refl)
  run_step-Sole i e (some (RunPc.canceling c)) none l g v =
      put-Sole i (RunPc.canceling c) (ran (some c)) l _ g v refl (omega arith) (omega arith)
  run_step-Sole i e (some (RunPc.canceling c)) (some n) l g v =
      if_elim Sole (Nest.is_free n.phase) _ _
        (put-Sole i (RunPc.canceling c) (awaiting c) l _ g v refl (omega arith) (omega arith)) v
  run_step-Sole i e (some (awaiting c)) none l g v = v
  run_step-Sole i e (some (awaiting c)) (some n) l g v =
      if_elim Sole n.done _ _
        (put-Sole i (awaiting c) (ran (some c)) l _ g v refl (omega arith) (omega arith)) v
  run_step-Sole i e (some (ran c)) n l g v = v
  run_step-Sole i e (some panicked) n l g v = v
  run_step-Sole i e none n l g v = v

  -- No step of `shutdown` makes a pipeline a built one.
  begin_unbuilt :
      (at : ShutPc Err) (e : Option Err) (p : Running Err)
      → once (is_at (begin_shutdown e at p).lifetime built) ≤ once (is_at p.lifetime built)
  unfolding begin_shutdown
  begin_unbuilt unshut e p = omega arith
  begin_unbuilt at e p = omega arith

  shut_step_unbuilt :
      (at : ShutPc Err) (p : Running Err)
      → once (is_at (shut_step at p).lifetime built) ≤ once (is_at p.lifetime built)
  unfolding shut_step
  shut_step_unbuilt (ending e) p = omega arith
  shut_step_unbuilt (cutting e []) p = omega arith
  shut_step_unbuilt (cutting e (c ∷ left)) p = omega arith
  shut_step_unbuilt at p = omega arith

  enter-Sole : (l : Line Err) → Sole l → Sole (enter_shutdown timeout stages l)
  enter-Sole l v =
      other-Sole l _ v refl refl
        (begin_unbuilt l.pipeline.shut (own_reason timeout stages) l.pipeline)

  shut_call-Sole :
      (i : ℕ) (e : Option (Option Err)) (l : Line Err)
      → Sole l
      → Sole (shut_call timeout stages i e l)
  shut_call-Sole i none l v = enter-Sole l v
  shut_call-Sole i (some e) l v = other-Sole l _ v refl refl (omega arith)

  close_step-Sole :
      (i : ℕ) (c : Option (ClosePc Err)) (n : Option (Nest.State Err)) (l : Line Err)
      → Sole l
      → Sole (close_step timeout stages i c n l)
  unfolding close_step
  close_step-Sole i (some begun) n l v =
      if_elim Sole l.pipeline.stopping _ _ (other-Sole l _ v refl refl (omega arith))
        (other-Sole l _ v refl refl (omega arith))
  close_step-Sole i (some shutting) n l v =
      shut_call-Sole i (shutdown (own_reason timeout stages) l.pipeline) l v
  close_step-Sole i (some (ClosePc.canceling e)) none l v = other-Sole l _ v refl refl (omega arith)
  close_step-Sole i (some (ClosePc.canceling e)) (some n) l v =
      if_elim Sole (Nest.is_free n.phase) _ _ (other-Sole l _ v refl refl (omega arith)) v
  close_step-Sole i (some (joining e)) none l v = other-Sole l _ v refl refl (omega arith)
  close_step-Sole i (some (joining e)) (some n) l v =
      if_elim Sole n.done _ _ (other-Sole l _ v refl refl (omega arith)) v
  close_step-Sole i (some (closed e)) n l v = v
  close_step-Sole i (some crashed) n l v = v
  close_step-Sole i none n l v = v

  nest_step-Sole :
      (e : Nest.Event Err) (n : Option (Nest.State Err)) (l : Line Err)
      → Sole l
      → Sole (nest_step timeout stages e n l)
  unfolding nest_step
  nest_step-Sole e none l v = v
  nest_step-Sole e (some n) l v =
      if_elim Sole (is_advance e && Nest.is_opening n.phase && not (is_over l.pipeline.shut)) _ _
        (enter-Sole l v) (other-Sole l _ v refl refl (omega arith))

  step-Sole : (e : Event Err) (l : Line Err) → Sole l → Sole (step timeout stages e l)
  unfolding step
  step-Sole run l v =
      let r : RunPc Err = entered in
      record {
        winners = omega (arith, v.winners, total-append won l.runners (r ∷ []), total-one won r);
        holder = omega (arith, v.holder, total-append holds l.runners (r ∷ []), total-one holds r);
      }
  step-Sole close l v = other-Sole l _ v refl refl (omega arith)
  step-Sole (run_at i e) l v = run_step-Sole i e (get_elem? l.runners i) l.nest l refl v
  step-Sole (close_at i) l v = close_step-Sole i (get_elem? l.closers i) l.nest l v
  step-Sole shutdown_step l v =
      other-Sole l _ v refl refl (shut_step_unbuilt l.pipeline.shut l.pipeline)
  step-Sole (by_nest e) l v = nest_step-Sole e l.nest l v

  history-Sole :
      (es : List (Event Err)) (l : Line Err) → Sole l → Sole (history timeout stages es l)
  unfolding history
  history-Sole [] l v = v
  history-Sole (e ∷ es) l v = history-Sole es (step timeout stages e l) (step-Sole e l v)

  start-Sole : (parent : Option Err) (cancels : List ℕ) → Sole (start parent cancels)
  unfolding start total
  start-Sole parent cancels = record { winners = omega arith; holder = refl }

  -- A pipeline runs once. After every history of a built pipeline, with any calls of `Run` and `Close`,
  -- any steps of `shutdown` and any events of its nest: at most one call of `Run` has won, which is when it returns nil, and
  -- none while the pipeline is still at `Lifetime_Built`; and the mutex is held exactly if one call of
  -- `Run` holds it, or one has panicked while it held it, since a panic does not give it back.
  pub run_once :
      (es : List (Event Err)) (parent : Option Err) (cancels : List ℕ)
      → let l = history timeout stages es (start parent cancels) in
        (total won l.runners + once (is_at l.pipeline.lifetime built) ≤ 1)
        × (total holds l.runners ≡ once l.locked)
  run_once es parent cancels =
      let v = history-Sole es (start parent cancels) (start-Sole parent cancels) in
      (v.winners, v.holder)
