-- ===== src/Orch/Pipe/Parallel/Steps.antt =====
-- pkg/orch/pipe/node.go: every step of a `ParallelNode`'s round keeps what holds of its jobs.
use concx.Prelude.{
  ℕ, zero, suc, ◌+◌, ◌≡◌, refl, sym, ap, ◌∙◌, inl, inr, Bool, true, false, Option, none, some, List,
  [], ◌∷◌, arith, length, get_elem?, set, total, total-append, total-one, total-set, total-get,
  length-append, length-set, Indexed, Indexed-append_one, Indexed-get, Indexed-imp, Indexed-set,
  Bool-cases, if_elim, subst, if◌then◌else◌,
}
use concx.Prelude.Int.{is_zero, sub_one}
use concx.Codex.{Codex, error, other}
use concx.Nest
use concx.Nest.Invariant
use concx.Nest.Closing.{own-live}
use concx.Orch.Pipe.Stages.{JobEnd, returns, execute}
use concx.Orch.Pipe.Parallel.{
  JobPc, working, failing, refusing, storing, counting, completing, leaving, gone, SpawnPc,
  spawning, broken, canceling, awaiting, Request, asked, answered, Round, Event, spawn_step, job_at,
  cancel_at, advance, watch_inherited, watch_dispatched, parent_done, start, swap, put_job,
  cancel_step, worked, job_step, spawned, spawn_at, own_step, step, history,
}
use concx.Orch.Pipe.Parallel.Jobs.{
  SpawnOk-swap, alive, IsCause, Causes, JobOk, swap_some, swap-Causes, JobOk-swap, JobOk-store,
  SpawnOk, Sound,
}

module _ {Out Err : Type 0} ⦃x : Codex Err⦄ where
  module _ (ends : List (JobEnd Out Err)) where
    -- A job's step: what it leaves of the others, and where it gets.
    put-Sound :
        (r u : Round Out Err) (i : ℕ) (p q : JobPc Out Err)
        → get_elem? r.jobs i ≡ some p
        → Sound ends r
        → (u.nest.live + alive p ≡ r.nest.live + alive q)
        → Invariant.Inv {Env = Unit {0}} Nest.no_options u.nest
        → Causes ends u.fail
        → ((j : ℕ) (w : JobPc Out Err) → JobOk ends r.fail r.res j w → JobOk ends u.fail u.res j w)
        → JobOk ends u.fail u.res i q
        → SpawnOk ends u.fail (length r.jobs) u.spawner
        → u.jobs ≡ set r.jobs i q
        → Sound ends u
    put-Sound r u i p q g v live inv causes keeps ok spawns same = record {
      counted = omega (
        arith,
        live,
        v.counted,
        total-set alive r.jobs i p q g,
        total-get alive r.jobs i p g,
        ap (total alive) same,
      );
      nested = inv;
      failed = causes;
      worked = subst (Indexed (JobOk ends u.fail u.res)) (sym same) (
          Indexed-set (JobOk ends r.fail r.res) (JobOk ends u.fail u.res) keeps r.jobs i q v.worked
            ok);
      spawns =
          subst (λ n. SpawnOk ends u.fail n u.spawner)
            (sym (ap length same ∙ length-set r.jobs i q)) spawns;
    }

    module _ (zero_out : Out) where
      -- Where `execute` gets to.
      worked-JobOk :
          (i : ℕ) (e : JobEnd Out Err) (f : Option Err) (res : ℕ → Option Out)
          → get_elem? ends i ≡ some e
          → (JobOk ends f res i (worked zero_out (execute zero_out e)))
            × (alive (worked zero_out (execute zero_out e)) ≡ 1)
      unfolding execute
      worked-JobOk i (returns out none) f res g = (g, refl)
      worked-JobOk i (returns out (some e)) f res g = (inl (i, returns out (some e), g, refl), refl)
      worked-JobOk i (JobEnd.panics (error e)) f res g =
          (inl (i, JobEnd.panics (error e), g, refl), refl)
      worked-JobOk i (JobEnd.panics other) f res g = (inl (i, JobEnd.panics other, g, refl), refl)

      working-Sound :
          (i : ℕ) (o : Option (JobEnd Out Err)) (r : Round Out Err)
          → get_elem? ends i ≡ o
          → get_elem? r.jobs i ≡ some working
          → Sound ends r
          → Sound ends (elim o as (λ _. Round Out Err) [
            | none ↦ r
            | some e ↦ put_job i (worked zero_out (execute zero_out e)) r
          ])
      working-Sound i none r h g v = v
      working-Sound i (some e) r h g v =
          let (ok, one) = worked-JobOk i e r.fail r.res h in
          put-Sound r _ i working (worked zero_out (execute zero_out e)) g v
            (ap (λ n. r.nest.live + n) (sym one)) v.nested v.failed (λ j w k. k) ok v.spawns refl

      -- What the invariant says of the job at an index.
      pub job_at-JobOk :
          (i : ℕ) (p : JobPc Out Err) (r : Round Out Err)
          → get_elem? r.jobs i ≡ some p
          → Sound ends r
          → JobOk ends r.fail r.res i p
      job_at-JobOk i p r g v = Indexed-get (JobOk ends r.fail r.res) r.jobs i p g v.worked

      counting-Sound :
          (i : ℕ) (b : Bool) (r : Round Out Err)
          → get_elem? r.jobs i ≡ some counting
          → Sound ends r
          → Sound ends
              (put_job i (if b then completing else leaving) (record r { left = sub_one r.left }))
      counting-Sound i true r g v =
          put-Sound r _ i counting completing g v refl v.nested v.failed (λ j w k. k)
            (job_at-JobOk i counting r g v) v.spawns refl
      counting-Sound i false r g v =
          put-Sound r _ i counting leaving g v refl v.nested v.failed (λ j w k. k)
            (inl (job_at-JobOk i counting r g v)) v.spawns refl

      job_step-Sound :
          (i : ℕ) (p : Option (JobPc Out Err)) (r : Round Out Err)
          → get_elem? r.jobs i ≡ p
          → Sound ends r
          → Sound ends (job_step zero_out ends i p r)
      unfolding job_step Nest.wg_done
      job_step-Sound i none r g v = v
      job_step-Sound i (some working) r g v = working-Sound i (get_elem? ends i) r refl g v
      job_step-Sound i (some (failing e)) r g v =
          put-Sound r _ i (failing e) (refusing e) g v refl v.nested
            (swap-Causes ends r.fail e (job_at-JobOk i (failing e) r g v) v.failed)
            (JobOk-swap ends r.fail e r.res) (swap_some ends r.fail e)
            (SpawnOk-swap ends r.fail e (length r.jobs) r.spawner v.spawns) refl
      job_step-Sound i (some (refusing e)) r g v =
          put-Sound r _ i (refusing e) leaving g v refl v.nested v.failed (λ j w k. k)
            (inr (job_at-JobOk i (refusing e) r g v)) v.spawns refl
      job_step-Sound i (some (storing out)) r g v =
          let ok = job_at-JobOk i (storing out) r g v in
          put-Sound r _ i (storing out) counting g v refl v.nested v.failed
            (JobOk-store ends r.fail r.res i out ok) (out, ground arith, ok) v.spawns refl
      job_step-Sound i (some counting) r g v = counting-Sound i (is_zero (sub_one r.left)) r g v
      job_step-Sound i (some completing) r g v =
          put-Sound r _ i completing leaving g v refl v.nested v.failed (λ j w k. k)
            (inl (job_at-JobOk i completing r g v)) v.spawns refl
      job_step-Sound i (some leaving) r g v =
          put-Sound r _ i leaving gone g v
            (omega (arith, v.counted, total-get alive r.jobs i leaving g))
            (Invariant.wg_done-Inv {Env = Unit {0}} Nest.no_options r.nest v.nested) v.failed
            (λ j w k. k) (job_at-JobOk i leaving r g v) v.spawns refl
      job_step-Sound i (some gone) r g v = v

      -- Steps that change the nest alone, and the requests.
      nest-Sound :
          (r : Round Out Err) (n : Nest.State Err) (qs : List (Request Err))
          → n.live ≡ r.nest.live
          → Invariant.Inv {Env = Unit {0}} Nest.no_options n
          → Sound ends r
          → Sound ends (record r { nest = n; requests = qs })
      nest-Sound r n qs e i v = record {
        counted = e ∙ v.counted;
        nested = i;
        failed = v.failed;
        worked = v.worked;
        spawns = v.spawns;
      }

      cancel_step-Sound :
          (i : ℕ) (q : Option (Request Err)) (r : Round Out Err)
          → Sound ends r
          → Sound ends (cancel_step i q r)
      unfolding cancel_step
      cancel_step-Sound i (some (asked c)) r v = elim (Bool-cases (Nest.is_free r.nest.phase)) [
        | inl f ↦ rw f (
            nest-Sound r (Nest.cancel_locked c r.nest) (set r.requests i answered)
              (unfold Nest.cancel_locked in ground arith)
              (Invariant.cancel_locked-Inv {Env = Unit {0}} Nest.no_options c r.nest f v.nested) v)
        | inr f ↦ rw f v
      ]
      cancel_step-Sound i (some answered) r v = v
      cancel_step-Sound i none r v = v

      own-Sound :
          (e : Nest.Event Err) (r : Round Out Err)
          → (Nest.step {Env = Unit {0}} Nest.no_options e r.nest tt).0.live ≡ r.nest.live
          → Sound ends r
          → Sound ends (own_step zero_out e r)
      own-Sound e r l v =
          nest-Sound r _ r.requests l
            (Invariant.step-Inv {Env = Unit {0}} Nest.no_options e r.nest tt v.nested) v

      -- What `Spawn` gives: a goroutine more, or an error of a closed nest.
      abbrev Spawns : Nest.State Err → Nest.State Err × Option Err → Type 0
      Spawns m (n, none) = n.live ≡ m.live + 1
      Spawns m (n, some e) = (n.live ≡ m.live) × IsCause ends e

      spawn-Spawns : (m : Nest.State Err) → Spawns m (Nest.spawn_locked m)
      unfolding Nest.spawn_locked
      spawn-Spawns m =
          if_elim {A = Nest.State Err × Option Err} (Spawns m) m.canceled _ _ (refl, inr refl) refl

      spawned-Sound :
          (m : ℕ) (n : Nest.State Err) (o : Option Err) (r : Round Out Err)
          → r.spawner ≡ spawning (suc m)
          → Invariant.Inv {Env = Unit {0}} Nest.no_options n
          → Spawns r.nest (n, o)
          → Sound ends r
          → Sound ends (spawned zero_out m (n, o) r)
      spawned-Sound m n (some e) r f inv l v = record {
        counted = l.0 ∙ v.counted;
        nested = inv;
        failed = v.failed;
        worked = v.worked;
        spawns = l.1;
      }
      spawned-Sound m n none r f inv l v =
          let w : JobPc Out Err = working in
          record {
            counted =
                omega (arith, l, v.counted, total-append alive r.jobs (w ∷ []), total-one alive w);
            nested = inv;
            failed = v.failed;
            worked = Indexed-append_one (JobOk ends r.fail r.res) r.jobs w v.worked tt;
            spawns = omega (
              arith,
              length-append r.jobs (w ∷ []),
              subst (SpawnOk ends r.fail (length r.jobs)) f v.spawns,
            );
          }

      spawn_at-Sound :
          (p : SpawnPc Err) (r : Round Out Err)
          → r.spawner ≡ p
          → Sound ends r
          → Sound ends (spawn_at zero_out p r)
      unfolding spawn_at
      spawn_at-Sound (spawning zero) r f v = record {
        counted = v.counted;
        nested = v.nested;
        failed = v.failed;
        worked = v.worked;
        spawns = inl (omega (arith, subst (SpawnOk ends r.fail (length r.jobs)) f v.spawns));
      }
      spawn_at-Sound (spawning (suc m)) r f v = elim (Bool-cases (Nest.is_free r.nest.phase)) [
        | inl g ↦
            let (n, e) = Nest.spawn_locked r.nest in
            rw g (
              spawned-Sound m n e r f
                (Invariant.spawn_locked-Inv {Env = Unit {0}} Nest.no_options r.nest g v.nested)
                (spawn-Spawns r.nest) v)
        | inr g ↦ rw g v
      ]
      spawn_at-Sound (broken e) r f v = record {
        counted = v.counted;
        nested = v.nested;
        failed =
            swap-Causes ends r.fail e (subst (SpawnOk ends r.fail (length r.jobs)) f v.spawns)
              v.failed;
        worked =
            Indexed-imp (JobOk ends r.fail r.res) (JobOk ends (swap r.fail e) r.res)
              (JobOk-swap ends r.fail e r.res) r.jobs v.worked;
        spawns = swap_some ends r.fail e;
      }
      spawn_at-Sound (canceling e) r f v = record {
        counted = v.counted;
        nested = v.nested;
        failed = v.failed;
        worked = v.worked;
        spawns = inr (subst (SpawnOk ends r.fail (length r.jobs)) f v.spawns);
      }
      spawn_at-Sound awaiting r f v = v

      step-Sound :
          (e : Event Err) (r : Round Out Err) → Sound ends r → Sound ends (step zero_out ends e r)
      unfolding step
      step-Sound spawn_step r v = spawn_at-Sound r.spawner r refl v
      step-Sound (job_at i) r v = job_step-Sound i (get_elem? r.jobs i) r refl v
      step-Sound (cancel_at i) r v = cancel_step-Sound i (get_elem? r.requests i) r v
      step-Sound advance r v =
          own-Sound Nest.advance r (own-live Nest.no_options Nest.advance r.nest tt tt) v
      step-Sound watch_inherited r v =
          own-Sound Nest.watch_inherited r
            (own-live Nest.no_options Nest.watch_inherited r.nest tt tt) v
      step-Sound watch_dispatched r v =
          own-Sound Nest.watch_dispatched r
            (own-live Nest.no_options Nest.watch_dispatched r.nest tt tt) v
      step-Sound (parent_done e) r v =
          own-Sound (Nest.parent_done e) r
            (own-live Nest.no_options (Nest.parent_done e) r.nest tt tt) v

      pub history-Sound :
          (es : List (Event Err)) (r : Round Out Err)
          → Sound ends r
          → Sound ends (history zero_out ends es r)
      unfolding history
      history-Sound [] r v = v
      history-Sound (e ∷ es) r v = history-Sound es (step zero_out ends e r) (step-Sound e r v)

      pub start-Sound : (parent : Option Err) → Sound ends (start parent ends)
      unfolding start Nest.new total
      start-Sound parent = record {
        counted = refl;
        nested = inl (refl, refl);
        failed = tt;
        worked = tt;
        spawns = omega arith;
      }
