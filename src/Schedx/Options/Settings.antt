-- ===== src/Schedx/Options/Settings.antt =====
-- pkg/schedx/option.go: what a list of settings comes to.
use concx.Prelude.{
  ◌≡◌, refl, ◌≤◌, Bool, true, false, Option, none, some, List, [], ◌∷◌, map, last_or, or_else, ap,
  ◌∙◌, arith,
}
use concx.Prelude.Int.{ℤ, pos, negsuc, min_ℤ, rounds}
use concx.Schedx.Tasks.{ScheduleMode, fifo, lifo}
use concx.Schedx.Options.{
  Options, max_parallel, three_seconds, set_default, with_max_pending, with_parallel,
  without_pending_limitation, with_callback, with_exit_callback, with_fifo_schedule_mode,
  with_lifo_schedule_mode, with_close_timeout, without_detached, apply, configure,
}

-- A call of one of the functions that make an option.
pub data Setting (T Err W : Type 0) : Type 0 where
  max_pending parallel close_timeout : ℤ → Setting T Err W
  unlimited fifo_mode lifo_mode undetached : Setting T Err W
  callback : (T → Option Err → W → W) → Setting T Err W
  exit_callback : (List T → Err → W → W) → Setting T Err W

-- A loop over the appliers of some settings, and an option `get` on which a setting decides by `of`.
module _ {O A V : Type 0} (applier_of : A → O → O) (get : O → V) (of : A → Option V)
    (one : (a : A) (o : O) → get (applier_of a o) ≡ or_else (of a) (get o)) where
  pub apply_last : (xs : List A) (o : O) → get (apply (map applier_of xs) o) ≡ last_or of xs (get o)
  unfolding apply
  apply_last [] o = refl
  apply_last (a ∷ xs) o = apply_last xs (applier_of a o) ∙ ap (last_or of xs) (one a o)

pub min_capped : (n : ℤ) → rounds (min_ℤ n max_parallel) ≤ 10000
min_capped (pos n) = ground arith
min_capped (negsuc n) = ground arith

module _ {T Err W : Type 0} where
  abbrev pub applier : Setting T Err W → Options T Err W → Options T Err W
  applier (max_pending n) = with_max_pending n
  applier (parallel n) = with_parallel n
  applier (close_timeout n) = with_close_timeout n
  applier unlimited = without_pending_limitation
  applier fifo_mode = with_fifo_schedule_mode
  applier lifo_mode = with_lifo_schedule_mode
  applier undetached = without_detached
  applier (callback f) = with_callback f
  applier (exit_callback f) = with_exit_callback f

  -- What a setting says of each option.
  abbrev pub pending_of : Setting T Err W → Option ℤ
  pending_of (max_pending n) = some n
  pending_of unlimited = some (negsuc 0)
  pending_of _ = none

  abbrev pub parallel_of : Setting T Err W → Option ℤ
  parallel_of (parallel n) = some (min_ℤ n max_parallel)
  parallel_of _ = none

  abbrev pub timeout_of : Setting T Err W → Option ℤ
  timeout_of (close_timeout n) = some n
  timeout_of _ = none

  abbrev pub mode_of : Setting T Err W → Option ScheduleMode
  mode_of fifo_mode = some fifo
  mode_of lifo_mode = some lifo
  mode_of _ = none

  abbrev pub undetached_of : Setting T Err W → Option Bool
  undetached_of undetached = some true
  undetached_of _ = none

  abbrev pub callback_of : Setting T Err W → Option (Option (T → Option Err → W → W))
  callback_of (callback f) = some (some f)
  callback_of _ = none

  abbrev pub exit_callback_of : Setting T Err W → Option (Option (List T → Err → W → W))
  exit_callback_of (exit_callback f) = some (some f)
  exit_callback_of _ = none

  applier-lem :
      (a : Setting T Err W) (o : Options T Err W)
      → let o' = applier a o in
        (o'.max_pending ≡ or_else (pending_of a) o.max_pending)
        × (o'.parallel ≡ or_else (parallel_of a) o.parallel)
        × (o'.close_timeout ≡ or_else (timeout_of a) o.close_timeout)
        × (o'.mode ≡ or_else (mode_of a) o.mode)
        × (o'.disable_detached ≡ or_else (undetached_of a) o.disable_detached)
        × (o'.callback ≡ or_else (callback_of a) o.callback)
        × (o'.user_exit_callback ≡ or_else (exit_callback_of a) o.user_exit_callback)
  unfolding with_max_pending with_parallel without_pending_limitation with_callback
      with_exit_callback with_fifo_schedule_mode with_lifo_schedule_mode with_close_timeout
      without_detached
  applier-lem (max_pending n) o = (refl, refl, refl, refl, refl, refl, refl)
  applier-lem (parallel n) o = (refl, refl, refl, refl, refl, refl, refl)
  applier-lem (close_timeout n) o = (refl, refl, refl, refl, refl, refl, refl)
  applier-lem unlimited o = (refl, refl, refl, refl, refl, refl, refl)
  applier-lem fifo_mode o = (refl, refl, refl, refl, refl, refl, refl)
  applier-lem lifo_mode o = (refl, refl, refl, refl, refl, refl, refl)
  applier-lem undetached o = (refl, refl, refl, refl, refl, refl, refl)
  applier-lem (callback f) o = (refl, refl, refl, refl, refl, refl, refl)
  applier-lem (exit_callback f) o = (refl, refl, refl, refl, refl, refl, refl)

  -- `NewScheduler` with any list of settings: for each option the last setting decides, whatever the
  -- others are, and without one it is the default: room for one task, one worker, three seconds,
  -- FIFO, detached, and neither a callback nor an exit callback. (A zero that a setting gives stays
  -- zero.)
  pub configure_last :
      (ss : List (Setting T Err W))
      → let o : Options T Err W = configure (map applier ss) in
        (o.max_pending ≡ last_or pending_of ss (pos 1))
        × (o.parallel ≡ last_or parallel_of ss (pos 1))
        × (o.close_timeout ≡ last_or timeout_of ss three_seconds)
        × (o.mode ≡ last_or mode_of ss fifo)
        × (o.disable_detached ≡ last_or undetached_of ss false)
        × (o.callback ≡ last_or callback_of ss none)
        × (o.user_exit_callback ≡ last_or exit_callback_of ss none)
  unfolding configure set_default
  configure_last ss = (
    apply_last applier (λ o. o.max_pending) pending_of (λ a o. (applier-lem a o).0) ss _,
    apply_last applier (λ o. o.parallel) parallel_of (λ a o. (applier-lem a o).1) ss _,
    apply_last applier (λ o. o.close_timeout) timeout_of (λ a o. (applier-lem a o).2) ss _,
    apply_last applier (λ o. o.mode) mode_of (λ a o. (applier-lem a o).3) ss _,
    apply_last applier (λ o. o.disable_detached) undetached_of (λ a o. (applier-lem a o).4) ss _,
    apply_last applier (λ o. o.callback) callback_of (λ a o. (applier-lem a o).5) ss _,
    apply_last applier (λ o. o.user_exit_callback) exit_callback_of (λ a o. (applier-lem a o).6) ss
        _,
  )

  capped_last :
      (ss : List (Setting T Err W)) (d : ℤ)
      → rounds d ≤ 10000
      → rounds (last_or parallel_of ss d) ≤ 10000
  capped_last [] d h = h
  capped_last (parallel n ∷ ss) d h = capped_last ss (min_ℤ n max_parallel) (min_capped n)
  capped_last (s ∷ ss) d h = ground (arith, capped_last ss d)

  -- `NewScheduler` with any list of settings starts at most `MaxParallel` workers.
  pub configure_capped :
      (ss : List (Setting T Err W))
      → let o : Options T Err W = configure (map applier ss) in rounds o.parallel ≤ 10000
  configure_capped ss =
      let parallels = (configure_last ss).1 in rw parallels (capped_last ss (pos 1) (omega arith))
