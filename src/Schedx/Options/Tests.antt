-- ===== src/Schedx/Options/Tests.antt =====
-- Tests of the options, and the theorems on them at a concrete list of settings.
use concx.Prelude.{ℕ, suc, ◌≡◌, false, none, Option, List, [], ◌∷◌, last_or, map}
use concx.Prelude.Int.{pos}
use concx.Schedx.Tasks.{fifo}
use concx.Schedx.Options.{Options, three_seconds, configure}
use concx.Schedx.Options.Settings.{
  Setting, max_pending, parallel, unlimited, lifo_mode, applier, pending_of, parallel_of,
  timeout_of, mode_of, undetached_of, callback_of, exit_callback_of, callback, configure_last,
}

abbrev counts : ℕ → Option ℕ → ℕ → ℕ
counts task e w = suc w

abbrev chosen : List (Setting ℕ ℕ ℕ)
chosen = max_pending (pos 4) ∷ lifo_mode ∷ parallel (pos 20000) ∷ unlimited ∷ callback counts ∷ []

configure_last_example :
    let o : Options ℕ ℕ ℕ = configure (map applier chosen) in
    (o.max_pending ≡ last_or pending_of chosen (pos 1))
    × (o.parallel ≡ last_or parallel_of chosen (pos 1))
    × (o.close_timeout ≡ last_or timeout_of chosen three_seconds)
    × (o.mode ≡ last_or mode_of chosen fifo)
    × (o.disable_detached ≡ last_or undetached_of chosen false)
    × (o.callback ≡ last_or callback_of chosen none)
    × (o.user_exit_callback ≡ last_or exit_callback_of chosen none)
configure_last_example = configure_last chosen
