-- ===== src/Orch/Cron/Schedule.antt =====
-- pkg/orch/cron/schedule.go: schedules, and how a specification is read. A text is the list of its code
-- points, a time counts nanoseconds from a start in the past.
use concx.Prelude.{ℕ, suc, ◌+◌, ◌-◌, ◌==◌, Option, none, some, List, [], ◌∷◌, if◌then◌else◌}
use concx.Prelude.Int.{ℤ, pos, negsuc}
use concx.Schedx.Options.{apply}
use concx.Orch.Cron.{CronOptions, default_option}

abbrev pub Text : Type 0
Text = List ℕ

-- `t.Add(d)`
abbrev pub add_time : ℕ → ℤ → ℕ
add_time t (pos n) = t + n
add_time t (negsuc n) = t - suc n

-- `every`, and the schedules of the parser. `Next` gives none for the zero time.
pub data Schedule : Type 0 where
  every : (duration : ℤ) → Schedule
  custom : (ℕ → Option ℕ) → Schedule

unfoldable pub next : Schedule → ℕ → Option ℕ
next (every d) t = some (add_time t d)
next (custom f) t = f t

-- What a parser gives: a schedule, or an error.
pub data Parsed (A Err : Type 0) : Type 0 where
  parsed : A → Parsed A Err
  failed : Err → Parsed A Err

-- `strings.CutPrefix`
abbrev pub cut_prefix : Text → Text → Option Text
cut_prefix [] ys = some ys
cut_prefix (x ∷ xs) [] = none
cut_prefix (x ∷ xs) (y ∷ ys) = let rest = cut_prefix xs ys in if x == y then rest else none

-- `"@every "`
abbrev pub every_prefix : Text
every_prefix = 64 ∷ 101 ∷ 118 ∷ 101 ∷ 114 ∷ 121 ∷ 32 ∷ []

-- With `strings.TrimSpace`, `time.ParseDuration` and `parser.Parse`.
module _ {Err : Type 0} (trim : Text → Text) (parse_duration : Text → Parsed ℤ Err) where
  abbrev every_of : Parsed ℤ Err → Parsed Schedule Err
  every_of (parsed d) = parsed (every d)
  every_of (failed e) = failed e

  abbrev read_spec : (Text → Parsed Schedule Err) → Text → Option Text → Parsed Schedule Err
  read_spec parser spec none = parser spec
  read_spec parser spec (some after) = every_of (parse_duration (trim after))

  unfoldable pub parse_schedule : Text → (Text → Parsed Schedule Err) → Parsed Schedule Err
  parse_schedule spec parser = read_spec parser spec (cut_prefix every_prefix spec)

-- `cfg` of `New` and of `NewWithSchedule`.
unfoldable pub configure_cron :
    {Name Loc Parser T Err W : Type 0}
    → Name
    → Loc
    → Parser
    → List (CronOptions Name Loc Parser T Err W → CronOptions Name Loc Parser T Err W)
    → CronOptions Name Loc Parser T Err W
unfolding default_option
configure_cron empty local default_parser opts =
    apply opts (default_option empty local default_parser)

abbrev with_cfg : {A B Err : Type 0} → B → Parsed A Err → Parsed (A × B) Err
with_cfg cfg (parsed s) = parsed (s, cfg)
with_cfg cfg (failed e) = failed e

-- `New`, up to what it gives to `newCron`.
unfoldable pub new_spec :
    {Name Loc T Err W : Type 0}
    → (Text → Text)
    → (Text → Parsed ℤ Err)
    → Text
    → CronOptions Name Loc (Text → Parsed Schedule Err) T Err W
    → Parsed (Schedule × CronOptions Name Loc (Text → Parsed Schedule Err) T Err W) Err
unfolding parse_schedule
new_spec trim parse_duration spec cfg =
    with_cfg cfg (parse_schedule trim parse_duration spec cfg.parser)
