-- ===== src/Windows/Tests.antt =====
-- The maintenance windows of a policy with a rule of nights of Mondays.
use lifecycle_manager.Prelude.{
  ℕ, ◌+◌, ◌*◌, ◌≡◌, refl, inr, true, false, String, Bool, [], ◌∷◌, Option, none, some, arith,
}
use lifecycle_manager.Windows.Time.{Time, day_seconds, date}
use lifecycle_manager.Windows.Policy.{
  ResolvedWindow, ResolveOptions, MaintenanceWindow, end_today, window_within, next_day_window,
  next_window, Runtime, MaintenancePolicyRule, MaintenanceWindowPolicy, match_runtime,
  lookup_available, resolve_default, resolve_with,
}
use lifecycle_manager.Windows.Active.{window_contains}
use lifecycle_manager.Windows.Days.{IsFirst, next_window-IsFirst}
use lifecycle_manager.Windows.Week.{next_window_found}
use lifecycle_manager.Windows.Rules.{
  first_match_resolved, resolve_first_match, resolve_forgets_match,
}
use lifecycle_manager.Windows.Midnight.{last_night, InLastNight, last_night_missed}

-- Mondays from 22:00 to 04:00.
abbrev mondays : MaintenanceWindow
mondays = record {
  days = "Mon" ∷ [];
  begin = record { clock = 79200; west = 86400 };
  end = record { clock = 14400; west = 86400 };
}

-- Second s of day d.
abbrev at : ℕ → ℕ → Time
at d s = record { clock = d * day_seconds + s; west = 86400 }

abbrev options : Time → ResolveOptions
options now = record {
  time = now;
  ongoing = false;
  min_duration = 3600;
  first_match_only = true;
  fallback_default = true;
}

-- Day 10 is a Wednesday, day 15 a Monday.
abbrev next_monday : ResolvedWindow
next_monday = record { begin = at 15 79200; end = at 16 14400 }

test_next_window : next_window mondays (options (at 10 3600)) ≡ some next_monday
unfolding next_window next_day_window window_within
test_next_window = refl

next_window-IsFirst_example :
    IsFirst 8
      (options (at 10 3600))
      mondays.days
      (date (at 10 3600) mondays.begin)
      (end_today (date (at 10 3600) mondays.begin) (date (at 10 3600) mondays.end))
      next_monday
next_window-IsFirst_example =
    next_window-IsFirst mondays (options (at 10 3600)) next_monday (λ e. cc) test_next_window

next_window_found_example :
    (w : ResolvedWindow) × (next_window mondays (options (at 8 80000)) ≡ some w)
next_window_found_example =
    next_window_found mondays (options (at 8 80000)) 1 (λ e. cc) (omega arith) refl refl
      (omega arith)

-- Tuesday at 01:00, within the window of Monday.
abbrev night : ResolveOptions
night = record (options (at 9 3600)) { ongoing = true; min_duration = 1200 }

in_night : InLastNight mondays (at 9 3600)
in_night = record {
  has_days = λ e. cc;
  same_zone = (refl, refl);
  second_day = omega arith;
  through_midnight = omega arith;
  before_end = omega arith;
  day_before = refl;
}

test_night : next_window mondays night ≡ some next_monday
unfolding next_window next_day_window window_within
test_night = refl

last_night_missed_example :
    (window_contains (last_night mondays night.time) night.time ≡ true)
    × (window_contains next_monday night.time ≡ false)
last_night_missed_example = last_night_missed mondays night next_monday in_night test_night

abbrev runtime : Runtime
runtime = record { global_account_id = "ga"; plan = "azure"; region = "eu"; platform_region = "cf" }

-- A rule that matches each plan (or none) and has no windows.
abbrev plan_rule : Option (Option (String → Bool)) → MaintenancePolicyRule
plan_rule p = record {
  matches = record { global_account_id = none; plan = p; region = none; platform_region = none };
  windows = [];
}

abbrev policy : MaintenanceWindowPolicy
policy = record {
  rules = plan_rule (some (some (λ s. true))) ∷ plan_rule none ∷ [];
  default = mondays;
}

resolve_first_match_example :
    resolve_with policy runtime (options (at 10 0))
    ≡ first_match_resolved policy runtime (options (at 10 0))
resolve_first_match_example = resolve_first_match policy runtime (options (at 10 0)) refl

-- Neither the first match alone, nor the default window.
abbrev no_fallback : ResolveOptions
no_fallback = record (options (at 10 0)) { first_match_only = false; fallback_default = false }

resolve_forgets_match_example :
    resolve_with policy runtime no_fallback ≡ resolve_default policy.default no_fallback
unfolding match_runtime lookup_available
resolve_forgets_match_example =
    resolve_forgets_match runtime no_fallback policy (plan_rule (some (some (λ s. true))) ∷ [])
      (plan_rule none) refl refl (inr refl, tt) refl
