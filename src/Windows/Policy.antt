-- ===== src/Windows/Policy.antt =====
-- maintenancewindows/resolver/maintwindow.go: Resolve and what it calls.
use lifecycle_manager.Prelude.{
  ℕ, zero, suc, String, str_eq, Bool, true, false, not, ◌&&◌, ◌||◌, List, [], ◌∷◌, Option, none,
  some, if◌then◌else◌, contains,
}
use lifecycle_manager.Errors.{
  sentinel, Result, ok, err, unknown_option, no_window_in_policies, no_window_found,
}
use lifecycle_manager.Windows.Time.{Time, day_seconds, before, equal, add, date, weekday, day_name}

pub record ResolvedWindow : Type 0 where
  pub begin : Time
  pub end : Time

-- resolveOptions
pub record ResolveOptions : Type 0 where
  pub time : Time
  pub ongoing : Bool
  pub min_duration : ℕ
  pub first_match_only : Bool
  pub fallback_default : Bool

-- The typed arguments of Resolve; `other` is one of any other type.
pub data ResolveOption : Type 0 where
  time_stamp : Time → ResolveOption
  ongoing_window : Bool → ResolveOption
  min_window_size : ℕ → ResolveOption
  first_match_only : Bool → ResolveOption
  fallback_default : Bool → ResolveOption
  other : ResolveOption

unfoldable pub default_options : Time → ResolveOptions
default_options now = record {
  time = now;
  ongoing = false;
  min_duration = 3600;
  first_match_only = true;
  fallback_default = true;
}

-- The loop over the arguments.
unfoldable pub apply_options : ResolveOptions → List ResolveOption → Result ResolveOptions
apply_options o [] = ok o
apply_options o (time_stamp t ∷ opts) = apply_options (record o { time = t }) opts
apply_options o (ongoing_window b ∷ opts) = apply_options (record o { ongoing = b }) opts
apply_options o (min_window_size d ∷ opts) = apply_options (record o { min_duration = d }) opts
apply_options o (first_match_only b ∷ opts) = apply_options (record o { first_match_only = b }) opts
apply_options o (fallback_default b ∷ opts) = apply_options (record o { fallback_default = b }) opts
apply_options o (other ∷ opts) = err (sentinel unknown_option)

unfoldable pub window_within : ResolveOptions → Time → Time → Option ResolvedWindow
window_within o begin end =
    if not o.ongoing
    then (if before o.time begin then some (record { begin = begin; end = end }) else none)
    else (if before (add o.time o.min_duration) end
        then some (record { begin = begin; end = end })
        else none)

pub record MaintenanceWindow : Type 0 where
  pub days : List String
  pub begin : Time
  pub end : Time

-- The day of a candidate window is among the days of the rule.
abbrev pub on_day : List String → Time → Bool
on_day days begin = contains days (day_name (weekday begin))

-- The loop of NextWindow over the days to come.
unfoldable pub next_day_window :
    ℕ → ResolveOptions → List String → Time → Time → Option ResolvedWindow
unfolding window_within
next_day_window zero o days begin end = none
next_day_window (suc n) o days begin end =
    let rest = next_day_window n o days (add begin day_seconds) (add end day_seconds) in
    if not (on_day days begin)
    then rest
    else elim (window_within o begin end) [ some w ↦ some w | none ↦ rest ]

-- The end of today's window: a day later if the window goes through midnight.
abbrev pub end_today : Time → Time → Time
end_today begin end = if before end begin || equal end begin then add end day_seconds else end

unfoldable pub next_window : MaintenanceWindow → ResolveOptions → Option ResolvedWindow
unfolding next_day_window
next_window mw o = elim mw.days [
  | [] ↦ window_within o mw.begin mw.end
  | d ∷ ds ↦
      let begin = date o.time mw.begin in
      next_day_window 8 o (d ∷ ds) begin (end_today begin (date o.time mw.end))
]

-- (mws *MaintenanceWindows) LookupAvailable
unfoldable pub lookup_available : List MaintenanceWindow → ResolveOptions → Option ResolvedWindow
unfolding next_window
lookup_available [] o = none
lookup_available (mw ∷ mws) o =
    let rest = lookup_available mws o in elim (next_window mw o) [ some w ↦ some w | none ↦ rest ]

-- resolver.Runtime: the fields that a policy matches.
pub record Runtime : Type 0 where
  pub global_account_id : String
  pub plan : String
  pub region : String
  pub platform_region : String

-- A Regexp whose compiled expression is nil is `none`, otherwise it is what the expression matches.
abbrev pub Regexp : Type 0
Regexp = Option (String → Bool)

-- A nil field is `none`.
pub record MaintenancePolicyMatch : Type 0 where
  pub global_account_id : Option Regexp
  pub plan : Option Regexp
  pub region : Option Regexp
  pub platform_region : Option Regexp

-- One round of the loop of Match.
abbrev pub match_field : Option Regexp → String → Bool
match_field none value = false
match_field (some none) value = false
match_field (some (some matches)) value = not (str_eq value "") && matches value

unfoldable pub match_runtime : MaintenancePolicyMatch → Runtime → Bool
match_runtime m r =
    match_field m.global_account_id r.global_account_id
    || match_field m.plan r.plan
    || match_field m.region r.region
    || match_field m.platform_region r.platform_region

pub record MaintenancePolicyRule : Type 0 where
  pub matches : MaintenancePolicyMatch
  pub windows : List MaintenanceWindow

pub record MaintenanceWindowPolicy : Type 0 where
  pub rules : List MaintenancePolicyRule
  pub default : MaintenanceWindow

-- The loop over the rules: a window that it returns, or the variable `matched` behind the loop.
pub data RulesResult : Type 0 where
  found : ResolvedWindow → RulesResult
  ended : Bool → RulesResult

unfoldable pub resolve_rules :
    Bool → List MaintenancePolicyRule → Runtime → ResolveOptions → RulesResult
unfolding match_runtime lookup_available
resolve_rules matched [] r o = ended matched
resolve_rules matched (rule ∷ rules) r o =
    let rest = resolve_rules (match_runtime rule.matches r) rules r o in
    if not (match_runtime rule.matches r) then rest else elim (lookup_available rule.windows o) [
      | some w ↦ found w
      | none ↦ if o.first_match_only then ended true else rest
    ]

-- The end of Resolve, behind the loop.
unfoldable pub resolve_default : MaintenanceWindow → ResolveOptions → Result ResolvedWindow
unfolding next_window
resolve_default mw o = elim (next_window mw o) [
  | some w ↦ ok w
  | none ↦ err (sentinel no_window_found)
]

abbrev pub resolve_ended :
    MaintenanceWindowPolicy → ResolveOptions → RulesResult → Result ResolvedWindow
resolve_ended p o (found w) = ok w
resolve_ended p o (ended matched) =
    if matched && not o.fallback_default
    then err (sentinel no_window_in_policies)
    else resolve_default p.default o

-- Resolve with its options set.
unfoldable pub resolve_with :
    MaintenanceWindowPolicy → Runtime → ResolveOptions → Result ResolvedWindow
unfolding resolve_rules resolve_default
resolve_with p r o = resolve_ended p o (resolve_rules false p.rules r o)

-- (mwp *MaintenanceWindowPolicy) Resolve, at the time `now`.
unfoldable pub resolve :
    MaintenanceWindowPolicy → Time → Runtime → List ResolveOption → Result ResolvedWindow
unfolding resolve_with apply_options default_options
resolve p now r opts = elim (apply_options (default_options now) opts) [
  | err e ↦ err e
  | ok o ↦ resolve_with p r o
]
