-- ===== src/Windows/Rules.antt =====
-- Which rule of a policy decides in Resolve.
use lifecycle_manager.Prelude.{
  ◌≡◌, refl, ap, ◌∙◌, ◌⊎◌, inl, inr, Bool, true, false, List, [], ◌∷◌, ◌++◌, All, Option, none,
  some, arith, if◌then◌else◌, Bool-cases,
}
use lifecycle_manager.Errors.{Result, ok, err, sentinel, no_window_in_policies}
use lifecycle_manager.Windows.Policy.{
  Runtime, ResolvedWindow, ResolveOptions, MaintenancePolicyRule, MaintenanceWindowPolicy,
  match_runtime, lookup_available, RulesResult, found, ended, resolve_rules, resolve_ended,
  resolve_default, resolve_with,
}

-- The first rule that matches the runtime.
abbrev pub first_match : List MaintenancePolicyRule → Runtime → Option MaintenancePolicyRule
first_match [] r = none
first_match (rule ∷ rules) r =
    if match_runtime rule.matches r then some rule else first_match rules r

-- The window that the options FirstMatchOnly and FallbackDefault stand for, by the documentation of
-- Resolve: one of the first matching rule, and, if it has none and FallbackDefault is set, or if no
-- rule matches, the default one. Which windows of a rule are available is left to LookupAvailable.
abbrev pub first_match_resolved :
    MaintenanceWindowPolicy → Runtime → ResolveOptions → Result ResolvedWindow
first_match_resolved p r o = elim (first_match p.rules r) [
  | none ↦ resolve_default p.default o
  | some rule ↦ elim (lookup_available rule.windows o) [
    | some w ↦ ok w
    | none ↦
        if o.fallback_default
        then resolve_default p.default o
        else err (sentinel no_window_in_policies)
  ]
]

abbrev first_result : ResolveOptions → Option MaintenancePolicyRule → RulesResult
first_result o none = ended false
first_result o (some rule) = elim (lookup_available rule.windows o) [
  | some w ↦ found w
  | none ↦ ended true
]

rules_first :
    (rules : List MaintenancePolicyRule) (r : Runtime) (o : ResolveOptions)
    → o.first_match_only ≡ true
    → resolve_rules false rules r o ≡ first_result o (first_match rules r)
unfolding resolve_rules
rules_first [] r o h = refl
rules_first (rule ∷ rules) r o h = elim (Bool-cases (match_runtime rule.matches r)) [
  | inl yes_match ↦ rw yes_match (ground arith)
  | inr no_match ↦ rw no_match (rules_first rules r o h)
]

ended_first :
    (p : MaintenanceWindowPolicy) (r : Runtime) (o : ResolveOptions)
    (m : Option MaintenancePolicyRule)
    → resolve_ended p o (first_result o m) ≡ elim m [
      | none ↦ resolve_default p.default o
      | some rule ↦ elim (lookup_available rule.windows o) [
        | some w ↦ ok w
        | none ↦
            if o.fallback_default
            then resolve_default p.default o
            else err (sentinel no_window_in_policies)
      ]
    ]
ended_first p r o m = ground arith

-- Where FirstMatchOnly is set, as it is by default, Resolve gives the window that LookupAvailable
-- finds in the first rule that matches the runtime. If it finds none there, Resolve gives the default
-- window with FallbackDefault and fails without it; if no rule matches, it gives the default window.
pub resolve_first_match :
    (p : MaintenanceWindowPolicy) (r : Runtime) (o : ResolveOptions)
    → o.first_match_only ≡ true
    → resolve_with p r o ≡ first_match_resolved p r o
unfolding resolve_with
resolve_first_match p r o h =
    ap (resolve_ended p o) (rules_first p.rules r o h) ∙ ended_first p r o (first_match p.rules r)

module _ (r : Runtime) (o : ResolveOptions) where
  -- The rule gives no window: it does not match, or it has none to give.
  abbrev pub GivesNone : MaintenancePolicyRule → Type 0
  GivesNone rule = (match_runtime rule.matches r ≡ false) ⊎ (lookup_available rule.windows o ≡ none)

  rules_lost :
      (matched : Bool) (rules : List MaintenancePolicyRule) (last : MaintenancePolicyRule)
      → o.first_match_only ≡ false
      → All GivesNone rules
      → match_runtime last.matches r ≡ false
      → resolve_rules matched (rules ++ last ∷ []) r o ≡ ended false
  unfolding resolve_rules
  rules_lost matched [] last f h l = rw l refl
  rules_lost matched (rule ∷ rules) last f h l =
      ground (arith, rules_lost (match_runtime rule.matches r) rules last f h.1 l)

  -- Where FirstMatchOnly is not set, no rule gives a window and the last rule does not match,
  -- Resolve goes on to the default window, also if FallbackDefault is not set and another rule
  -- has matched: the loop forgets that match.
  pub resolve_forgets_match :
      (p : MaintenanceWindowPolicy) (rules : List MaintenancePolicyRule)
      (last : MaintenancePolicyRule)
      → p.rules ≡ rules ++ last ∷ []
      → o.first_match_only ≡ false
      → All GivesNone rules
      → match_runtime last.matches r ≡ false
      → resolve_with p r o ≡ resolve_default p.default o
  unfolding resolve_with
  resolve_forgets_match p rules last e f h l =
      ap (λ x. resolve_ended p o (resolve_rules false x r o)) e
      ∙ ap (resolve_ended p o) (rules_lost false rules last f h l)
