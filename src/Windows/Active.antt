-- ===== src/Windows/Active.antt =====
-- internal/maintenancewindows/maintenance_window.go: IsRequired and IsActive.
use lifecycle_manager.Prelude.{
  String, str_eq, Bool, true, false, not, ◌&&◌, ℕ, [], ◌∷◌, Option, none, some, lookup,
  if◌then◌else◌,
}
use lifecycle_manager.Errors.{sentinel, Result, ok, err, no_maintenance_window_policy_configured}
use lifecycle_manager.Api.{Kyma, ModuleTemplate, get_module_status}
use lifecycle_manager.Windows.Time.{Time, before, after}
use lifecycle_manager.Windows.Policy.{
  Runtime, ResolvedWindow, MaintenanceWindowPolicy, ongoing_window, min_window_size, resolve,
}

unfoldable pub is_required : ModuleTemplate → Kyma → Bool
unfolding get_module_status
is_required template kyma =
    if not template.requires_downtime
    then false
    else if kyma.spec.skip_maintenance_windows
    then false
    else elim (get_module_status kyma.status.modules template.module_name) [
      | none ↦ false
      | some status ↦ not (str_eq status.version template.version)
    ]

-- A label, where a missing one reads as the empty text.
abbrev pub label_or_empty : String → Kyma → String
label_or_empty key kyma = elim (lookup key kyma.meta.labels) [ none ↦ "" | some v ↦ v ]

abbrev pub runtime_of : Kyma → Runtime
runtime_of kyma = record {
  global_account_id = label_or_empty "kyma-project.io/global-account-id" kyma;
  region = label_or_empty "kyma-project.io/region" kyma;
  platform_region = label_or_empty "kyma-project.io/platform-region" kyma;
  plan = label_or_empty "kyma-project.io/broker-plan-name" kyma;
}

-- The end of IsActive: `now` is the time when the window is resolved.
abbrev pub window_contains : ResolvedWindow → Time → Bool
window_contains w now = if after now w.begin && before now w.end then true else false

-- IsActive, which reads the clock twice: within Resolve and after it. A nil policy is `none`.
unfoldable pub is_active :
    Option MaintenanceWindowPolicy → ℕ → Kyma → (resolve_time now : Time) → Result Bool
unfolding resolve
is_active none min_duration kyma resolve_time now =
    err (sentinel no_maintenance_window_policy_configured)
is_active (some policy) min_duration kyma resolve_time now =
    elim (resolve policy resolve_time (runtime_of kyma)
      (ongoing_window true ∷ min_window_size min_duration ∷ [])) [
        | err e ↦ err e
        | ok w ↦ ok (window_contains w now)
      ]
