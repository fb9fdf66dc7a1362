-- ===== src/Api/Kymas.antt =====
-- api/v1beta2/kyma_types.go.
use lifecycle_manager.Prelude.{
  ℕ, String, str_eq, Bool, true, false, ◌&&◌, not, List, [], ◌∷◌, Option, none, some, any, contains,
  keep, insert, lookup, is_some, map, if◌then◌else◌,
}
use lifecycle_manager.Api.States.{
  State, ready, processing, error, warning, unmanaged, state_eq, is_enabled,
}
use lifecycle_manager.Api.Meta.{ObjectMeta, Condition, is_condition_true, is_deleting, Machinery}

pub data CustomResourcePolicy : Type 0 where
  create_and_delete ignore_resource : CustomResourcePolicy

abbrev pub is_create_and_delete : CustomResourcePolicy → Bool
is_create_and_delete create_and_delete = true
is_create_and_delete ignore_resource = false

pub record Module : Type 0 where
  pub custom_resource_policy : CustomResourcePolicy
  pub name : String
  pub controller_name : String
  pub channel : String
  pub version : String
  pub managed : Bool

pub record KymaSpec : Type 0 where
  pub channel : String
  pub skip_maintenance_windows : Bool
  pub modules : List Module

pub record TrackingObject : Type 0 where
  pub api_version : String
  pub kind : String
  pub name : String
  pub namespace : String
  pub generation : ℕ

pub record ModuleStatus : Type 0 where
  pub name : String
  pub fqdn : String
  pub ocm_component_name : String
  pub channel : String
  pub version : String
  pub message : String
  pub state : State
  pub manifest : Option TrackingObject
  pub resource : Option TrackingObject
  pub template : Option TrackingObject
  pub maintenance : Bool

pub record KymaStatus : Type 0 where
  pub last_operation : String
  pub state : State
  pub conditions : List Condition
  pub modules : List ModuleStatus
  pub active_channel : String

pub record Kyma : Type 0 where
  pub meta : ObjectMeta
  pub spec : KymaSpec
  pub status : KymaStatus

-- (status *KymaStatus) GetModuleStatus: the first entry of that name.
unfoldable pub get_module_status : List ModuleStatus → String → Option ModuleStatus
get_module_status [] name = none
get_module_status (m ∷ ms) name = if str_eq m.name name then some m else get_module_status ms name

-- GetNoLongerExistingModuleStatus: the map from names keeps the last entry of a name, so entries
-- with a later one of their name are dropped; then those named in the spec are. The order, which
-- is that of a Go map and so unspecified, is here that of the status.
unfoldable pub last_of_names : List ModuleStatus → List ModuleStatus
last_of_names [] = []
last_of_names (m ∷ ms) =
    let rest = last_of_names ms in
    if any (λ (n : ModuleStatus). str_eq n.name m.name) ms then rest else m ∷ rest

unfoldable pub get_no_longer_existing_module_status : Kyma → List ModuleStatus
unfolding last_of_names
get_no_longer_existing_module_status kyma =
    keep
      (λ (m : ModuleStatus). not (contains (map (λ (s : Module). s.name) kyma.spec.modules) m.name))
      (last_of_names kyma.status.modules)

abbrev pub set_active_channel : Kyma → Kyma
set_active_channel kyma = record kyma {
  status = record kyma.status { active_channel = kyma.spec.channel };
}

abbrev pub has_state : State → List ModuleStatus → Bool
has_state s = any (λ (m : ModuleStatus). state_eq m.state s)

-- (kyma *Kyma) DetermineState.
unfoldable pub determine_state : KymaStatus → State
determine_state status =
    if has_state error status.modules
    then error
    else if has_state warning status.modules
    then warning
    else if has_state processing status.modules
    then processing
    else if any (λ (c : Condition). not (is_condition_true c.status)) status.conditions
    then processing
    else ready

-- (kyma *Kyma) AllModulesReady.
unfoldable pub all_modules_ready : List ModuleStatus → Bool
all_modules_ready [] = true
all_modules_ready (m ∷ ms) =
    let rest = all_modules_ready ms in
    if not (state_eq m.state ready) && not (state_eq m.state unmanaged) then false else rest

-- found && IsEnabled(label).
unfoldable pub label_enabled : String → ObjectMeta → Bool
unfolding is_enabled
label_enabled key m = elim (lookup key m.labels) [ none ↦ false | some v ↦ is_enabled v ]

abbrev pub skip_reconcile_label : String
skip_reconcile_label = "operator.kyma-project.io/skip-reconciliation"

abbrev pub internal_label : String
internal_label = "operator.kyma-project.io/internal"

abbrev pub beta_label : String
beta_label = "operator.kyma-project.io/beta"

abbrev pub managed_by : String
managed_by = "operator.kyma-project.io/managed-by"

abbrev pub operator_name : String
operator_name = "lifecycle-manager"

abbrev pub kyma_finalizer : String
kyma_finalizer = "operator.kyma-project.io/Kyma"

-- EnsureLabelsAndFinalizers: the changed object, and whether an update is required.
unfoldable pub ensure_labels_and_finalizers : Machinery → ObjectMeta → ObjectMeta × Bool
ensure_labels_and_finalizers lib m =
    if lib.contains_finalizer m "foregroundDeletion"
    then (m, false)
    else let missing = not (is_deleting m) && not (lib.contains_finalizer m kyma_finalizer) in
      let with_finalizer : ObjectMeta =
        if missing then (lib.add_finalizer m kyma_finalizer).0 else m in
      if is_some (lookup managed_by m.labels) then (with_finalizer, missing) else (
        record with_finalizer { labels = insert managed_by operator_name with_finalizer.labels },
        true,
      )
