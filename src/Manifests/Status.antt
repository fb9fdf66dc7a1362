-- ===== src/Manifests/Status.antt =====
-- internal/manifest/status and internal/manifest/finalizer/handler.go: what a reconciliation changes
-- on the Manifest itself.
use lifecycle_manager.Prelude.{
  String, Bool, true, false, ◌||◌, List, [], ◌∷◌, Option, none, some, if◌then◌else◌,
}
use lifecycle_manager.Errors.{Error, sentinel, object_has_empty_state}
use lifecycle_manager.Api.{
  State, processing, error, unset, state_eq, Condition, condition_true, condition_false,
  is_condition_true, Machinery, ObjectMeta, Status, with_state, with_err, with_operation, Manifest,
  set_status, should_create_default_module_cr,
}

abbrev pub resources_type : String
resources_type = "Resources"

abbrev pub module_cr_type : String
module_cr_type = "ModuleCR"

abbrev pub installation_type : String
installation_type = "Installation"

abbrev default_condition : Manifest → String → String → String → Condition
default_condition m type reason message = record {
  condition_type = type;
  reason = reason;
  status = condition_false;
  message = message;
  observed_generation = m.meta.generation;
}

-- getDefaultConditions and the three functions that it calls.
unfoldable pub get_default_conditions : Manifest → List Condition
get_default_conditions m =
    default_condition m resources_type "ResourcesAvailable" "resources not parsed"
    ∷ default_condition m installation_type "Ready" "installation is not ready"
    ∷ (if should_create_default_module_cr m
        then default_condition m module_cr_type "ModuleCRCreated"
            "module CR has not been created to SKR"
          ∷ []
        else [])

-- The loop of InitializeStatusConditions.
unfoldable pub add_conditions : Machinery → List Condition → List Condition → List Condition
add_conditions lib present [] = present
add_conditions lib present (c ∷ cs) = elim (lib.find_status_condition present c.condition_type) [
  | none ↦ add_conditions lib (lib.set_status_condition present c) cs
  | some d ↦ add_conditions lib present cs
]

unfoldable pub initialize_status_conditions : Machinery → Manifest → Manifest
unfolding add_conditions get_default_conditions
initialize_status_conditions lib m = record m {
  status = record m.status {
    conditions = add_conditions lib m.status.conditions (get_default_conditions m);
  };
}

-- Initialize. A nil list of synced resources is the empty one here.
unfoldable pub initialize : Machinery → Manifest → Manifest × Option Error
unfolding initialize_status_conditions
initialize lib m =
    let n = initialize_status_conditions lib m in
    if state_eq n.status.state unset
    then (
      set_status n (with_err (with_state n.status processing) (sentinel object_has_empty_state)),
      some (sentinel object_has_empty_state),
    )
    else (n, none)

unfoldable pub is_module_cr_install_condition_true : Machinery → Status → Bool
is_module_cr_install_condition_true lib s =
    elim (lib.find_status_condition s.conditions module_cr_type) [
      | none ↦ false
      | some c ↦ is_condition_true c.status
    ]

unfoldable pub set_condition_to_true : Machinery → String → String → Manifest → Manifest
set_condition_to_true lib type message m =
    elim (lib.find_status_condition m.status.conditions type) [
      | none ↦ m
      | some c ↦
          if is_condition_true c.status
          then m
          else set_status m (
              with_operation
                (record m.status {
                  conditions = lib.set_status_condition m.status.conditions (record c {
                    status = condition_true;
                    observed_generation = m.meta.generation;
                    message = message;
                  });
                })
                message)
    ]

abbrev pub set_resources_condition_true : Machinery → Manifest → Manifest
set_resources_condition_true lib =
    set_condition_to_true lib resources_type "resources are parsed and ready for use"

abbrev pub set_installation_condition_true : Machinery → Manifest → Manifest
set_installation_condition_true lib =
    set_condition_to_true lib installation_type "installation is ready and resources can be used"

abbrev pub set_module_cr_install_condition_true : Machinery → Manifest → Manifest
set_module_cr_install_condition_true lib =
    set_condition_to_true lib module_cr_type "module CR was created"

-- RequireManifestStateUpdateAfterSyncResource. The last SetStatus writes the status that was read
-- before SetInstallationConditionTrue, but the condition that this one sets stays: it is changed
-- through a pointer into the array of conditions that both statuses share.
unfoldable pub require_manifest_state_update_after_sync_resource :
    Machinery → Manifest → State → Manifest × Bool
unfolding set_condition_to_true
require_manifest_state_update_after_sync_resource lib m new =
    if state_eq new m.status.state
    then (m, false)
    else if state_eq new processing || state_eq new error
    then (
      set_status m
          (with_operation (with_state m.status new) "waiting for resources to become ready"),
      true,
    )
    else (
      set_status m (
          with_operation (with_state (set_installation_condition_true lib m).status new)
            "resources are ready"),
      true,
    )

abbrev pub default_finalizer : String
default_finalizer = "declarative.kyma-project.io/finalizer"

abbrev pub custom_resource_manager_finalizer : String
custom_resource_manager_finalizer = "resource.kyma-project.io/finalizer"

abbrev pub label_removal_finalizer : String
label_removal_finalizer = "label-removal-finalizer"

-- The loop of RemoveRequiredFinalizers and RemoveAllFinalizers over the finalizers to remove.
unfoldable pub remove_finalizers : Machinery → List String → ObjectMeta → ObjectMeta × Bool
remove_finalizers lib [] m = (m, false)
remove_finalizers lib (f ∷ fs) m =
    let one = lib.remove_finalizer m f in
    let rest = remove_finalizers lib fs one.0 in (rest.0, one.1 || rest.1)

unfoldable pub remove_required_finalizers : Machinery → Manifest → Manifest × Bool
unfolding remove_finalizers
remove_required_finalizers lib m =
    let out = remove_finalizers lib (default_finalizer ∷ label_removal_finalizer ∷ []) m.meta in
    (record m { meta = out.0 }, out.1)

unfoldable pub remove_all_finalizers : Machinery → Manifest → Manifest × Bool
unfolding remove_finalizers
remove_all_finalizers lib m =
    let out = remove_finalizers lib m.meta.finalizers m.meta in (record m { meta = out.0 }, out.1)

unfoldable pub finalizers_update_required : Machinery → Manifest → Manifest × Bool
finalizers_update_required lib m =
    let one = lib.add_finalizer m.meta default_finalizer in
    let two = lib.add_finalizer one.0 label_removal_finalizer in
    (record m { meta = two.0 }, one.1 || two.1)
