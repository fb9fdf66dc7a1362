-- ===== src/Manifests/Tests.antt =====
-- A Manifest on a control plane and an SKR that answer each call in one way.
use lifecycle_manager.Prelude.{
  All, ℕ, ◌≡◌, refl, inl, String, true, false, List, [], ◌∷◌, Option, none, some, contains,
}
use lifecycle_manager.Errors.{
  Error, foreign, sentinel, ok, err, ErrorLib, is_not_found, is_connection_related_error,
  resource_sync_diff_in_same_oci_layer,
}
use lifecycle_manager.Api.{
  Machinery, Resource, State, ready, create_and_delete, ignore_resource, Kyma, Manifest, of_text,
  kyma_name_label, module_name_label,
}
use lifecycle_manager.Manifests.Status.{
  default_finalizer, label_removal_finalizer, initialize, initialize_status_conditions,
  add_conditions, get_default_conditions, finalizers_update_required, remove_required_finalizers,
  remove_finalizers, is_module_cr_install_condition_true, set_condition_to_true,
  require_manifest_state_update_after_sync_resource,
}
use lifecycle_manager.Manifests.Resources.{
  has_id, difference, prune_resource, split_resources, is_operator_related_resources, has_diff,
  mark_all, clear_all,
}
use lifecycle_manager.Manifests.Env
use lifecycle_manager.Manifests.Env.{Call, Calls, Spec, St, Step, next}
use lifecycle_manager.Manifests.Cleanup.{
  delete_diff_resources, cleanup_resources, run, delete_each, outcome, failures, all_not_found,
  join_all, sync_resources,
}
use lifecycle_manager.Manifests.ModuleCrs.{
  check_module_crs_deletion, remove_default_module_cr, delete_cr, remove_cr_finalizer,
  ensure_cr_finalizer,
}
use lifecycle_manager.Manifests.Endings.{
  finish_reconcile, evict_skr_client_cache, get_target_client, cleanup_manifest, cleanup_metrics,
  update_manifest,
}
use lifecycle_manager.Manifests.Steps.{
  prune_diff, diff_of, synced_oci_ref_annotation, record_mandatory_module_state,
  detect_orphaned_manifest, sync_default_cr, update_manifest_state_after_sync,
}
use lifecycle_manager.Manifests.Install.{
  install, prepare_reconcile, begin, handle_orphaned, add_finalizers, resolve_and_track_spec,
  track_spec, render_resources_for_install, render_resources, install_resources, prune,
  update_synced_ref,
}
use lifecycle_manager.Manifests.Delete.{delete_resources, delete_pruned, evict_if_nothing_synced}
use lifecycle_manager.Manifests.Requeue.{determine_requeue_interval}
use lifecycle_manager.Manifests.Diffs.{Covered, diff_of_exact}
use lifecycle_manager.Manifests.Order.{after_deletes, delete_diff_resources_order}
use lifecycle_manager.Manifests.Guards.{applied, Prepared, install_applies-Prepared}
use lifecycle_manager.Manifests.Pruned.{Gone}
use lifecycle_manager.Manifests.Deleting.{delete_updates_pruned}
use lifecycle_manager.Manifests.Crs.{check_module_crs_deletion_unlisted}

abbrev resource : String → Resource
resource kind = record {
  group = "apps";
  version = "v1";
  kind = kind;
  name = "module";
  namespace = "kyma-system";
}

-- The finalizers of an object are a list, and a condition is found by its type.
abbrev machinery : Machinery
machinery = record {
  contains_finalizer = λ m f. contains m.finalizers f;
  add_finalizer = λ m f. (m, false);
  remove_finalizer = λ m f. (record m { finalizers = [] }, true);
  find_status_condition = λ cs t. none;
  set_status_condition = λ cs c. c ∷ cs;
}

-- `foreign 1` is a NotFound.
abbrev lib : ErrorLib
lib = record {
  is_not_registered = λ e. false;
  is_no_match = λ e. false;
  is_api_not_found = λ e. elim e [ foreign n ↦ true | _ ↦ false ];
  failed_groups = λ e. [];
  is_connection_refused = λ e. false;
  is_unauthorized = λ e. false;
  is_forbidden = λ e. false;
  is_dns_not_found = λ e. false;
  message = λ e. [];
}

-- Every resource that is asked to be deleted is gone already.
abbrev answer : Call → Calls → Option Error
answer (Env.delete_resource r) c = some (foreign 1)
answer call c = none

abbrev some_manifest : Option ℕ → Manifest
some_manifest d = record {
  meta = record {
    name = "manifest-1";
    namespace = "kcp-system";
    generation = 1;
    creation_timestamp = 1000;
    deletion_timestamp = d;
    labels = (kyma_name_label, "kyma-1") ∷ (module_name_label, "module") ∷ [];
    annotations = (synced_oci_ref_annotation, "sha256:1") ∷ [];
    finalizers = default_finalizer ∷ label_removal_finalizer ∷ [];
  };
  spec = record {
    custom_resource_policy = create_and_delete;
    version = "1.0.0";
    resource = some (resource "Sample");
  };
  status = record {
    last_operation = of_text "";
    state = ready;
    conditions = [];
    synced = resource "Deployment" ∷ resource "ConfigMap" ∷ [];
  };
}

abbrev some_kyma : Kyma
some_kyma = record {
  meta = (some_manifest none).meta;
  spec = record { channel = "regular"; skip_maintenance_windows = false; modules = [] };
  status = record {
    last_operation = "";
    state = ready;
    conditions = [];
    modules = [];
    active_channel = "regular";
  };
}

abbrev spec : Spec
spec = record { manifest_name = "manifest-1"; path = "/layer"; oci_ref = "sha256:1" }

abbrev env : Env.Env
env = record {
  errors = lib;
  lib = machinery;
  is_already_exists = λ e. false;
  intervals = record { success = 30; busy = 5; warned = 30; failed = 2; jitter = none };
  now = λ c. 1001;
  answer = answer;
  get_manifest = λ c. ok (some_manifest none);
  get_kyma = λ name c. ok some_kyma;
  has_client = λ key c. false;
  get_spec = λ m c. ok spec;
  render_target_resources = λ m s c. ok m.status.synced;
  get_state = λ rs c. ok ready;
  rest_mappings = λ group kind c. ok (("v1", false) ∷ []);
  list_items = λ group version kind c. err (sentinel resource_sync_diff_in_same_oci_layer);
  get_resource = λ r c. none;
}

abbrev installing : St
installing = record { manifest = some_manifest none; calls = [] }

abbrev deleting : St
deleting = record { manifest = some_manifest (some 2000); calls = [] }

-- Without a custom resource to manage, and with nothing synced any more.
abbrev emptied : St
emptied = record deleting {
  manifest = record (some_manifest (some 2000)) {
    spec = record (some_manifest none).spec { custom_resource_policy = ignore_resource };
    status = record (some_manifest none).status { state = State.deleting; synced = [] };
  };
}

program : Unit {0}
unfolding difference prune_resource split_resources is_operator_related_resources has_diff mark_all
    clear_all is_not_found is_connection_related_error initialize initialize_status_conditions
    add_conditions get_default_conditions finalizers_update_required remove_required_finalizers
    remove_finalizers is_module_cr_install_condition_true set_condition_to_true
    require_manifest_state_update_after_sync_resource delete_diff_resources cleanup_resources run
    delete_each outcome failures all_not_found join_all sync_resources remove_default_module_cr
    delete_cr remove_cr_finalizer ensure_cr_finalizer prune_diff finish_reconcile
    evict_skr_client_cache get_target_client record_mandatory_module_state detect_orphaned_manifest
    cleanup_manifest cleanup_metrics update_manifest sync_default_cr
    update_manifest_state_after_sync install prepare_reconcile begin handle_orphaned add_finalizers
    resolve_and_track_spec track_spec render_resources_for_install render_resources
    install_resources prune update_synced_ref delete_resources delete_pruned evict_if_nothing_synced
    determine_requeue_interval
program = tt

test_install :
    applied (install env installing).0.calls
    ≡ (resource "Deployment" ∷ resource "ConfigMap" ∷ []) ∷ []
unfolding program
test_install = refl

abbrev both : List Resource
both = resource "Deployment" ∷ resource "ConfigMap" ∷ []

diff_of_exact_example :
    All (λ r. has_id [] r ≡ false) (diff_of both []) × All (Covered [] (diff_of both [])) both
diff_of_exact_example = diff_of_exact both []

install_applies-Prepared_example : Prepared env (some_manifest none)
unfolding program
install_applies-Prepared_example = install_applies-Prepared env installing (λ e. cc)

delete_diff_resources_order_example :
    (delete_diff_resources env both deleting).0.calls
    ≡ after_deletes (split_resources both).0 (after_deletes (split_resources both).1 [])
unfolding program
delete_diff_resources_order_example = delete_diff_resources_order env both deleting

delete_updates_pruned_example :
    ((prune_diff env both [] spec (evict_if_nothing_synced env both emptied).0).1 ≡ next none)
    × All
        (Gone env
          (prune_diff env both [] spec (evict_if_nothing_synced env both emptied).0).0.calls)
        (diff_of both [])
unfolding program
delete_updates_pruned_example =
    delete_updates_pruned env emptied.manifest.status spec [] both emptied (λ e. cc)

check_module_crs_deletion_unlisted_example :
    check_module_crs_deletion env (some_manifest (some 2000)) [] ≡ none
check_module_crs_deletion_unlisted_example =
    check_module_crs_deletion_unlisted env (some_manifest (some 2000)) (resource "Sample")
      (("v1", false) ∷ []) [] refl refl
      (inl (sentinel resource_sync_diff_in_same_oci_layer, refl), tt)
