-- ===== src/Manifests/Steps.antt =====
-- internal/controller/manifest/controller.go: the steps of the pipelines, and
-- internal/service/manifest/orphan/detection.go.
use lifecycle_manager.Prelude.{
  ◌+◌, String, str_eq, Bool, false, not, ◌&&◌, ltb, List, [], ◌∷◌, Option, none, some, any, insert,
  lookup, is_some, if◌then◌else◌,
}
use lifecycle_manager.Errors.{
  Error, sentinel, wrap, orphaned_manifest, manager_in_error_state, state_require_update,
  resource_sync_diff_in_same_oci_layer, is_not_found, Result, ok, err,
}
use lifecycle_manager.Api.{
  State, error, warning, state_eq, is_deleting, ModuleStatus, Kyma, Resource, with_state, with_err,
  with_operation, Manifest, set_status, get_kyma_name, is_mandatory_module,
  should_create_default_module_cr,
}
use lifecycle_manager.Manifests.Status.{
  label_removal_finalizer, is_module_cr_install_condition_true,
  set_module_cr_install_condition_true, require_manifest_state_update_after_sync_resource,
}
use lifecycle_manager.Manifests.Resources.{difference, prune_resource}
use lifecycle_manager.Manifests.Env
use lifecycle_manager.Manifests.Env.{
  Call, Calls, RequeueReason, Spec, intended_requeue, unexpected_requeue, St, Step, next, stop,
  Return, requeue_after, rate_limited, no_requeue, failed, M, ◌>>=◌, ◌>>◌, pure, stop_reconcile,
  manifest, set_manifest, when, ask, call, note,
}
use lifecycle_manager.Manifests.Cleanup.{delete_diff_resources}
use lifecycle_manager.Manifests.ModuleCrs.{sync_default_module_cr}
use lifecycle_manager.Manifests.Endings.{intended_wait}

-- SyncedOCIRefAnnotation
abbrev pub synced_oci_ref_annotation : String
synced_oci_ref_annotation = "sync-oci-ref"

abbrev pub oci_ref_not_changed : Manifest → String → Bool
oci_ref_not_changed m ref = elim (lookup synced_oci_ref_annotation m.meta.annotations) [
  | none ↦ false
  | some synced ↦ str_eq synced ref
]

abbrev pub require_update_synced_oci_ref_annotation : Manifest → String → Bool
require_update_synced_oci_ref_annotation m ref =
    elim (lookup synced_oci_ref_annotation m.meta.annotations) [
      | none ↦ false
      | some synced ↦ not (str_eq synced ref)
    ]

abbrev pub not_contains_synced_oci_ref_annotation : Manifest → Bool
not_contains_synced_oci_ref_annotation m =
    not (is_some (lookup synced_oci_ref_annotation m.meta.annotations))

abbrev pub update_synced_oci_ref_annotation : Manifest → String → Manifest
update_synced_oci_ref_annotation m ref = record m {
  meta = record m.meta { annotations = insert synced_oci_ref_annotation ref m.meta.annotations };
}

abbrev pub default_remote_namespace : String
default_remote_namespace = "kyma-system"

-- The resources that pruneDiff finds to delete.
abbrev pub diff_of : List Resource → List Resource → List Resource
diff_of current target =
    prune_resource (difference current target) "Namespace" default_remote_namespace

abbrev pub manifest_not_in_deleting_and_oci_ref_not_changed_but_diff_detected :
    List Resource → Manifest → Spec → Bool
manifest_not_in_deleting_and_oci_ref_not_changed_but_diff_detected [] m spec = false
manifest_not_in_deleting_and_oci_ref_not_changed_but_diff_detected (r ∷ rs) m spec =
    oci_ref_not_changed m spec.oci_ref && not (is_deleting m.meta)

abbrev pub is_manifest_referenced_in_kyma_status : Kyma → String → Bool
is_manifest_referenced_in_kyma_status kyma name =
    any (λ (s : ModuleStatus). elim s.manifest [ none ↦ false | some t ↦ str_eq t.name name ])
      kyma.status.modules

module _ (env : Env.Env) where
  unfoldable pub prune_diff : List Resource → List Resource → Spec → M (Option Error)
  unfolding delete_diff_resources difference prune_resource
  prune_diff current target spec = manifest >>= λ m. elim (diff_of current target) [
    | [] ↦ pure none
    | r ∷ rs ↦
        if manifest_not_in_deleting_and_oci_ref_not_changed_but_diff_detected (r ∷ rs) m spec
        then (do
          set_manifest (
              set_status m (
                with_operation (with_state m.status warning)
                  "resource syncTarget diff detected but in same oci layer, prevent sync resource to be deleted"))
          note env (Env.evict_cache spec)
          pure (some (sentinel resource_sync_diff_in_same_oci_layer)))
        else delete_diff_resources env (r ∷ rs) >>= λ deleted. elim deleted [
          | none ↦ pure none
          | some e ↦ do
            n ← manifest
            set_manifest (set_status n (with_err n.status e))
            pure (some e)
        ]
  ]

  -- syncDefaultModuleCR
  unfoldable pub sync_default_cr : M (Option Error)
  unfolding sync_default_module_cr is_module_cr_install_condition_true
  sync_default_cr = manifest >>= λ m.
      if not (
        should_create_default_module_cr m
        && not (is_module_cr_install_condition_true env.lib m.status))
      then pure none
      else sync_default_module_cr env >>= λ synced. elim synced [
        | some e ↦ do
          set_manifest (set_status m (with_err (with_state m.status error) e))
          pure (some e)
        | none ↦ do
          n ← manifest
          set_manifest (set_module_cr_install_condition_true env.lib n)
          pure none
      ]

  abbrev pub check_manager_state : List Resource → Calls → Result State
  check_manager_state target c = elim (env.get_state target c) [
    | err e ↦ err e
    | ok s ↦ if state_eq s error then err (sentinel manager_in_error_state) else ok s
  ]

  -- RequireManifestStateUpdateAfterSyncResource, and the error if it is so.
  abbrev pub update_state : State → M (Option Error)
  update_state s = do
    m ← manifest
    set_manifest (require_manifest_state_update_after_sync_resource env.lib m s).0
    pure (
        if (require_manifest_state_update_after_sync_resource env.lib m s).1
        then some (wrap "from the old to the new state" (sentinel state_require_update))
        else none)

  unfoldable pub update_manifest_state_after_sync : List Resource → M (Option Error)
  unfolding require_manifest_state_update_after_sync_resource
  update_manifest_state_after_sync target = manifest >>= λ m.
      ask (check_manager_state target) >>= λ checked. elim checked [
        | err e ↦ do
          set_manifest (set_status m (with_err (with_state m.status error) e))
          pure (some e)
        | ok s ↦ update_state s
      ]

  unfoldable pub record_mandatory_module_state : M (Unit {0})
  record_mandatory_module_state = manifest >>= λ m.
      when (is_mandatory_module m) (note env (Env.record_mandatory_module_state m.status.state))

  -- handleUnmanagedManifest and handleLabelsRemovalFinalizer
  unfoldable pub handle_unmanaged_manifest : {A : Type 0} → M A
  handle_unmanaged_manifest = manifest >>= λ m.
      if env.lib.contains_finalizer m.meta label_removal_finalizer
      then (call env (Env.remove_managed_by_label m) >>= λ removed. elim removed [
        | some e ↦ stop_reconcile (failed e)
        | none ↦ intended_wait env Env.manifest_resources_label_removal
      ])
      else call env (Env.delete_manifest m) >>= λ deleted. elim deleted [
        | some e ↦ stop_reconcile (failed (wrap "manifestController" e))
        | none ↦ stop_reconcile (requeue_after env.intervals.success)
      ]

  -- DetectOrphanedManifest; five minutes are tolerated.
  unfoldable pub detect_orphaned_manifest : Manifest → Calls → Option Error
  unfolding is_not_found
  detect_orphaned_manifest m c = if is_deleting m.meta then none else elim (get_kyma_name m) [
    | err e ↦
        some
          (wrap "error during orphaned manifest detection" (wrap "cannot get parent Kyma name" e))
    | ok name ↦ elim (env.get_kyma name c) [
      | err e ↦ some (
          wrap "error during orphaned manifest detection" (
            if is_not_found env.errors (some e)
            then wrap "parent Kyma does not exist" (sentinel orphaned_manifest)
            else wrap "cannot fetch parent Kyma object" e))
      | ok kyma ↦
          if not (is_manifest_referenced_in_kyma_status kyma m.meta.name)
            && not (is_mandatory_module m)
            && not (ltb (env.now c) (m.meta.creation_timestamp + 300))
          then some (wrap "manifest is not referenced in Kyma status" (sentinel orphaned_manifest))
          else none
    ]
  ]
