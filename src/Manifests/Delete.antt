-- ===== src/Manifests/Delete.antt =====
-- internal/controller/manifest/controller.go: delete and its steps.
use lifecycle_manager.Prelude.{Bool, true, false, List, [], ◌∷◌, none, some, if◌then◌else◌}
use lifecycle_manager.Errors.{
  waiting_for_module_crs_deletion, access_secret_not_found, errors_is, Result, ok, err,
}
use lifecycle_manager.Api.{
  error, deleting, is_deleting, Resource, Status, with_state, with_err, with_operation, Manifest,
  set_status, is_unmanaged,
}
use lifecycle_manager.Manifests.Env
use lifecycle_manager.Manifests.Env.{
  Calls, Spec, unexpected_requeue, St, Step, next, stop, Return, requeue_after, no_requeue, failed,
  M, ◌>>=◌, ◌>>◌, pure, stop_reconcile, manifest, set_manifest, ask, note,
}
use lifecycle_manager.Manifests.Cleanup.{sync_resources}
use lifecycle_manager.Manifests.ModuleCrs.{
  check_module_crs_deletion, check_default_cr_deletion, remove_default_module_cr,
}
use lifecycle_manager.Manifests.Endings.{
  finish_reconcile, finish_in_error, get_target_client, cleanup_manifest, evict_skr_client_cache,
}
use lifecycle_manager.Manifests.Steps.{update_state}
use lifecycle_manager.Manifests.Install.{
  begin, track_spec, render_resources, prune, or_finish, or_requeue, update_synced_ref,
}

module _ (env : Env.Env) where
  unfoldable pub prepare_delete_reconcile : Status → M (Unit {0})
  unfolding begin get_target_client finish_reconcile cleanup_manifest
  prepare_delete_reconcile previous = begin env previous >> get_target_client env >>= λ client.
      elim client [
        | some e ↦
            if errors_is e access_secret_not_found
            then cleanup_manifest env previous Env.manifest_client_init (some e)
            else finish_in_error env Env.manifest_client_init previous e
        | none ↦ manifest >>= λ m.
            if is_unmanaged m
            then cleanup_manifest env previous Env.manifest_unmanaged_update none
            else pure tt
      ]

  unfoldable pub resolve_and_track_spec_for_delete : Status → M Spec
  unfolding track_spec cleanup_manifest
  resolve_and_track_spec_for_delete previous = manifest >>= λ m.
      ask (env.get_spec m) >>= λ resolved. elim resolved [
        | ok spec ↦ track_spec env spec
        | err e ↦
            set_manifest (set_status m (with_err (with_state m.status error) e))
            >> cleanup_manifest env previous Env.manifest_parse_spec (some e)
      ]

  abbrev pub ensure_module_crs_all_deleted : Manifest → Calls → Result Bool
  ensure_module_crs_all_deleted m c = elim (check_module_crs_deletion env m c) [
    | some e ↦ err e
    | none ↦ check_default_cr_deletion env m c
  ]

  -- renderResourcesForDelete with its error handling in delete.
  unfoldable pub render_resources_for_delete : Status → Spec → M (List Resource × List Resource)
  unfolding render_resources finish_reconcile check_module_crs_deletion check_default_cr_deletion
  render_resources_for_delete previous spec = manifest >>= λ m.
      ask (ensure_module_crs_all_deleted m) >>= λ gone. elim gone [
        | ok true ↦ pure ([], m.status.synced)
        | err e ↦
            set_manifest (
              set_status m (
                if errors_is e waiting_for_module_crs_deletion
                then with_operation (with_state m.status deleting) "waiting for module crs deletion"
                else with_err (with_state m.status error) e))
            >> finish_reconcile env Env.manifest_render_resources previous (some e)
        | ok false ↦ render_resources env spec >>= λ rendered. elim rendered [
          | ok target ↦ pure (target, m.status.synced)
          | err e ↦ finish_reconcile env Env.manifest_render_resources previous (some e)
        ]
      ]

  unfoldable pub evict_if_nothing_synced : List Resource → M (Unit {0})
  unfolding evict_skr_client_cache
  evict_if_nothing_synced [] =
      manifest >>= λ m. if is_deleting m.meta then evict_skr_client_cache env else pure tt
  evict_if_nothing_synced (r ∷ rs) = pure tt

  -- delete behind pruneDiff, and from the rendered resources on.
  unfoldable pub delete_pruned : Status → Spec → List Resource → M (Unit {0})
  unfolding remove_default_module_cr sync_resources update_synced_ref cleanup_manifest
      finish_reconcile
  delete_pruned previous spec target = do
    or_requeue env Env.manifest_pre_delete_enqueue_required Env.manifest_pre_delete previous
        (remove_default_module_cr env)
    or_finish env Env.manifest_sync_resources previous (sync_resources env target)
    or_finish env Env.manifest_sync_state previous (update_state env deleting)
    update_synced_ref env spec (cleanup_manifest env previous Env.manifest_reconcile_finished none)

  unfoldable pub delete_resources : Status → Spec → List Resource → List Resource → M (Unit {0})
  unfolding evict_if_nothing_synced prune delete_pruned
  delete_resources previous spec target current = do
    evict_if_nothing_synced current
    prune env previous current target spec
    delete_pruned previous spec target

  unfoldable pub delete : M (Unit {0})
  unfolding prepare_delete_reconcile resolve_and_track_spec_for_delete render_resources_for_delete
      delete_resources
  delete = manifest >>= λ m.
      prepare_delete_reconcile m.status >> resolve_and_track_spec_for_delete m.status >>= λ spec.
      render_resources_for_delete m.status spec >>= λ rendered.
      delete_resources m.status spec rendered.0 rendered.1
