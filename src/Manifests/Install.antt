-- ===== src/Manifests/Install.antt =====
-- internal/controller/manifest/controller.go: install and its steps.
use lifecycle_manager.Prelude.{Bool, true, false, not, List, Option, none, some, if◌then◌else◌}
use lifecycle_manager.Errors.{
  Error, wrap, inject_data_from_kcp, orphaned_manifest, deletion_not_finished, requeue_required,
  errors_is, Result, ok, err,
}
use lifecycle_manager.Api.{Resource, Status, is_unmanaged}
use lifecycle_manager.Manifests.Status.{
  initialize, finalizers_update_required, set_resources_condition_true, set_condition_to_true,
}
use lifecycle_manager.Manifests.Env
use lifecycle_manager.Manifests.Env.{
  Calls, Spec, unexpected_requeue, St, Step, next, stop, Return, requeue_after, no_requeue, failed,
  M, ◌>>=◌, ◌>>◌, pure, stop_reconcile, manifest, set_manifest, ask, note,
}
use lifecycle_manager.Manifests.Cleanup.{sync_resources}
use lifecycle_manager.Manifests.ModuleCrs.{ensure_cr_finalizer}
use lifecycle_manager.Manifests.Endings.{
  finish_reconcile, finish_in_error, ssa_spec, update_manifest, intended_wait, get_target_client,
}
use lifecycle_manager.Manifests.Steps.{
  require_update_synced_oci_ref_annotation, not_contains_synced_oci_ref_annotation,
  update_synced_oci_ref_annotation, prune_diff, sync_default_cr, update_manifest_state_after_sync,
  record_mandatory_module_state, handle_unmanaged_manifest, detect_orphaned_manifest,
}

module _ (env : Env.Env) where
  -- status.Initialize and recordMandatoryModuleState, with which both pipelines begin.
  unfoldable pub begin : Status → M (Unit {0})
  unfolding initialize finish_reconcile record_mandatory_module_state
  begin previous = do
    m ← manifest
    set_manifest (initialize env.lib m).0
    elim (initialize env.lib m).1 [
      | some e ↦ finish_reconcile env Env.manifest_init previous (some e)
      | none ↦ record_mandatory_module_state env
    ]

  -- An error of DetectOrphanedManifest.
  unfoldable pub handle_orphaned : Error → M (Unit {0})
  unfolding finish_reconcile
  handle_orphaned e =
      if not (errors_is e orphaned_manifest)
      then stop_reconcile (failed (wrap "manifestController" e))
      else manifest >>= λ m. finish_in_error env Env.manifest_orphaned m.status e

  unfoldable pub add_finalizers : M (Unit {0})
  unfolding finalizers_update_required ssa_spec
  add_finalizers = do
    m ← manifest
    set_manifest (finalizers_update_required env.lib m).0
    (if (finalizers_update_required env.lib m).1
        then ssa_spec env Env.manifest_add_finalizer
        else pure tt)

  -- prepareReconcile behind DetectOrphanedManifest, behind IsUnmanaged, and behind getTargetClient.
  abbrev pub after_detection : Option Error → M (Unit {0})
  after_detection none = add_finalizers
  after_detection (some e) = handle_orphaned e

  abbrev pub after_unmanaged : Bool → M (Unit {0})
  after_unmanaged true = handle_unmanaged_manifest env
  after_unmanaged false = manifest >>= λ m. ask (detect_orphaned_manifest env m) >>= after_detection

  abbrev pub after_client : Status → Option Error → M (Unit {0})
  after_client previous none = manifest >>= λ m. after_unmanaged (is_unmanaged m)
  after_client previous (some e) = finish_in_error env Env.manifest_client_init previous e

  unfoldable pub prepare_reconcile : Status → M (Unit {0})
  unfolding begin get_target_client finish_reconcile handle_unmanaged_manifest
      detect_orphaned_manifest handle_orphaned add_finalizers
  prepare_reconcile previous = begin previous >> get_target_client env >>= after_client previous

  -- The end of resolveAndTrackSpec and of resolveAndTrackSpecForDelete.
  unfoldable pub track_spec : Spec → M Spec
  unfolding update_manifest
  track_spec spec = manifest >>= λ m.
      if not_contains_synced_oci_ref_annotation m
      then set_manifest (update_synced_oci_ref_annotation m spec.oci_ref)
        >> update_manifest env Env.manifest_init_synced_oci_ref
      else pure spec

  unfoldable pub resolve_and_track_spec : Status → M Spec
  unfolding track_spec finish_reconcile
  resolve_and_track_spec previous = manifest >>= λ m. ask (env.get_spec m) >>= λ resolved.
      elim resolved [
        | err e ↦ finish_in_error env Env.manifest_parse_spec previous e
        | ok spec ↦ track_spec spec
      ]

  unfoldable pub render_resources : Spec → M (Result (List Resource))
  unfolding set_condition_to_true
  render_resources spec = manifest >>= λ m. ask (env.render_target_resources m spec) >>= λ rendered.
      elim rendered [
        | err e ↦ pure (err e)
        | ok target ↦ do set_manifest (set_resources_condition_true env.lib m); pure (ok target)
      ]

  -- renderResourcesForInstall with its error handling in install: the target and the current
  -- resources.
  unfoldable pub render_resources_for_install : Status → Spec → M (List Resource × List Resource)
  unfolding render_resources finish_reconcile
  render_resources_for_install previous spec = manifest >>= λ m.
      render_resources spec >>= λ rendered. elim rendered [
        | ok target ↦ pure (target, m.status.synced)
        | err e ↦
            if errors_is e inject_data_from_kcp
            then finish_in_error env Env.manifest_render_resources previous e
            else finish_reconcile env Env.manifest_render_resources previous (some e)
      ]

  -- pruneDiff with its error handling in pruneAndSync and delete.
  abbrev pub stop_unless_pruned : Status → Option Error → M (Unit {0})
  stop_unless_pruned previous none = pure tt
  stop_unless_pruned previous (some e) =
      if errors_is e deletion_not_finished
      then intended_wait env Env.manifest_prune_diff_not_finished
      else finish_reconcile env Env.manifest_prune_diff previous (some e)

  unfoldable pub prune : Status → List Resource → List Resource → Spec → M (Unit {0})
  unfolding prune_diff finish_reconcile
  prune previous current target spec =
      prune_diff env current target spec >>= stop_unless_pruned previous

  -- A step whose error finishes the reconciliation.
  abbrev pub or_finish : Env.RequeueReason → Status → M (Option Error) → M (Unit {0})
  or_finish reason previous step = step >>= λ e. elim e [
    | none ↦ pure tt
    | some e ↦ finish_reconcile env reason previous (some e)
  ]

  -- A step whose error ErrRequeueRequired ends the reconciliation without an error.
  abbrev pub or_requeue :
      Env.RequeueReason → Env.RequeueReason → Status → M (Option Error) → M (Unit {0})
  or_requeue wait reason previous step = step >>= λ e. elim e [
    | none ↦ pure tt
    | some e ↦
        if errors_is e requeue_required
        then intended_wait env wait
        else finish_reconcile env reason previous (some e)
  ]

  -- The end of both pipelines: `last` follows unless the annotation has to be updated.
  unfoldable pub update_synced_ref : {A : Type 0} → Spec → M A → M A
  unfolding update_manifest
  update_synced_ref spec last = manifest >>= λ m.
      if require_update_synced_oci_ref_annotation m spec.oci_ref
      then set_manifest (update_synced_oci_ref_annotation m spec.oci_ref)
        >> update_manifest env Env.manifest_update_synced_oci_ref
      else last

  -- install, from the rendered resources on.
  unfoldable pub install_resources : Status → Spec → List Resource → List Resource → M (Unit {0})
  unfolding prune sync_resources sync_default_cr ensure_cr_finalizer
      update_manifest_state_after_sync update_synced_ref finish_reconcile
  install_resources previous spec target current = do
    prune previous current target spec
    or_finish Env.manifest_sync_resources previous (sync_resources env target)
    or_finish Env.manifest_sync_state previous (sync_default_cr env)
    or_requeue Env.manifest_sync_resources_enqueue_required Env.manifest_sync_state previous
        (ensure_cr_finalizer env)
    or_finish Env.manifest_sync_state previous (update_manifest_state_after_sync env target)
    update_synced_ref spec (finish_reconcile env Env.manifest_reconcile_finished previous none)

  unfoldable pub install : M (Unit {0})
  unfolding prepare_reconcile resolve_and_track_spec render_resources_for_install install_resources
  install = manifest >>= λ m.
      prepare_reconcile m.status >> resolve_and_track_spec m.status >>= λ spec.
      render_resources_for_install m.status spec >>= λ rendered.
      install_resources m.status spec rendered.0 rendered.1
