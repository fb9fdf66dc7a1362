-- ===== src/Kymas/Deleting.antt =====
-- handleDeletingState and cleanupManifestCRs of internal/controller/kyma/controller.go.
use lifecycle_manager.Prelude.{ℕ, List, [], ◌∷◌, if◌then◌else◌}
use lifecycle_manager.Errors.{sentinel, wrap, ok, err, manifests_still_exist}
use lifecycle_manager.Api.{Manifest, kyma_finalizer}
use lifecycle_manager.Manifests.{intended_requeue, unexpected_requeue}
use lifecycle_manager.Kymas.Env.{
  KymaEnv, K, ◌>>=◌, ◌>>◌, pure, throw, catch, wrap_error, current, modify, ask, when, call, note,
  remove_webhook, delete_module_catalog, get_skr_context, invalidate_cache,
  remove_remote_finalizers, delete_manifest_call, cleanup_metrics, update_kyma, warning_event,
  update_spec_error, remote_module_catalog_deletion, finalizers_removal_from_remote_kyma,
  cleanup_manifest_crs_reason, kyma_deletion,
}
use lifecycle_manager.Kymas.Status.{update_status_with_error}
use lifecycle_manager.Kymas.Processing.{reason}

module _ (env : KymaEnv) where
  -- client.IgnoreNotFound
  abbrev pub ignoring_not_found : K (Unit {0}) → K (Unit {0})
  ignoring_not_found m = catch m (λ e. if env.errors.is_api_not_found e then pure tt else throw e)

  unfoldable pub delete_manifests : List Manifest → K (Unit {0})
  delete_manifests [] = pure tt
  delete_manifests (m ∷ ms) = do
    wrap_error "error while trying to delete manifest"
        (ignoring_not_found (call env (delete_manifest_call m)))
    delete_manifests ms

  -- getRelatedManifestCRs: where the kind is unknown, the list is empty.
  unfoldable pub get_related_manifest_crs : K (List Manifest)
  get_related_manifest_crs s = elim (env.list_manifests s.kyma.meta.name s.calls) [
    | ok ms ↦ (s, ok ms)
    | err e ↦
        if env.errors.is_api_not_found e
        then (s, ok [])
        else (s, err (wrap "failed to get related manifests" e))
  ]

  unfoldable pub delete_related : List Manifest → K (Unit {0})
  unfolding delete_manifests
  delete_related [] = pure tt
  delete_related (m ∷ ms) = do
    wrap_error "error while trying to delete manifests" (delete_manifests (m ∷ ms))
    throw (sentinel manifests_still_exist)

  unfoldable pub cleanup_manifest_crs : K (Unit {0})
  unfolding get_related_manifest_crs delete_related
  cleanup_manifest_crs = do
    manifests ← wrap_error "error while trying to get manifests" get_related_manifest_crs
    delete_related manifests

  -- updateKyma
  unfoldable pub update_kyma_spec : K (Unit {0})
  update_kyma_spec = do
    kyma ← current
    catch (call env (update_kyma kyma)) (λ e.
        let wrapped = wrap "error while updating kyma during deletion" e in
        note env (warning_event update_spec_error wrapped) >> throw wrapped)

  -- The end of handleDeletingState, behind the cleanup of the manifests.
  unfoldable pub drop_finalizer : K ℕ
  unfolding update_kyma_spec
  drop_finalizer = do
    kyma ← current
    note env (cleanup_metrics kyma.meta.name)
    modify (λ k. record k { meta = (env.lib.remove_finalizer k.meta kyma_finalizer).0 })
    catch update_kyma_spec (λ e. reason env kyma_deletion unexpected_requeue >> throw e)
    reason env kyma_deletion intended_requeue
    ask (λ s. ok (env.rate_limiter s.calls))

  unfoldable pub cleanup_step : K (Unit {0})
  unfolding cleanup_manifest_crs
  cleanup_step =
      catch cleanup_manifest_crs
        (λ e. reason env cleanup_manifest_crs_reason unexpected_requeue >> throw e)

  unfoldable pub delete_catalog_step : K (Unit {0})
  unfolding update_status_with_error
  delete_catalog_step =
      catch (wrap_error "failed to delete remote module catalog" (call env delete_module_catalog))
        (λ e.
          reason env remote_module_catalog_deletion unexpected_requeue
          >> update_status_with_error env e)

  unfoldable pub context_step : K (Unit {0})
  context_step = wrap_error "failed to get skrContext" (call env get_skr_context)

  unfoldable pub remote_finalizers_step : K (Unit {0})
  unfolding update_status_with_error
  remote_finalizers_step = catch (ignoring_not_found (call env remove_remote_finalizers)) (λ e.
      reason env finalizers_removal_from_remote_kyma unexpected_requeue
      >> update_status_with_error env e)

  unfoldable pub handle_deleting_state : K ℕ
  unfolding delete_catalog_step context_step remote_finalizers_step cleanup_step drop_finalizer
  handle_deleting_state =
      when env.watcher_enabled (call env remove_webhook)
      >> delete_catalog_step
      >> context_step
      >> note env invalidate_cache
      >> remote_finalizers_step
      >> cleanup_step
      >> drop_finalizer
