-- ===== src/Kymas/Reconcile.antt =====
-- Reconcile, reconcile, processKymaState and processDeletion of
-- internal/controller/kyma/controller.go.
use lifecycle_manager.Prelude.{ℕ, String, not, ◌&&◌, none, some, ◌∷◌, if◌then◌else◌}
use lifecycle_manager.Errors.{
  Error, sentinel, wrap, errors_is, ok, err, is_not_found, access_secret_not_found,
  kyma_in_error_state,
}
use lifecycle_manager.Api.{
  ready, processing, error, deleting, warning, unmanaged, unset, state_eq, is_deleting,
  condition_true, condition_false, label_enabled, skip_reconcile_label,
  ensure_labels_and_finalizers,
}
use lifecycle_manager.Manifests.{intended_requeue, unexpected_requeue}
use lifecycle_manager.Deletion.{process_deletion}
use lifecycle_manager.Kymas.Conditions.{crds_sync, skr_image_pull_secret_sync, init_conditions}
use lifecycle_manager.Kymas.Env.{
  KymaEnv, K, ◌>>=◌, ◌>>◌, pure, throw, catch, current, modify, ask, when, call, note,
  KymaRequeueReason, remove_skr_certificate, init_skr_context, invalidate_cache, get_skr_context,
  create_kyma_namespace, update_kyma, sync_crds, sync_image_pull_secret, status_update_to_deleting,
  labels_and_finalizers_update, sync_of_crds, image_pull_secret_sync, sync_context_retrieval,
  remote_kyma_deletion, spec_replacement_from_remote, status_sync_to_remote, processing_kyma_state,
  kyma_retrieval, kyma_unauthorized,
}
use lifecycle_manager.Kymas.Status.{
  set_module_statuses_to_error, nested_error_message, update_status, update_status_with_error,
}
use lifecycle_manager.Kymas.Remote.{sync_status_to_remote, replace_spec_from_remote, delete_remote}
use lifecycle_manager.Kymas.Processing.{
  set_condition, reason, handle_processing_state, handle_initial_state,
}
use lifecycle_manager.Kymas.Deleting.{handle_deleting_state}

module _ (env : KymaEnv) where
  unfoldable pub process_kyma_state : K ℕ
  unfolding handle_processing_state handle_initial_state handle_deleting_state
  process_kyma_state = do
    kyma ← current
    elim kyma.status.state [
      | unset ↦ handle_initial_state env
      | processing ↦ handle_processing_state env
      | deleting ↦ handle_deleting_state env
      | error ↦ handle_processing_state env
      | ready ↦ handle_processing_state env
      | warning ↦ handle_processing_state env
      | unmanaged ↦ pure 0
    ]

  -- A step that, if it fails, records why and reports the wrapped error in the status.
  unfoldable pub reported : KymaRequeueReason → String → K (Unit {0}) → K (Unit {0})
  unfolding update_status_with_error
  reported r text m =
      catch m (λ e. reason env r unexpected_requeue >> update_status_with_error env (wrap text e))

  -- The steps of reconcile on a Kyma that has its labels and finalizers.
  unfoldable pub sync_crds_step : K (Unit {0})
  unfolding set_condition update_status_with_error
  sync_crds_step = do
    catch (call env sync_crds) (λ e.
        set_condition env crds_sync condition_false
        >> reason env sync_of_crds unexpected_requeue
        >> update_status_with_error env (wrap "could not sync CRDs" e))
    set_condition env crds_sync condition_true

  unfoldable pub sync_pull_secret_step : K (Unit {0})
  unfolding set_condition update_status_with_error
  sync_pull_secret_step = when env.skr_image_pull_secret_sync_enabled (do
    catch (call env sync_image_pull_secret) (λ e.
        reason env image_pull_secret_sync unexpected_requeue
        >> set_condition env skr_image_pull_secret_sync condition_false
        >> update_status_with_error env (wrap "could not sync image pull secret" e))
    set_condition env skr_image_pull_secret_sync condition_true)

  unfoldable pub spec_step : K (Unit {0})
  unfolding replace_spec_from_remote reported
  spec_step =
      reported spec_replacement_from_remote
        "could not replace control plane kyma spec with remote kyma spec"
        (replace_spec_from_remote env)

  unfoldable pub processing_step : K ℕ
  unfolding process_kyma_state
  processing_step =
      catch process_kyma_state (λ e. reason env processing_kyma_state unexpected_requeue >> throw e)

  unfoldable pub status_step : K (Unit {0})
  unfolding sync_status_to_remote reported
  status_step =
      reported status_sync_to_remote "could not synchronize remote kyma status"
        (sync_status_to_remote env)

  -- A Kyma in the state Error is requeued with an error, for the rate limiter.
  abbrev pub end_by_state : ℕ → K ℕ
  end_by_state interval s =
      if state_eq s.kyma.status.state error
      then (s, err (sentinel kyma_in_error_state))
      else (s, ok interval)

  unfoldable pub after_processing : ℕ → K ℕ
  unfolding status_step
  after_processing interval = status_step >> end_by_state interval

  unfoldable pub reconcile_prepared : K ℕ
  unfolding sync_crds_step sync_pull_secret_step spec_step processing_step after_processing
  reconcile_prepared =
      (sync_crds_step >> sync_pull_secret_step >> spec_step >> processing_step) >>= after_processing

  abbrev rate_limited : K ℕ
  rate_limited = ask (λ s. ok (env.rate_limiter s.calls))

  unfoldable pub start_deletion : K ℕ
  unfolding delete_remote update_status
  start_deletion = do
    catch (delete_remote env)
        (λ e. reason env remote_kyma_deletion unexpected_requeue >> update_status_with_error env e)
    reported status_update_to_deleting "could not update kyma status after triggering deletion"
        (update_status env deleting "waiting for modules to be deleted")
    reason env status_update_to_deleting intended_requeue
    rate_limited

  unfoldable pub update_labels : K ℕ
  update_labels = do
    kyma ← current
    reported labels_and_finalizers_update "failed to update kyma after finalizer check"
        (call env (update_kyma kyma))
    reason env labels_and_finalizers_update intended_requeue
    rate_limited

  unfoldable pub reconcile : K ℕ
  unfolding start_deletion update_labels reconcile_prepared ensure_labels_and_finalizers
  reconcile = do
    kyma ← current
    if is_deleting kyma.meta && not (state_eq kyma.status.state deleting)
        then start_deletion
        else (do
          modify (λ k. record k { meta = (ensure_labels_and_finalizers env.lib k.meta).0 })
          if (ensure_labels_and_finalizers env.lib kyma.meta).1
              then update_labels
              else reconcile_prepared)

  -- processDeletion, whose calls are those of the deletion service.
  unfoldable pub delete_kyma : K ℕ
  unfolding process_deletion
  delete_kyma s =
      let out =
        process_deletion env.errors (λ name calls. invalidate_cache ∷ calls) env.deletion s.kyma
          s.calls in
      (
        record s { calls = out.0 },
        elim out.1.error [ none ↦ ok out.1.requeue_after | some e ↦ err e ],
      )

  unfoldable pub context_failed : {A : Type 0} → Error → K A
  unfolding set_module_statuses_to_error
  context_failed e = do
    reason env sync_context_retrieval unexpected_requeue
    modify (set_module_statuses_to_error (env.text e))
    update_status_with_error env e

  unfoldable pub namespace_failed : Error → K ℕ
  unfolding set_module_statuses_to_error nested_error_message
  namespace_failed e =
      if env.errors.is_unauthorized e
      then (do
        note env invalidate_cache
        reason env kyma_unauthorized unexpected_requeue
        update_status_with_error env e)
      else (do
        note env invalidate_cache
        reason env sync_context_retrieval unexpected_requeue
        modify (set_module_statuses_to_error (nested_error_message env (some e)))
        update_status_with_error env e)

  unfoldable pub create_namespace : K ℕ
  unfolding namespace_failed reconcile
  create_namespace s = elim (call env create_kyma_namespace s).1 [
    | ok u ↦ reconcile (call env create_kyma_namespace s).0
    | err e ↦ namespace_failed e (call env create_kyma_namespace s).0
  ]

  -- What follows the initialisation of the SKR context.
  unfoldable pub reconcile_with_context : K ℕ
  unfolding context_failed create_namespace delete_kyma
  reconcile_with_context = do
    kyma ← current
    if is_deleting kyma.meta
        then delete_kyma
        else (do catch (call env get_skr_context) (λ e. context_failed e); create_namespace)

  unfoldable pub init_context : K (Unit {0})
  unfolding context_failed
  init_context =
      catch (call env init_skr_context)
        (λ e. if errors_is e access_secret_not_found then pure tt else context_failed e)

  unfoldable pub reconcile_found : K ℕ
  unfolding init_context reconcile_with_context label_enabled
  reconcile_found = do
    kyma ← current
    if label_enabled skip_reconcile_label kyma.meta && not (is_deleting kyma.meta)
        then pure env.intervals.success
        else (init_context >> reconcile_with_context)

  unfoldable pub delete_orphaned_certificate : String → K (Unit {0})
  delete_orphaned_certificate name =
      when env.watcher_enabled (call env (remove_skr_certificate name))

  -- Reconcile of a request for the Kyma of that name; the Kyma in memory is replaced at once.
  unfoldable pub reconcile_request : String → K ℕ
  unfolding delete_orphaned_certificate reconcile_found init_conditions is_not_found
  reconcile_request name s = elim (env.get_kyma s.calls) [
    | err e ↦
        if is_not_found env.errors (some e)
        then (delete_orphaned_certificate name >> pure 0) s
        else (reason env kyma_retrieval unexpected_requeue >> throw (wrap "KymaController" e)) s
    | ok kyma ↦ reconcile_found (record s {
      kyma =
          init_conditions env.lib env.watcher_enabled env.skr_image_pull_secret_sync_enabled kyma;
    })
  ]
