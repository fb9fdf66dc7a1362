-- ===== src/Kymas/Processing.antt =====
-- processKymaState, handleInitialState and handleProcessingState of
-- internal/controller/kyma/controller.go.
use lifecycle_manager.Prelude.{ℕ, List, [], ◌∷◌, if◌then◌else◌}
use lifecycle_manager.Errors.{
  wrap, errors_is, ok, err, skr_certificate_not_ready, skr_webhook_deployment_in_backoff,
}
use lifecycle_manager.Api.{
  ready, processing, state_eq, ConditionStatus, condition_true, condition_false, determine_state,
  all_modules_ready,
}
use lifecycle_manager.Manifests.{
  determine_requeue_interval, RequeueType, intended_requeue, unexpected_requeue,
}
use lifecycle_manager.Kymas.Conditions.{
  KymaConditionType, modules, module_catalog, skr_webhook, update_condition,
}
use lifecycle_manager.Kymas.Env.{
  KymaEnv, K, ◌>>=◌, ◌>>◌, pure, throw, catch, current, modify, ask, when, call, note,
  KymaRequeueReason, Task, manifests_task, catalog_task, webhook_task, tasks_of,
  record_requeue_reason, sync_module_catalog, reconcile_webhook, assert_deployment_ready,
  get_skr_context, reconcile_manifests_reason, module_catalog_sync,
  skr_webhook_resources_installation, initial_state_handling,
}
use lifecycle_manager.Kymas.Status.{update_status, update_status_with_error}
use lifecycle_manager.Kymas.Removal.{reconcile_kyma_manifests}

module _ (env : KymaEnv) where
  unfoldable pub set_condition : KymaConditionType → ConditionStatus → K (Unit {0})
  unfolding update_condition
  set_condition t status = modify (update_condition env.lib t status)

  abbrev pub reason : KymaRequeueReason → RequeueType → K (Unit {0})
  reason r t = note env (record_requeue_reason r t)

  unfoldable pub manifests_goroutine : K (Unit {0})
  unfolding reconcile_kyma_manifests set_condition all_modules_ready
  manifests_goroutine = do
    catch (reconcile_kyma_manifests env) (λ e.
        reason reconcile_manifests_reason unexpected_requeue
        >> throw (wrap "could not reconciling manifest" e))
    kyma ← current
    set_condition modules
        (if all_modules_ready kyma.status.modules then condition_true else condition_false)

  unfoldable pub catalog_goroutine : K (Unit {0})
  unfolding set_condition
  catalog_goroutine = do
    catch (call env sync_module_catalog) (λ e.
        reason module_catalog_sync unexpected_requeue
        >> set_condition module_catalog condition_false
        >> throw (wrap "failed to synchronize remote module catalog" e))
    set_condition module_catalog condition_true

  unfoldable pub check_skr_webhook_readiness : K (Unit {0})
  unfolding set_condition
  check_skr_webhook_readiness s = elim (call env assert_deployment_ready s).1 [
    | ok u ↦ set_condition skr_webhook condition_true (call env assert_deployment_ready s).0
    | err e ↦
        (set_condition skr_webhook condition_false
            >> (if errors_is e skr_webhook_deployment_in_backoff then throw e else pure tt))
          (call env assert_deployment_ready s).0
  ]

  -- The error of the second call is dropped, as in the code.
  unfoldable pub webhook_goroutine : K (Unit {0})
  unfolding check_skr_webhook_readiness set_condition
  webhook_goroutine s = elim (call env reconcile_webhook s).1 [
    | ok u ↦
        (catch (call env get_skr_context) (λ e. pure tt) >> check_skr_webhook_readiness)
          (call env reconcile_webhook s).0
    | err e ↦
        (reason skr_webhook_resources_installation unexpected_requeue
            >> set_condition skr_webhook condition_false
            >> (if errors_is e skr_certificate_not_ready then pure tt else throw e))
          (call env reconcile_webhook s).0
  ]

  unfoldable pub goroutine : Task → K (Unit {0})
  unfolding manifests_goroutine catalog_goroutine webhook_goroutine
  goroutine manifests_task = manifests_goroutine
  goroutine catalog_task = catalog_goroutine
  goroutine webhook_task = when env.watcher_enabled webhook_goroutine

  -- errGroup.Wait: all goroutines run, and the first error in time is that of the group. Each runs
  -- as a whole here.
  unfoldable pub run_group : List Task → K (Unit {0})
  unfolding goroutine
  run_group [] s = (s, ok tt)
  run_group (t ∷ ts) s = elim (goroutine t s).1 [
    | ok u ↦ run_group ts (goroutine t s).0
    | err e ↦ ((run_group ts (goroutine t s).0).0, err e)
  ]

  -- What follows the group if it has no error. An interval is in seconds, 0 is none.
  unfoldable pub finish_processing : K ℕ
  unfolding update_status determine_state determine_requeue_interval
  finish_processing = do
    kyma ← current
    let state = determine_state kyma.status in
        let message =
          if state_eq state ready
          then "kyma is ready"
          else "waiting for all modules to become ready" in
        update_status env state message >> pure (determine_requeue_interval state env.intervals)

  unfoldable pub handle_processing_state : K ℕ
  unfolding run_group finish_processing update_status_with_error
  handle_processing_state = do
    catch (run_group (tasks_of env.order)) (λ e. update_status_with_error env e)
    finish_processing

  unfoldable pub handle_initial_state : K ℕ
  unfolding update_status
  handle_initial_state = do
    catch (update_status env processing "started processing")
        (λ e. reason initial_state_handling unexpected_requeue >> throw e)
    reason initial_state_handling intended_requeue
    ask (λ s. ok (env.rate_limiter s.calls))
