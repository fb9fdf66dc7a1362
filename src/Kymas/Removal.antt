-- ===== src/Kymas/Removal.antt =====
-- reconcileManifests and DeleteNoLongerExistingModules of internal/controller/kyma/controller.go.
use lifecycle_manager.Prelude.{List, [], ◌∷◌, Option, none, some, if◌then◌else◌}
use lifecycle_manager.Errors.{Error, wrap, ok, err}
use lifecycle_manager.Api.{ModuleStatus, TrackingObject, get_no_longer_existing_module_status}
use lifecycle_manager.Modules.{CommonModule}
use lifecycle_manager.Statuses.{update_module_statuses}
use lifecycle_manager.Kymas.Env.{
  KymaEnv, KymaCalls, K, ◌>>=◌, ◌>>◌, wrap_error, ask, delete_tracked_manifest, sync_manifests,
  remove_metrics,
}

module _ (env : KymaEnv) where
  -- deleteManifest: the calls behind it, and its error.
  unfoldable pub delete_tracked : TrackingObject → KymaCalls → KymaCalls × Option Error
  delete_tracked object calls = (
    delete_tracked_manifest object ∷ calls,
    elim (env.answer (delete_tracked_manifest object) calls) [
      | none ↦ none
      | some e ↦ some (wrap "failed delete manifest crd" e)
    ],
  )

  -- The loop of DeleteNoLongerExistingModules: `last` is the error of the latest deletion.
  unfoldable pub delete_all_tracked :
      List ModuleStatus → Option Error → KymaCalls → KymaCalls × Option Error
  unfolding delete_tracked
  delete_all_tracked [] last calls = (calls, last)
  delete_all_tracked (s ∷ ss) last calls = elim s.manifest [
    | none ↦ delete_all_tracked ss last calls
    | some object ↦ let out = delete_tracked object calls in delete_all_tracked ss out.1 out.0
  ]

  -- client.IgnoreNotFound(err) != nil
  abbrev pub is_failure : Option Error → Option Error
  is_failure none = none
  is_failure (some e) = if env.errors.is_api_not_found e then none else some e

  unfoldable pub delete_no_longer_existing_modules : K (Unit {0})
  unfolding delete_all_tracked get_no_longer_existing_module_status
  delete_no_longer_existing_modules s =
      let out = delete_all_tracked (get_no_longer_existing_module_status s.kyma) none s.calls in
      (
        record s { calls = out.0 },
        elim (is_failure out.1) [ none ↦ ok tt | some e ↦ err (wrap "error deleting module" e) ],
      )

  -- The runner, and the modules behind it.
  unfoldable pub run_sync : List CommonModule → K (List CommonModule)
  run_sync modules s =
      let out = env.synced modules s.calls in
      (
        record s { calls = sync_manifests modules ∷ s.calls },
        elim out.1 [ none ↦ ok out.0 | some e ↦ err (wrap "sync failed" e) ],
      )

  unfoldable pub update_statuses : List CommonModule → K (Unit {0})
  unfolding update_module_statuses
  update_statuses modules s =
      elim (update_module_statuses env.errors (λ o. env.get_module o s.calls) env.text env.objects
        env.room modules (some s.kyma)) [
          | err e ↦ (s, err (wrap "failed to update module statuses" e))
          | ok (kyma, removed) ↦
              (record s { kyma = kyma; calls = remove_metrics removed ∷ s.calls }, ok tt)
        ]

  unfoldable pub reconcile_kyma_manifests : K (Unit {0})
  unfolding run_sync update_statuses delete_no_longer_existing_modules
  reconcile_kyma_manifests = do
    modules ← ask (λ s. ok (env.modules_of s.kyma s.calls))
    synced ← run_sync modules
    update_statuses synced
    wrap_error "error while syncing conditions during deleting non exists modules"
        delete_no_longer_existing_modules
