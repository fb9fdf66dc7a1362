-- ===== src/Kymas/Tests.antt =====
-- The sample Kyma in a reconciliation.
use lifecycle_manager.Prelude.{
  str_eq, ◌≡◌, refl, true, false, [], ◌∷◌, Option, none, some, if◌then◌else◌,
}
use lifecycle_manager.Errors.{Error, foreign, wrap, ok, err}
use lifecycle_manager.Api.{Machinery, processing, get_no_longer_existing_module_status}
use lifecycle_manager.Samples.{
  sample_kyma, sample_status, sample_reference, sample_manifest, sample_errors, sample_objects,
  sample_text,
}
use lifecycle_manager.Kymas.Env.{
  KymaEnv, KymaCall, KymaCalls, KymaSt, mcw, sync_crds, delete_tracked_manifest, tasks_of,
}
use lifecycle_manager.Kymas.Processing.{run_group, handle_processing_state}
use lifecycle_manager.Kymas.Removal.{delete_no_longer_existing_modules}
use lifecycle_manager.Kymas.Deleting.{handle_deleting_state}
use lifecycle_manager.Kymas.Reconcile.{reconcile_prepared}
use lifecycle_manager.Kymas.Aggregated.{Aggregated, handle_processing_state-Aggregated}
use lifecycle_manager.Kymas.Shown.{Shown}
use lifecycle_manager.Kymas.Unreported.{reconcile_prepared-Shown}
use lifecycle_manager.Kymas.Quiet.{updates}
use lifecycle_manager.Kymas.Untouched.{handle_deleting_state_keeps}
use lifecycle_manager.Kymas.Forgotten.{delete_no_longer_existing_modules_forgets}

abbrev no_machinery : Machinery
no_machinery = record {
  contains_finalizer = λ m f. true;
  add_finalizer = λ m f. (m, false);
  remove_finalizer = λ m f. (record m { finalizers = [] }, true);
  find_status_condition = λ cs t. none;
  set_status_condition = λ cs c. c ∷ [];
}

-- The CRDs cannot be synchronized, and each deletion of a tracked manifest succeeds but that of btp.
abbrev answers : KymaCall → KymaCalls → Option Error
answers sync_crds calls = some (foreign 1)
answers (delete_tracked_manifest object) calls =
    if str_eq object.name "btp" then some (foreign 2) else none
answers _ calls = none

abbrev kyma_env : KymaEnv
kyma_env = record {
  errors = sample_errors;
  lib = no_machinery;
  text = sample_text;
  foreign_cause = λ n. none;
  intervals = record { success = 300; busy = 5; warned = 30; failed = 2; jitter = none };
  rate_limiter = λ calls. 1;
  watcher_enabled = false;
  skr_image_pull_secret_sync_enabled = false;
  order = mcw;
  objects = sample_objects;
  room = 0;
  deletion = [];
  answer = answers;
  get_kyma = λ calls. ok sample_kyma;
  create_or_fetch_kyma = λ kyma calls. ok kyma;
  list_manifests = λ name calls. ok (sample_manifest "btp" ∷ []);
  modules_of = λ kyma calls. [];
  synced = λ modules calls. ([], none);
  get_module = λ object calls. (none, processing);
}

abbrev start : KymaSt
start = record { kyma = sample_kyma; calls = [] }

handle_processing_state-Aggregated_example :
    Aggregated kyma_env 5 (handle_processing_state kyma_env start).0
    × ((run_group kyma_env (tasks_of mcw) start).1 ≡ ok tt)
unfolding handle_processing_state
handle_processing_state-Aggregated_example =
    handle_processing_state-Aggregated kyma_env start 5 refl

reconcile_prepared-Shown_example : Shown (reconcile_prepared kyma_env start).0
unfolding reconcile_prepared
reconcile_prepared-Shown_example =
    reconcile_prepared-Shown kyma_env (λ kyma calls. refl) start
      (wrap "could not sync CRDs" (foreign 1)) refl refl

handle_deleting_state_keeps_example :
    ((e : Error) × ((handle_deleting_state kyma_env start).1 ≡ err e))
    × (updates (handle_deleting_state kyma_env start).0.calls ≡ [])
handle_deleting_state_keeps_example =
    handle_deleting_state_keeps kyma_env start (sample_manifest "btp") [] (λ calls. refl)

-- The spec names no module any more, so both modules of the status are to be removed.
abbrev emptied : KymaSt
emptied = record {
  kyma = record sample_kyma { spec = record sample_kyma.spec { modules = [] } };
  calls = [];
}

delete_no_longer_existing_modules_forgets_example :
    (delete_no_longer_existing_modules kyma_env emptied).1 ≡ ok tt
unfolding get_no_longer_existing_module_status
delete_no_longer_existing_modules_forgets_example =
    delete_no_longer_existing_modules_forgets kyma_env emptied (sample_status "btp" ∷ [])
      (sample_status "telemetry") (sample_reference "telemetry") refl refl (λ before. refl)

-- Both deletions were called, and the first of them has failed.
calls_test :
    (delete_no_longer_existing_modules kyma_env emptied).0.calls
    ≡ delete_tracked_manifest (sample_reference "telemetry")
      ∷ delete_tracked_manifest (sample_reference "btp")
      ∷ []
unfolding delete_no_longer_existing_modules
calls_test = refl
