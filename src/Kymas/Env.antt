-- ===== src/Kymas/Env.antt =====
-- The surroundings of the Kyma controller, and the state of one reconciliation.
use lifecycle_manager.Prelude.{ℕ, String, Bool, List, [], ◌∷◌, Option, none, some, if◌then◌else◌}
use lifecycle_manager.Errors.{Error, wrap, Result, ok, err, ErrorLib}
use lifecycle_manager.Api.{Kyma, Manifest, State, TrackingObject, Machinery}
use lifecycle_manager.Manifests.{RequeueIntervals, RequeueType}
use lifecycle_manager.Modules.{CommonModule, Objects}
use lifecycle_manager.Deletion.{UseCase}

-- metrics.KymaRequeueReason
pub data KymaRequeueReason : Type 0 where
  status_update_to_deleting labels_and_finalizers_update sync_of_crds : KymaRequeueReason
  image_pull_secret_sync reconcile_manifests_reason module_catalog_sync : KymaRequeueReason
  skr_webhook_resources_installation initial_state_handling : KymaRequeueReason
  sync_context_retrieval remote_kyma_deletion spec_replacement_from_remote : KymaRequeueReason
  status_sync_to_remote processing_kyma_state : KymaRequeueReason
  finalizers_removal_from_remote_kyma remote_module_catalog_deletion : KymaRequeueReason
  cleanup_manifest_crs_reason kyma_deletion kyma_retrieval kyma_unauthorized : KymaRequeueReason

-- event.Reason
pub data EventReason : Type 0 where
  update_spec_error update_status_error patch_status_error : EventReason

-- The calls of the controller that change something outside of the Kyma in memory.
pub data KymaCall : Type 0 where
  remove_skr_certificate : String → KymaCall
  init_skr_context invalidate_cache get_skr_context create_kyma_namespace : KymaCall
  delete_remote_kyma remove_remote_finalizers synchronize_kyma_metadata : KymaCall
  synchronize_kyma_status update_kyma patch_status update_metrics : Kyma → KymaCall
  sync_crds sync_image_pull_secret sync_module_catalog delete_module_catalog : KymaCall
  reconcile_webhook remove_webhook assert_deployment_ready : KymaCall
  sync_manifests : List CommonModule → KymaCall
  remove_metrics : List String → KymaCall
  delete_tracked_manifest : TrackingObject → KymaCall
  delete_manifest_call : Manifest → KymaCall
  cleanup_metrics : String → KymaCall
  warning_event : EventReason → Error → KymaCall
  record_requeue_reason : KymaRequeueReason → RequeueType → KymaCall

-- The calls made so far, the last one first.
abbrev pub KymaCalls : Type 0
KymaCalls = List KymaCall

-- The three goroutines of handleProcessingState, and the orders in which they may run. Without the
-- watcher there is no goroutine for the webhook.
pub data Task : Type 0 where
  manifests_task catalog_task webhook_task : Task

pub data TaskOrder : Type 0 where
  mcw mwc cmw cwm wmc wcm : TaskOrder

abbrev pub tasks_of : TaskOrder → List Task
tasks_of mcw = manifests_task ∷ catalog_task ∷ webhook_task ∷ []
tasks_of mwc = manifests_task ∷ webhook_task ∷ catalog_task ∷ []
tasks_of cmw = catalog_task ∷ manifests_task ∷ webhook_task ∷ []
tasks_of cwm = catalog_task ∷ webhook_task ∷ manifests_task ∷ []
tasks_of wmc = webhook_task ∷ manifests_task ∷ catalog_task ∷ []
tasks_of wcm = webhook_task ∷ catalog_task ∷ manifests_task ∷ []

-- What the interfaces of the controller and the clients of the two clusters answer; an answer may
-- depend on all calls made before it. `modules_of` is GetRegularTemplates and
-- GenerateModulesFromTemplates, `synced` is ReconcileManifests of the runner, with the modules
-- behind it, and `room` is the spare capacity of the module statuses. `foreign_cause` is what
-- errors.Unwrap gives for an error of a library.
pub record KymaEnv : Type 0 where
  pub errors : ErrorLib
  pub lib : Machinery
  pub text : Error → String
  pub foreign_cause : ℕ → Option Error
  pub intervals : RequeueIntervals
  pub rate_limiter : KymaCalls → ℕ
  pub watcher_enabled : Bool
  pub skr_image_pull_secret_sync_enabled : Bool
  pub order : TaskOrder
  pub objects : Objects
  pub room : ℕ
  pub deletion : List (UseCase KymaCalls)
  pub answer : KymaCall → KymaCalls → Option Error
  pub get_kyma : KymaCalls → Result Kyma
  pub create_or_fetch_kyma : Kyma → KymaCalls → Result Kyma
  pub list_manifests : String → KymaCalls → Result (List Manifest)
  pub modules_of : Kyma → KymaCalls → List CommonModule
  pub synced : List CommonModule → KymaCalls → List CommonModule × Option Error
  pub get_module : TrackingObject → KymaCalls → Option Error × State

pub record KymaSt : Type 0 where
  pub kyma : Kyma
  pub calls : KymaCalls

-- A step of the controller: what it changes, and its value or its error.
abbrev pub K : Type 0 → Type 0
K A = KymaSt → KymaSt × Result A

module _ {A B : Type 0} where
  infixl 5 ◌>>=◌ ◌>>◌
  abbrev pub ◌>>=◌ : K A → (A → K B) → K B
  (m >>= f) s = elim (m s).1 [ ok a ↦ f a (m s).0 | err e ↦ ((m s).0, err e) ]

  abbrev pub ◌>>◌ : K A → K B → K B
  m >> k = m >>= λ _. k

module _ {A : Type 0} where
  abbrev pub pure : A → K A
  pure a s = (s, ok a)

  abbrev pub throw : Error → K A
  throw e s = (s, err e)

  -- `if err := m(); err != nil`: what the caller does with the error.
  abbrev pub catch : K A → (Error → K A) → K A
  catch m f s = elim (m s).1 [ ok a ↦ ((m s).0, ok a) | err e ↦ f e (m s).0 ]

  abbrev pub wrap_error : String → K A → K A
  wrap_error text m = catch m (λ e. throw (wrap text e))

  -- A read of the surroundings that may fail.
  abbrev pub ask : (KymaSt → Result A) → K A
  ask f s = (s, f s)

abbrev pub when : Bool → K (Unit {0}) → K (Unit {0})
when b m = if b then m else pure tt

abbrev pub current : K Kyma
current s = (s, ok s.kyma)

abbrev pub modify : (Kyma → Kyma) → K (Unit {0})
modify f s = (record s { kyma = f s.kyma }, ok tt)

module _ (env : KymaEnv) where
  abbrev answered : Option Error → Result (Unit {0})
  answered none = ok tt
  answered (some e) = err e

  abbrev pub call : KymaCall → K (Unit {0})
  call c s = (record s { calls = c ∷ s.calls }, answered (env.answer c s.calls))

  -- A call that does not fail.
  abbrev pub note : KymaCall → K (Unit {0})
  note c s = (record s { calls = c ∷ s.calls }, ok tt)
