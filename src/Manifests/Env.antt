-- ===== src/Manifests/Env.antt =====
-- The surroundings of the manifest controller, and the state of one reconciliation.
use lifecycle_manager.Prelude.{ℕ, String, Bool, List, ◌∷◌, Option, if◌then◌else◌}
use lifecycle_manager.Errors.{Error, Result, ErrorLib}
use lifecycle_manager.Api.{State, Resource, Machinery, Kyma, Status, Manifest}
use lifecycle_manager.Manifests.Requeue.{RequeueIntervals}

-- metrics.ManifestRequeueReason and queue.RequeueType
pub data RequeueReason : Type 0 where
  manifest_retrieval manifest_init manifest_client_init manifest_orphaned : RequeueReason
  manifest_add_finalizer manifest_parse_spec manifest_init_synced_oci_ref : RequeueReason
  manifest_render_resources manifest_prune_diff manifest_prune_diff_not_finished : RequeueReason
  manifest_sync_resources manifest_sync_resources_enqueue_required : RequeueReason
  manifest_sync_state manifest_update_synced_oci_ref manifest_reconcile_finished : RequeueReason
  manifest_pre_delete manifest_pre_delete_enqueue_required manifest_unmanaged_update : RequeueReason
  manifest_resources_label_removal manifest_unauthorized : RequeueReason

pub data RequeueType : Type 0 where
  intended_requeue unexpected_requeue : RequeueType

-- spec.Spec
pub record Spec : Type 0 where
  pub manifest_name : String
  pub path : String
  pub oci_ref : String

-- The calls that change something outside of the Manifest in memory: on the control plane, on the
-- SKR, in the caches, in the metrics.
pub data Call : Type 0 where
  patch_status_if_diff_exist : Manifest → Status → Call
  update_manifest_call : Manifest → Call
  ssa_spec_call : Manifest → Call
  delete_manifest : Manifest → Call
  apply_finalizers : List String → Call
  update_cr_finalizer : Manifest → Call
  resolve_client : Manifest → Call
  add_client : Call
  delete_client : String × String → Call
  evict_cache : Spec → Call
  apply_resources : List Resource → Call
  delete_resource : Resource → Call
  create_resource : Resource → Call
  delete_module_cr : Resource → Call
  remove_managed_by_label : Manifest → Call
  record_requeue_reason : RequeueReason → RequeueType → Call
  record_mandatory_module_state : State → Call
  cleanup_manifest_metrics : String → Call
  cleanup_mandatory_metrics : String → String → Call

-- The calls made so far, the last one first.
abbrev pub Calls : Type 0
Calls = List Call

-- What the interfaces of the controller, and the clients of the two clusters, answer. An answer may
-- depend on all calls made before it.
pub record Env : Type 0 where
  pub errors : ErrorLib
  pub lib : Machinery
  pub is_already_exists : Error → Bool
  pub intervals : RequeueIntervals
  pub now : Calls → ℕ
  pub answer : Call → Calls → Option Error
  pub get_manifest : Calls → Result Manifest
  pub get_kyma : String → Calls → Result Kyma
  pub has_client : String × String → Calls → Bool
  pub get_spec : Manifest → Calls → Result Spec
  pub render_target_resources : Manifest → Spec → Calls → Result (List Resource)
  pub get_state : List Resource → Calls → Result State
  -- the REST mappings of a group and kind, by the version and whether the scope is the cluster
  pub rest_mappings : String → String → Calls → Result (List (String × Bool))
  -- the listed items of a group, version and kind
  pub list_items : String → String → String → Calls → Result (List Resource)
  pub get_resource : Resource → Calls → Option Error

pub record St : Type 0 where
  pub manifest : Manifest
  pub calls : Calls

-- ctrl.Result and error: an interval in seconds, one of the rate limiter, none, or an error.
pub data Return : Type 0 where
  requeue_after : ℕ → Return
  rate_limited : Return
  no_requeue : Return
  failed : Error → Return

-- A step that continues or, as by a non-nil stepResult, stops the reconciliation.
pub data Step (A : Type 0) : Type 0 where
  next : A → Step A
  stop : Return → Step A

abbrev pub M : Type 0 → Type 0
M A = St → St × Step A

module _ {A B : Type 0} where
  infixl 5 ◌>>=◌ ◌>>◌
  abbrev pub ◌>>=◌ : M A → (A → M B) → M B
  (m >>= f) s = elim (m s).1 [ next a ↦ f a (m s).0 | stop r ↦ ((m s).0, stop r) ]

  abbrev pub ◌>>◌ : M A → M B → M B
  m >> k = m >>= λ _. k

abbrev pub pure : {A : Type 0} → A → M A
pure a s = (s, next a)

abbrev pub stop_reconcile : {A : Type 0} → Return → M A
stop_reconcile r s = (s, stop r)

-- The Manifest in memory.
abbrev pub manifest : M Manifest
manifest s = (s, next s.manifest)

abbrev pub set_manifest : Manifest → M (Unit {0})
set_manifest m s = (record s { manifest = m }, next tt)

abbrev pub when : Bool → M (Unit {0}) → M (Unit {0})
when b m = if b then m else pure tt

-- A read of the surroundings.
abbrev pub ask : {A : Type 0} → (Calls → A) → M A
ask f s = (s, next (f s.calls))

module _ (env : Env) where
  abbrev pub call : Call → M (Option Error)
  call c s = (record s { calls = c ∷ s.calls }, next (env.answer c s.calls))

  -- A call that does not fail.
  abbrev pub note : Call → M (Unit {0})
  note c s = (record s { calls = c ∷ s.calls }, next tt)
