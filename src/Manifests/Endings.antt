-- ===== src/Manifests/Endings.antt =====
-- internal/controller/manifest/controller.go: how a reconciliation ends, the client of the runtime,
-- and the removal of finalizers.
use lifecycle_manager.Prelude.{Bool, false, not, ◌||◌, Option, none, some, if◌then◌else◌}
use lifecycle_manager.Errors.{
  Error, wrap, access_secret_not_found, is_error, is_connection_related_error, ok, err,
}
use lifecycle_manager.Api.{
  error, warning, deleting, state_eq, Status, with_state, with_err, with_operation, Manifest,
  set_status, generate_cache_key, get_kyma_name, get_module_name, is_mandatory_module, is_unmanaged,
}
use lifecycle_manager.Manifests.Requeue.{determine_requeue_interval}
use lifecycle_manager.Manifests.Status.{remove_all_finalizers, remove_required_finalizers}
use lifecycle_manager.Manifests.Env
use lifecycle_manager.Manifests.Env.{
  Call, Calls, RequeueReason, Spec, intended_requeue, unexpected_requeue, St, Step, next, stop,
  Return, requeue_after, rate_limited, no_requeue, failed, M, ◌>>=◌, ◌>>◌, pure, stop_reconcile,
  manifest, set_manifest, when, ask, call, note,
}

module _ (env : Env.Env) where
  unfoldable pub evict_skr_client_cache : M (Unit {0})
  evict_skr_client_cache = manifest >>= λ m. elim (generate_cache_key m) [
    | none ↦ pure tt
    | some key ↦ note env (Env.delete_client key)
  ]

  -- finishReconcile
  unfoldable pub finish_reconcile : {A : Type 0} → RequeueReason → Status → Option Error → M A
  unfolding evict_skr_client_cache is_connection_related_error determine_requeue_interval
  finish_reconcile reason previous original = manifest >>= λ m.
      call env (Env.patch_status_if_diff_exist m previous) >>= λ patched. elim patched [
        | some e ↦ stop_reconcile (failed e)
        | none ↦ elim original [
          | none ↦ do
            note env (Env.record_requeue_reason reason intended_requeue)
            stop_reconcile (requeue_after (determine_requeue_interval m.status.state env.intervals))
          | some e ↦
              if is_connection_related_error env.errors (some e)
              then (do
                evict_skr_client_cache
                note env (Env.record_requeue_reason Env.manifest_unauthorized unexpected_requeue)
                stop_reconcile (failed e))
              else do
                note env (Env.record_requeue_reason reason unexpected_requeue)
                stop_reconcile (failed e)
        ]
      ]

  -- The Manifest gets the state Error and the error, then the reconciliation finishes.
  abbrev pub finish_in_error : {A : Type 0} → RequeueReason → Status → Error → M A
  finish_in_error reason previous e = do
    m ← manifest
    set_manifest (set_status m (with_err (with_state m.status error) e))
    finish_reconcile reason previous (some e)

  unfoldable pub ssa_spec : {A : Type 0} → RequeueReason → M A
  ssa_spec reason = do
    note env (Env.record_requeue_reason reason intended_requeue)
    m ← manifest
    e ← call env (Env.ssa_spec_call m)
    stop_reconcile (elim e [ none ↦ rate_limited | some e ↦ failed e ])

  unfoldable pub update_manifest : {A : Type 0} → RequeueReason → M A
  update_manifest reason = do
    note env (Env.record_requeue_reason reason intended_requeue)
    m ← manifest
    e ← call env (Env.update_manifest_call m)
    stop_reconcile (elim e [ none ↦ rate_limited | some e ↦ failed e ])

  abbrev pub intended_wait : {A : Type 0} → RequeueReason → M A
  intended_wait reason = do
    note env (Env.record_requeue_reason reason intended_requeue)
    stop_reconcile rate_limited

  -- getTargetClient, whose client is one value for each state of the surroundings.
  unfoldable pub get_target_client : M (Option Error)
  get_target_client = manifest >>= λ m.
      ask (λ c. elim (generate_cache_key m) [ none ↦ false | some key ↦ env.has_client key c ])
      >>= λ cached.
          if cached
          then pure none
          else call env (Env.resolve_client m) >>= λ e. elim e [
            | some e ↦ pure (some e)
            | none ↦ note env Env.add_client >> pure none
          ]

  unfoldable pub cleanup_metrics : M (Option Error)
  cleanup_metrics = manifest >>= λ m. elim (get_kyma_name m) [
    | err e ↦ pure (some (wrap "failed to get kyma name" e))
    | ok kyma_name ↦ elim (get_module_name m) [
      | err e ↦ pure (some (wrap "failed to get module name" e))
      | ok module_name ↦ do
        note env (Env.cleanup_manifest_metrics m.meta.name)
        when (is_mandatory_module m)
            (note env (Env.cleanup_mandatory_metrics kyma_name module_name))
        pure none
    ]
  ]

  -- The finalizers that cleanupManifest removes.
  abbrev pub without_finalizers : Option Error → Manifest → Manifest × Bool
  without_finalizers original m =
      if is_error original access_secret_not_found || is_unmanaged m
      then remove_all_finalizers env.lib m
      else remove_required_finalizers env.lib m

  unfoldable pub cleanup_manifest : {A : Type 0} → Status → RequeueReason → Option Error → M A
  unfolding cleanup_metrics update_manifest finish_reconcile remove_all_finalizers
      remove_required_finalizers
  cleanup_manifest previous reason original = cleanup_metrics >>= λ e. elim e [
    | some e ↦ stop_reconcile (failed e)
    | none ↦ do
      m ← manifest
      set_manifest (without_finalizers original m).0
      if (without_finalizers original m).1 then update_manifest reason else do
        left ← manifest
        when (not (state_eq left.status.state warning)) (
            set_manifest (
              set_status left (
                with_operation (with_state left.status deleting)
                  "waiting as other finalizers are present")))
        finish_reconcile reason previous original
  ]
