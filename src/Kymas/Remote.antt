-- ===== src/Kymas/Remote.antt =====
-- The Kyma in the SKR: fetchRemoteKyma, syncStatusToRemote, replaceSpecFromRemote and
-- deleteRemoteKyma of internal/controller/kyma/controller.go, and ReplaceSpec of
-- internal/remote/skr_context.go.
use lifecycle_manager.Prelude.{Option, none, some, if◌then◌else◌}
use lifecycle_manager.Errors.{
  Error, sentinel, wrap, errors_is, ok, err, invalid_kyma_spec,
  not_found_and_kcp_kyma_under_deleting,
}
use lifecycle_manager.Api.{Kyma, is_none_channel}
use lifecycle_manager.Kymas.Env.{
  KymaEnv, K, ◌>>=◌, ◌>>◌, pure, throw, catch, wrap_error, current, ask, call, get_skr_context,
  delete_remote_kyma, synchronize_kyma_metadata, synchronize_kyma_status,
}

-- SkipMaintenanceWindows stays that of the control plane.
unfoldable pub replace_spec : Kyma → Kyma → Kyma
replace_spec remote kyma = record kyma {
  spec = record kyma.spec { channel = remote.spec.channel; modules = remote.spec.modules };
}

unfoldable pub validate_default_channel : Kyma → Option Error
unfolding is_none_channel
validate_default_channel kyma =
    if is_none_channel kyma.spec.channel
    then some (wrap "value \"none\" is not allowed in spec.channel" (sentinel invalid_kyma_spec))
    else none

module _ (env : KymaEnv) where
  unfoldable pub fetch_remote_kyma : K Kyma
  fetch_remote_kyma = do
    wrap_error "failed to get syncContext" (call env get_skr_context)
    catch (ask (λ s. env.create_or_fetch_kyma s.kyma s.calls)) (λ e. throw (
        if errors_is e not_found_and_kcp_kyma_under_deleting
        then e
        else wrap "could not create or fetch remote kyma" e))

  -- What both callers do with the remote Kyma; without one that is to be expected, nothing.
  unfoldable pub with_remote : (Kyma → K (Unit {0})) → K (Unit {0})
  unfolding fetch_remote_kyma
  with_remote f s = elim (fetch_remote_kyma s).1 [
    | ok remote ↦ f remote (fetch_remote_kyma s).0
    | err e ↦
        if errors_is e not_found_and_kcp_kyma_under_deleting
        then ((fetch_remote_kyma s).0, ok tt)
        else ((fetch_remote_kyma s).0, err e)
  ]

  unfoldable pub sync_status_to_remote : K (Unit {0})
  unfolding with_remote
  sync_status_to_remote = with_remote (λ remote. do
    wrap_error "failed to get skrContext" (call env get_skr_context)
    wrap_error "failed to sync SKR Kyma CR Metadata" (call env synchronize_kyma_metadata)
    kyma ← current
    wrap_error "failed to sync SKR Kyma CR Status" (call env (synchronize_kyma_status kyma)))

  -- What replaceSpecFromRemote does with the remote Kyma.
  unfoldable pub replace_and_validate : Kyma → K (Unit {0})
  unfolding replace_spec validate_default_channel
  replace_and_validate remote s =
      let kyma = replace_spec remote s.kyma in
      (
        record s { kyma = kyma },
        elim (validate_default_channel kyma) [ none ↦ ok tt | some e ↦ err e ],
      )

  unfoldable pub replace_spec_from_remote : K (Unit {0})
  unfolding with_remote replace_and_validate
  replace_spec_from_remote = with_remote replace_and_validate

  unfoldable pub delete_remote : K (Unit {0})
  delete_remote = do
    wrap_error "failed to get skrContext" (call env get_skr_context)
    catch (call env delete_remote_kyma) (λ e.
        if env.errors.is_api_not_found e
        then pure tt
        else throw (wrap "error occurred while trying to delete remotely synced kyma" e))
