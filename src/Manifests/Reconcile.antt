-- ===== src/Manifests/Reconcile.antt =====
-- internal/controller/manifest/controller.go: Reconcile.
use lifecycle_manager.Prelude.{◌∷◌, some, if◌then◌else◌}
use lifecycle_manager.Errors.{wrap, is_not_found, ok, err}
use lifecycle_manager.Api.{is_deleting, skip_reconciliation}
use lifecycle_manager.Manifests.Env
use lifecycle_manager.Manifests.Env.{
  Calls, Spec, unexpected_requeue, St, Step, next, stop, Return, requeue_after, no_requeue, failed,
  M, ◌>>=◌, ◌>>◌, pure, stop_reconcile, manifest, set_manifest, ask, note,
}
use lifecycle_manager.Manifests.Install.{install}
use lifecycle_manager.Manifests.Delete.{delete}

module _ (env : Env.Env) where
  -- A pipeline always ends by a stop.
  abbrev pub returned : Step (Unit {0}) → Return
  returned (next u) = no_requeue
  returned (stop r) = r

  -- Reconcile, at the calls made before; the measurement of its duration is left out.
  unfoldable pub reconcile : Calls → Calls × Return
  unfolding install delete is_not_found
  reconcile c = elim (env.get_manifest c) [
    | err e ↦ if is_not_found env.errors (some e) then (c, no_requeue) else (
      Env.record_requeue_reason Env.manifest_retrieval unexpected_requeue ∷ c,
      failed (wrap "manifestController" e),
    )
    | ok m ↦
        if skip_reconciliation m
        then (c, requeue_after env.intervals.success)
        else let pipeline : M (Unit {0}) = if is_deleting m.meta then delete env else install env in
          let out = pipeline (record { manifest = m; calls = c }) in (out.0.calls, returned out.1)
  ]
