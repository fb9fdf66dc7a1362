-- ===== src/Deletion/Controller.antt =====
-- processDeletion of internal/controller/kyma/controller.go.
use lifecycle_manager.Prelude.{ℕ, Option, none, some, List, if◌then◌else◌}
use lifecycle_manager.Errors.{Error, ErrorLib, is_connection_related_error}
use lifecycle_manager.Api.{Kyma}
use lifecycle_manager.Deletion.Defs.{UseCaseName, drop_kyma_finalizer, UseCase, delete}
use lifecycle_manager.Deletion.UseCases.{NamespacedName, get_namespaced_name}

-- ctrl.Result and error of a reconciliation: the requeue interval in seconds (0: none).
pub record ReconcileResult : Type 0 where
  pub requeue_after : ℕ
  pub error : Option Error

abbrev pub requeue_of : Option UseCaseName → ℕ
requeue_of none = 0
requeue_of (some drop_kyma_finalizer) = 0
requeue_of (some _) = 1

-- processDeletion, without the metrics and the events that it writes: `invalidate_cache` drops the
-- SKR client of the Kyma.
unfoldable pub process_deletion :
    {W : Type 0}
    → ErrorLib
    → (NamespacedName → W → W)
    → List (UseCase W)
    → Kyma
    → W
    → W × ReconcileResult
unfolding delete is_connection_related_error
process_deletion lib invalidate_cache steps kyma w =
    let out = delete steps kyma w in
    (
      if is_connection_related_error lib out.result.error
          then invalidate_cache (get_namespaced_name kyma) out.world
          else out.world,
      record { requeue_after = requeue_of out.result.use_case; error = out.result.error },
    )
