-- ===== src/Deletion/Tests.antt =====
-- The deletion of a Kyma on a concrete cluster, and the theorems at concrete inputs.
use lifecycle_manager.Prelude.{
  ℕ, zero, suc, ◌≡◌, refl, ◌↔◌, true, false, List, [], ◌∷◌, Option, none, some,
}
use lifecycle_manager.Errors.{ok, is_not_found, is_connection_related_error}
use lifecycle_manager.Api.{Kyma, ready, kyma_finalizer}
use lifecycle_manager.Deletion.Defs.{
  UseCaseName, UseCase, delete, deletion_steps, set_kcp_kyma_state_deleting,
  set_skr_kyma_state_deleting, drop_kyma_finalizer, expected_use_case_order, new_service,
}
use lifecycle_manager.Deletion.UseCases.{
  composed_steps, skr_state_applicable, watcher_setup_applicable, delete_watcher_setup,
}
use lifecycle_manager.Deletion.Controller.{process_deletion}
use lifecycle_manager.Deletion.View.{advance, collect}
use lifecycle_manager.Deletion.Selection.{new_service_iff, delete-Selects, Selects, names_of}
use lifecycle_manager.Deletion.Safety.{NothingLeft, drop_finalizer_safe}
use lifecycle_manager.Deletion.Convergence.{view-delete}
use lifecycle_manager.Deletion.Rounds.{round, rounds, IsReleased, finalizer_dropped}
use lifecycle_manager.Deletion.Cluster.{
  Cluster, view, plain_lib, repos, others, Settled, get_kyma, cluster-Behaves, get_kyma-Behaves,
}

abbrev some_kyma : Kyma
some_kyma = record {
  meta = record {
    name = "kyma-1";
    namespace = "kcp-system";
    generation = 1;
    creation_timestamp = 100;
    deletion_timestamp = some 200;
    labels = [];
    annotations = [];
    finalizers = kyma_finalizer ∷ [];
  };
  spec = record { channel = "regular"; skip_maintenance_windows = false; modules = [] };
  status = record {
    last_operation = "";
    state = ready;
    conditions = [];
    modules = [];
    active_channel = "regular";
  };
}

-- Everything is still there.
abbrev full : Cluster
full = record {
  kyma = some_kyma;
  flags = record {
    marked = true;
    deleting = false;
    unmarked = true;
    live = true;
    manifests = true;
    certificate = true;
    secret = true;
    webhook = true;
    template_crd = true;
    release_crd = true;
    skr_kyma = true;
    kyma_crd = true;
    metrics = true;
    finalizer = true;
  };
  leaving = none;
}

abbrev steps : List (UseCase Cluster)
steps = deletion_steps (composed_steps plain_lib repos)

-- The use cases of n reconciliations, one after the other.
trace : ℕ → Cluster → List (Option UseCaseName)
unfolding delete others
trace zero c = []
trace (suc n) c =
    let out = delete steps c.kyma c in out.result.use_case ∷ trace n (others out.world)

program : Unit {0}
unfolding trace others delete skr_state_applicable watcher_setup_applicable delete_watcher_setup
    is_not_found process_deletion is_connection_related_error round rounds new_service
program = tt

full_first : trace 2 full ≡ some set_kcp_kyma_state_deleting ∷ some set_skr_kyma_state_deleting ∷ []
unfolding program
full_first = refl

-- Eleven reconciliations, the last of which drops the finalizer.
empty : Cluster
unfolding program
empty = rounds plain_lib repos (λ n c. c) get_kyma others 10 full

empty_drops : (delete steps empty.kyma empty).result.use_case ≡ some drop_kyma_finalizer
unfolding program empty
empty_drops = refl

drop_finalizer_safe_example : NothingLeft plain_lib repos empty.kyma empty
unfolding empty program
drop_finalizer_safe_example = drop_finalizer_safe plain_lib repos empty.kyma empty refl empty_drops

view-delete_example :
    view (others (delete steps some_kyma full).world) ≡ collect (advance (view full))
view-delete_example = view-delete plain_lib repos view others (cluster-Behaves full refl)

delete-Selects_example : Selects some_kyma full steps (delete steps some_kyma full)
delete-Selects_example = delete-Selects some_kyma full steps

new_service_iff_example :
    (new_service (composed_steps plain_lib repos) ≡ ok steps)
    ↔ (names_of (composed_steps plain_lib repos) ≡ expected_use_case_order)
new_service_iff_example = new_service_iff (composed_steps plain_lib repos)

finalizer_dropped_example :
    IsReleased get_kyma view (rounds plain_lib repos (λ n c. c) get_kyma others 12 full)
unfolding others
finalizer_dropped_example =
    finalizer_dropped plain_lib repos (λ n c. c) get_kyma others view Settled (λ c. refl)
      get_kyma-Behaves (λ n c. refl) full refl refl
