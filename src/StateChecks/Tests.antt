-- ===== src/StateChecks/Tests.antt =====
-- Sample resources for the state checks.
use lifecycle_manager.Prelude.{
  String, str_eq, ◌≡◌, refl, ◌↔◌, true, false, List, [], ◌∷◌, All, Option, none, some,
  if◌then◌else◌,
}
use lifecycle_manager.Errors.{foreign, err}
use lifecycle_manager.Api.{ready, processing, error, condition_true}
use lifecycle_manager.StateChecks.Defs.{
  Client, Deployment, DeploymentCondition, StatefulSet, ContainerStatus, Pod, manager_state,
  exists_state, get_pods_state, stateful_set_state,
}
use lifecycle_manager.StateChecks.Rollout.{Complete, manager_state_ready_iff}
use lifecycle_manager.StateChecks.Found.{FoundOrMissing, exists_state_ready_iff}

abbrev condition_of : List DeploymentCondition → String → Option DeploymentCondition
condition_of [] t = none
condition_of (c ∷ cs) t = if str_eq c.condition_type t then some c else condition_of cs t

-- A resource is a deployment, or none for one that is no manager, which the client does not find.
abbrev clnt : Client (Option Deployment)
clnt = record {
  to_deployment = λ o. o;
  to_stateful_set = λ o. none;
  get_deployment_condition = λ d t. condition_of d.conditions t;
  is_api_not_found = λ e. true;
  list_pods = λ namespace labels. err (foreign 1);
  get = λ o. elim o [ none ↦ some (foreign 2) | some d ↦ none ];
}

abbrev progressing : DeploymentCondition
progressing = record {
  condition_type = "Progressing";
  status = condition_true;
  reason = "NewReplicaSetAvailable";
}

abbrev available : DeploymentCondition
available = record { condition_type = "Available"; status = condition_true; reason = "" }

abbrev rolled_out : Deployment
rolled_out = record { conditions = progressing ∷ available ∷ [] }

abbrev unavailable : Deployment
unavailable = record { conditions = progressing ∷ [] }

manager_state_ready_iff_example :
    (manager_state clnt (none ∷ some rolled_out ∷ some unavailable ∷ []) ≡ (ready, none))
    ↔ Complete (some progressing) (some available)
manager_state_ready_iff_example =
    manager_state_ready_iff clnt (none ∷ []) (some rolled_out) (some unavailable ∷ []) rolled_out
      (refl, tt) refl

rolled_out_test :
    manager_state clnt (none ∷ some rolled_out ∷ some unavailable ∷ []) ≡ (ready, none)
unfolding manager_state
rolled_out_test = refl

unavailable_test : manager_state clnt (some unavailable ∷ []) ≡ (processing, none)
unfolding manager_state
unavailable_test = refl

exists_state_ready_iff_example :
    (exists_state clnt (none ∷ some rolled_out ∷ []) ≡ (ready, none))
    ↔ All (FoundOrMissing clnt) (none ∷ some rolled_out ∷ [])
exists_state_ready_iff_example = exists_state_ready_iff clnt (none ∷ some rolled_out ∷ [])

-- A resource that is missing counts as one that exists.
missing_test : exists_state clnt (none ∷ []) ≡ (ready, none)
unfolding exists_state
missing_test = refl

abbrev starting : ContainerStatus
starting = record { started = some true; ready = false }

abbrev failed : ContainerStatus
failed = record { started = none; ready = false }

abbrev pods : List Pod
pods =
    record { container_statuses = [] }
    ∷ record { container_statuses = starting ∷ failed ∷ [] }
    ∷ record { container_statuses = failed ∷ [] }
    ∷ []

pods_test : get_pods_state pods ≡ processing
unfolding get_pods_state
pods_test = refl

abbrev stateful_set : StatefulSet
stateful_set = record {
  namespace = "kyma";
  match_labels = [];
  replicas = some 2;
  ready_replicas = 1;
}

unlisted_test : (stateful_set_state clnt stateful_set).0 ≡ error
unfolding stateful_set_state
unlisted_test = refl
