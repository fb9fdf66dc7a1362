-- ===== src/StateChecks/Defs.antt =====
-- internal/manifest/statecheck: state_check.go, deployment_state_check.go,
-- statefulset_state_check.go and exists_state_check.go.
use lifecycle_manager.Prelude.{
  ℕ, ◌==◌, String, str_eq, Bool, false, ◌&&◌, ◌||◌, List, [], ◌∷◌, Option, none, some,
  if◌then◌else◌,
}
use lifecycle_manager.Errors.{Error, wrap, Result, ok, err}
use lifecycle_manager.Api.{State, ready, processing, error, ConditionStatus, is_condition_true}

-- The parts of the objects of k8s.io/api that the checks read.
pub record DeploymentCondition : Type 0 where
  pub condition_type : String
  pub status : ConditionStatus
  pub reason : String

pub record Deployment : Type 0 where
  pub conditions : List DeploymentCondition

pub record StatefulSet : Type 0 where
  pub namespace : String
  pub match_labels : List (String × String)
  pub replicas : Option ℕ
  pub ready_replicas : ℕ

pub record ContainerStatus : Type 0 where
  pub started : Option Bool
  pub ready : Bool

-- A Pod, as its container statuses.
pub record Pod : Type 0 where
  pub container_statuses : List ContainerStatus

-- The calls of the libraries on objects of the type O: the conversions of the scheme, with `none`
-- for an error, GetDeploymentCondition of kubectl, client.IgnoreNotFound's test, and the client.
pub record Client (O : Type 0) : Type 0 where
  pub to_deployment : O → Option Deployment
  pub to_stateful_set : O → Option StatefulSet
  pub get_deployment_condition : Deployment → (condition_type : String) → Option DeploymentCondition
  pub is_api_not_found : Error → Bool
  pub list_pods : (namespace : String) → (match_labels : List (String × String)) → Result (List Pod)
  pub get : O → Option Error

abbrev pub new_replica_set_available_reason : String
new_replica_set_available_reason = "NewReplicaSetAvailable"

abbrev pub found_new_replica_set_reason : String
found_new_replica_set_reason = "FoundNewReplicaSet"

abbrev pub new_replica_set_created_reason : String
new_replica_set_created_reason = "NewReplicaSetCreated"

abbrev pub replica_set_updated_reason : String
replica_set_updated_reason = "ReplicaSetUpdated"

abbrev pub condition_holds : Option DeploymentCondition → Bool
condition_holds none = false
condition_holds (some c) = is_condition_true c.status

abbrev pub is_under_way : String → Bool
is_under_way reason =
    str_eq reason found_new_replica_set_reason
    || (str_eq reason new_replica_set_created_reason || str_eq reason replica_set_updated_reason)

unfoldable pub determine_deployment_state :
    (progressing_condition available_condition : Option DeploymentCondition) → State
determine_deployment_state none available = error
determine_deployment_state (some c) available =
    if is_condition_true c.status
    then if condition_holds available
      then if str_eq c.reason new_replica_set_available_reason
        then ready
        else if is_under_way c.reason
        then processing
        else error
      else if str_eq c.reason new_replica_set_available_reason || is_under_way c.reason
      then processing
      else error
    else error

unfoldable pub is_stateful_set_ready : StatefulSet → Bool
is_stateful_set_ready s = elim s.replicas [ none ↦ false | some n ↦ n == s.ready_replicas ]

-- The body of the inner loop of GetPodsState, which returns in each of its branches.
abbrev pub container_state : ContainerStatus → State
container_state c = elim c.started [
  | none ↦ error
  | some started ↦ if started && c.ready then ready else if started then processing else error
]

unfoldable pub get_pods_state : List Pod → State
get_pods_state [] = error
get_pods_state (p ∷ ps) =
    let rest = get_pods_state ps in
    elim p.container_statuses [ [] ↦ rest | c ∷ cs ↦ container_state c ]

pub data Manager : Type 0 where
  deployment : Deployment → Manager
  stateful_set : StatefulSet → Manager

module _ {O : Type 0} (clnt : Client O) where
  unfoldable pub deployment_state : Deployment → State
  unfolding determine_deployment_state
  deployment_state d =
      determine_deployment_state (clnt.get_deployment_condition d "Progressing")
        (clnt.get_deployment_condition d "Available")

  -- getPodsForStatefulSet
  unfoldable pub get_pods : StatefulSet → Result (List Pod)
  get_pods s = elim (clnt.list_pods s.namespace s.match_labels) [
    | ok ps ↦ ok ps
    | err e ↦ err (wrap "failed to list pods" e)
  ]

  unfoldable pub stateful_set_state : StatefulSet → State × Option Error
  unfolding is_stateful_set_ready get_pods get_pods_state
  stateful_set_state s =
      if is_stateful_set_ready s
      then (ready, none)
      else elim (get_pods s) [ err e ↦ (error, some e) | ok ps ↦ (get_pods_state ps, none) ]

  -- What findManager makes of one object.
  abbrev pub manager_of : O → Option Manager
  manager_of o = elim (clnt.to_deployment o) [
    | some d ↦ some (deployment d)
    | none ↦ elim (clnt.to_stateful_set o) [ some s ↦ some (stateful_set s) | none ↦ none ]
  ]

  unfoldable pub find_manager : List O → Option Manager
  find_manager [] = none
  find_manager (o ∷ os) =
      let rest = find_manager os in elim (manager_of o) [ some m ↦ some m | none ↦ rest ]

  -- (m *ManagerStateCheck) GetState
  unfoldable pub manager_state : List O → State × Option Error
  unfolding find_manager stateful_set_state deployment_state
  manager_state resources = elim (find_manager resources) [
    | none ↦ (ready, none)
    | some (stateful_set s) ↦ stateful_set_state s
    | some (deployment d) ↦ (deployment_state d, none)
  ]

  -- (c *ExistsStateCheck) GetState
  unfoldable pub exists_state : List O → State × Option Error
  exists_state [] = (ready, none)
  exists_state (o ∷ os) =
      let rest = exists_state os in
      elim (clnt.get o) [
        | none ↦ rest
        | some e ↦
            if clnt.is_api_not_found e
            then rest
            else (error, some (wrap "failed to fetch object by key" e))
      ]
