-- ===== src/StateChecks/Pods.antt =====
-- Which container decides the state of a stateful set's pods.
use lifecycle_manager.Prelude.{◌≡◌, refl, List, [], ◌∷◌, ◌++◌}
use lifecycle_manager.Api.{State, error}
use lifecycle_manager.StateChecks.Defs.{Pod, ContainerStatus, container_state, get_pods_state}

-- The statuses of all containers, in the order of the pods.
abbrev pub all_statuses : List Pod → List ContainerStatus
all_statuses [] = []
all_statuses (p ∷ ps) = p.container_statuses ++ all_statuses ps

abbrev pub state_of_first : List ContainerStatus → State
state_of_first [] = error
state_of_first (c ∷ cs) = container_state c

go :
    (cs : List ContainerStatus) (ps : List Pod)
    → get_pods_state ps ≡ state_of_first (all_statuses ps)
    → elim cs [ [] ↦ get_pods_state ps | c ∷ ds ↦ container_state c ]
      ≡ state_of_first (cs ++ all_statuses ps)
go [] ps h = h
go (c ∷ cs) ps h = refl

-- GetPodsState is the state of the first container that has a status, whatever the containers
-- behind it are, and Error if no container of the pods has one.
pub get_pods_state_first : (ps : List Pod) → get_pods_state ps ≡ state_of_first (all_statuses ps)
unfolding get_pods_state
get_pods_state_first [] = refl
get_pods_state_first (p ∷ ps) = go p.container_statuses ps (get_pods_state_first ps)
