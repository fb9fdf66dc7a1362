-- ===== src/StateChecks/Rollout.antt =====
-- When ManagerStateCheck says that a module is ready.
use lifecycle_manager.Prelude.{
  ◌≡◌, refl, sym, ap, ◌∙◌, ◌↔◌, str_eq, arith, eq_iff, true, List, [], ◌∷◌, ◌++◌, All, Option, none,
  some,
}
use lifecycle_manager.Api.{ready, condition_true}
use lifecycle_manager.StateChecks.Defs.{
  Client, Deployment, DeploymentCondition, Manager, deployment, manager_of, find_manager,
  manager_state, determine_deployment_state, deployment_state,
}

-- The rollout is over: the newest replica set is available, and so is the deployment.
abbrev pub Complete : Option DeploymentCondition → Option DeploymentCondition → Type 0
Complete progressing available =
    (p : DeploymentCondition) × (a : DeploymentCondition) × (progressing ≡ some p)
    × (available ≡ some a)
    × (p.status ≡ condition_true)
    × (p.reason ≡ "NewReplicaSetAvailable")
    × (a.status ≡ condition_true)

determined-Complete :
    (progressing available : Option DeploymentCondition)
    → determine_deployment_state progressing available ≡ ready
    → Complete progressing available
unfolding determine_deployment_state
determined-Complete none available h = cc
determined-Complete (some p) none h = ground arith
determined-Complete (some p) (some a) h = (
  p,
  a,
  refl,
  refl,
  ground arith,
  (let same : str_eq p.reason "NewReplicaSetAvailable" ≡ true = ground arith in
      (eq_iff _ _).0 same),
  ground arith,
)

Complete-ready :
    (progressing available : Option DeploymentCondition)
    → Complete progressing available
    → determine_deployment_state progressing available ≡ ready
unfolding determine_deployment_state
Complete-ready progressing available (p, a, hp, ha, sp, rp, sa) =
    rw hp (rw ha (rw sp (rw sa (rw rp refl))))

module _ {O : Type 0} (clnt : Client O) where
  -- The object is neither a Deployment nor a StatefulSet.
  abbrev pub Unmanaging : O → Type 0
  Unmanaging o = manager_of clnt o ≡ none

  find_manager_append :
      (before : List O) (o : O) (after : List O) (m : Manager)
      → All Unmanaging before
      → manager_of clnt o ≡ some m
      → find_manager clnt (before ++ o ∷ after) ≡ some m
  unfolding find_manager
  find_manager_append [] o after m u h = rw (find_manager, h) refl
  find_manager_append (b ∷ bs) o after m u h =
      rw (find_manager, u.0) (find_manager_append bs o after m u.1 h)

  -- Where the first Deployment or StatefulSet among the resources is a Deployment, ManagerStateCheck gives Ready without an error
  -- exactly if its rollout is complete: it has the condition Progressing, which holds for the reason
  -- NewReplicaSetAvailable, and the condition Available, which holds. The resources behind it do
  -- not count.
  pub manager_state_ready_iff :
      (before : List O) (o : O) (after : List O) (d : Deployment)
      → All Unmanaging before
      → clnt.to_deployment o ≡ some d
      → (manager_state clnt (before ++ o ∷ after) ≡ (ready, none))
        ↔ Complete
            (clnt.get_deployment_condition d "Progressing")
            (clnt.get_deployment_condition d "Available")
  unfolding manager_state deployment_state
  manager_state_ready_iff before o after d u h =
      let found : manager_state clnt (before ++ o ∷ after) ≡ (deployment_state clnt d, none) =
        rw
          (
            manager_state,
            find_manager_append before o after (deployment d) u (rw (manager_of, h) refl),
          )
          refl in
      (
        λ r. determined-Complete _ _ (ap (λ p. p.0) (sym found ∙ r)),
        λ c. found ∙ ap (λ s. (s, none)) (Complete-ready _ _ c),
      )
