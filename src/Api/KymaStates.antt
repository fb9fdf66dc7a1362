-- ===== src/Api/KymaStates.antt =====
-- How the state of a Kyma follows from its modules and conditions.
use lifecycle_manager.Prelude.{
  ◌≡◌, refl, ◌↔◌, true, false, not, List, [], ◌∷◌, any, arith, if◌then◌else◌,
}
use lifecycle_manager.Api.States.{ready, processing, error, warning}
use lifecycle_manager.Api.Meta.{Condition, is_condition_true}
use lifecycle_manager.Api.Kymas.{
  ModuleStatus, KymaStatus, has_state, determine_state, all_modules_ready,
}

no_bad_module :
    (ms : List ModuleStatus)
    → all_modules_ready ms ≡ true
    → (has_state error ms ≡ false)
      × (has_state warning ms ≡ false)
      × (has_state processing ms ≡ false)
unfolding all_modules_ready
no_bad_module [] h = (refl, refl, refl)
no_bad_module (m ∷ ms) h = ground (arith, h, no_bad_module ms)

-- Where AllModulesReady holds, the modules have no say in DetermineState: the Kyma is Ready if each
-- of its conditions is true, otherwise it is Processing.
pub determine_state_modules_ready :
    (status : KymaStatus)
    → all_modules_ready status.modules ≡ true
    → determine_state status ≡ (
        if any (λ (c : Condition). not (is_condition_true c.status)) status.conditions
        then processing
        else ready)
unfolding determine_state
determine_state_modules_ready status h = ground (arith, no_bad_module status.modules h)

-- DetermineState says Ready if, and only if, no module is in the states Error, Warning or
-- Processing and each condition is true.
pub determine_state_ready :
    (status : KymaStatus)
    → (determine_state status ≡ ready) ↔ (
        (has_state error status.modules ≡ false)
        × (has_state warning status.modules ≡ false)
        × (has_state processing status.modules ≡ false)
        × (any (λ (c : Condition). not (is_condition_true c.status)) status.conditions ≡ false))
unfolding determine_state
determine_state_ready status = ground arith
