-- ===== src/Kymas/Status.antt =====
-- The status updates of the Kyma controller: pkg/status/kyma_helper.go, and updateStatus,
-- updateStatusWithError and setModuleStatusesToError of internal/controller/kyma/controller.go.
use lifecycle_manager.Prelude.{ℕ, String, str_eq, not, map, Option, none, some, if◌then◌else◌}
use lifecycle_manager.Errors.{Error, sentinel, foreign, wrap, join, ok, err}
use lifecycle_manager.Api.{Kyma, ModuleStatus, State, ready, error, warning, set_active_channel}
use lifecycle_manager.Kymas.Env.{
  KymaEnv, K, ◌>>=◌, ◌>>◌, throw, catch, wrap_error, current, modify, call, note, patch_status,
  update_metrics, warning_event, patch_status_error, update_status_error,
}

-- errors.Unwrap: of several wrapped errors it gives none.
abbrev pub unwrap : (foreign_cause : ℕ → Option Error) → Error → Option Error
unwrap foreign_cause (sentinel s) = none
unwrap foreign_cause (foreign n) = foreign_cause n
unwrap foreign_cause (wrap m e) = some e
unwrap foreign_cause (join a b) = none

-- UpdateStatusForExistingModules up to the patch: the status in memory.
abbrev pub with_status : State → String → Kyma → Kyma
with_status state message kyma =
    let stated : Kyma = record kyma { status = record kyma.status { state = state } } in
    let active : Kyma = elim state [
      | ready ↦ set_active_channel stated
      | warning ↦ set_active_channel stated
      | _ ↦ stated
    ] in
    record active { status = record active.status { last_operation = message } }

abbrev error_status : String → ModuleStatus → ModuleStatus
error_status message s =
    if not (str_eq message "")
    then record s { state = error; message = message }
    else record s { state = error }

unfoldable pub set_module_statuses_to_error : String → Kyma → Kyma
set_module_statuses_to_error message kyma = record kyma {
  status = record kyma.status { modules = map (error_status message) kyma.status.modules };
}

module _ (env : KymaEnv) where
  unfoldable pub nested_error_message : Option Error → String
  nested_error_message none = ""
  nested_error_message (some e) = elim (unwrap env.foreign_cause e) [
    | none ↦ ""
    | some cause ↦ env.text cause
  ]

  unfoldable pub update_status_for_existing_modules : State → String → K (Unit {0})
  update_status_for_existing_modules state message = do
    modify (with_status state message)
    kyma ← current
    wrap_error "status could not be updated" (call env (patch_status kyma))
    note env (update_metrics kyma)

  unfoldable pub update_status : State → String → K (Unit {0})
  unfolding update_status_for_existing_modules
  update_status state message = catch (update_status_for_existing_modules state message) (λ e.
      note env (warning_event patch_status_error e) >> throw (wrap "error while updating status" e))

  -- The error that it is called with, or that error joined with the one of the update.
  unfoldable pub status_with_error : Error → K (Unit {0})
  unfolding update_status_for_existing_modules
  status_with_error e =
      catch (update_status_for_existing_modules error (env.text e)) (λ status_error.
        note env (warning_event update_status_error status_error)
        >> throw (wrap "error while updating status to Error" (join e status_error)))
      >> throw e

  -- updateStatusWithError at the end of a function, whose result is then an error.
  unfoldable pub update_status_with_error : {A : Type 0} → Error → K A
  unfolding status_with_error
  update_status_with_error e s = elim (status_with_error e s).1 [
    | ok u ↦ ((status_with_error e s).0, err e)
    | err f ↦ ((status_with_error e s).0, err f)
  ]
