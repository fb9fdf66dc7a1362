-- ===== src/Statuses/Tests.antt =====
-- The statuses of the sample Kyma, whose first module is not installed yet.
use lifecycle_manager.Prelude.{
  ◌≡◌, refl, String, List, [], ◌∷◌, ◌++◌, Option, none, some, map, arith, All,
}
use lifecycle_manager.Errors.{Error, sentinel, foreign, waiting_for_next_maintenance_window, ok}
use lifecycle_manager.Api.{Kyma, ModuleStatus, TrackingObject, State, ready, processing, unset}
use lifecycle_manager.Modules.{CommonModule}
use lifecycle_manager.Samples.{
  sample_kyma, sample_status, sample_common, sample_objects, sample_errors, sample_text,
  sample_info,
}
use lifecycle_manager.Statuses.Generate.{status_from_manifest}
use lifecycle_manager.Statuses.Update.{
  visible, new_module_status, update_all, get_module_status_map,
  delete_no_longer_existing_module_status, update_module_statuses,
}
use lifecycle_manager.Statuses.Cells.{fresh, refreshed, slice_of}
use lifecycle_manager.Statuses.FromError.{HeldBack, new_module_status-HeldBack}
use lifecycle_manager.Statuses.Names.{UniqueNames}
use lifecycle_manager.Statuses.Kept.{AccountedFor, update_module_statuses-Accounted}
use lifecycle_manager.Statuses.Slices.{update_all_room, update_all_lost}

abbrev waits : Error
waits = sentinel waiting_for_next_maintenance_window

abbrev serverless : CommonModule
serverless = sample_common "serverless" none

abbrev btp : CommonModule
btp = sample_common "btp" none

abbrev statuses : List ModuleStatus
statuses = sample_kyma.status.modules

-- The manifest of telemetry is gone.
abbrev get : TrackingObject → Option Error × State
get object = (some (foreign 404), unset)

abbrev states : List ModuleStatus → List State
states = map (λ (s : ModuleStatus). s.state)

update_all_room_example :
    visible (update_all sample_text sample_objects (serverless ∷ btp ∷ []) (slice_of 1 statuses))
    ≡ map
        (λ (s : ModuleStatus).
          refreshed sample_text sample_objects (serverless ∷ btp ∷ []) s.name s)
        statuses
      ++ fresh sample_text sample_objects (serverless ∷ btp ∷ []) (get_module_status_map statuses)
update_all_room_example =
    update_all_room sample_text sample_objects (serverless ∷ btp ∷ []) statuses 1 (refl, (refl, tt))
      (omega arith)

room_test :
    states (
      visible (update_all sample_text sample_objects (serverless ∷ btp ∷ []) (slice_of 1 statuses)))
    ≡ ready ∷ processing ∷ ready ∷ []
unfolding update_all visible new_module_status status_from_manifest
room_test = refl

-- Without room btp stays in Processing, though its manifest is ready.
lost_test :
    states (
      visible (update_all sample_text sample_objects (serverless ∷ btp ∷ []) (slice_of 0 statuses)))
    ≡ processing ∷ processing ∷ ready ∷ []
unfolding update_all visible new_module_status status_from_manifest
lost_test = refl

update_all_lost_example :
    visible (update_all sample_text sample_objects (serverless ∷ btp ∷ []) (slice_of 0 statuses))
    ≡ statuses
      ++ (new_module_status sample_text sample_objects serverless none
          ∷ fresh sample_text sample_objects (btp ∷ []) (get_module_status_map statuses))
update_all_lost_example =
    update_all_lost sample_text sample_objects serverless (btp ∷ []) statuses refl

abbrev waiting_btp : CommonModule
waiting_btp = sample_common "btp" (some waits)

new_module_status-HeldBack_example :
    HeldBack sample_text waits
      (sample_status "btp")
      (new_module_status sample_text sample_objects waiting_btp (some (sample_status "btp")))
new_module_status-HeldBack_example =
    new_module_status-HeldBack sample_text sample_objects waiting_btp
      (sample_info "btp" (some waits)) waits (sample_status "btp") refl refl refl

update_module_statuses-Accounted_example :
    (new : Kyma) × (removed : List String) × (update_module_statuses sample_errors get sample_text
        sample_objects 0
        (serverless ∷ btp ∷ [])
        (some sample_kyma)
      ≡ ok (new, removed))
    × (new.spec ≡ sample_kyma.spec)
    × UniqueNames new.status.modules
    × All (AccountedFor sample_errors get sample_kyma) new.status.modules
update_module_statuses-Accounted_example =
    update_module_statuses-Accounted sample_errors get sample_text sample_objects 0
      (serverless ∷ btp ∷ []) sample_kyma

removed_test :
    (delete_no_longer_existing_module_status sample_errors get sample_kyma).1 ≡ "telemetry" ∷ []
unfolding delete_no_longer_existing_module_status
removed_test = refl
