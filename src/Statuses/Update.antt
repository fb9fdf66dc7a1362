-- ===== src/Statuses/Update.antt =====
-- internal/service/kyma/status/modules/handler.go: the statuses of all modules of a Kyma.
use lifecycle_manager.Prelude.{
  ℕ, ◌-◌, ◌==◌, String, str_eq, Bool, false, not, List, [], ◌∷◌, ◌++◌, map, Option, none, some, any,
  keep, if◌then◌else◌,
}
use lifecycle_manager.Errors.{
  Error, sentinel, wrap, Result, ok, err, ErrorLib, is_not_found, nil_kyma,
}
use lifecycle_manager.Api.{
  State, error, ModuleStatus, TrackingObject, Kyma, last_of_names,
  get_no_longer_existing_module_status,
}
use lifecycle_manager.Modules.{CommonModule, Objects}
use lifecycle_manager.Statuses.Generate.{generate_module_status}

-- The slice Status.Modules during the loop. `cells` are the entries to which the pointers of
-- GetModuleStatusMap refer, each with its key; `added` are the entries that the loop has appended,
-- and `room` is the capacity that is left. An append without room copies the slice: `copied` are
-- then the entries that the slice of the Kyma has in place of the cells.
pub record Slice : Type 0 where
  pub cells : List (String × ModuleStatus)
  pub copied : Option (List ModuleStatus)
  pub added : List ModuleStatus
  pub room : ℕ

abbrev pub values : List (String × ModuleStatus) → List ModuleStatus
values [] = []
values ((key, s) ∷ cells) = s ∷ values cells

-- The entries that the Kyma shows.
unfoldable pub visible : Slice → List ModuleStatus
visible s = elim s.copied [ none ↦ values s.cells ++ s.added | some entries ↦ entries ++ s.added ]

unfoldable pub append : ModuleStatus → Slice → Slice
append x s = elim s.copied [
  | some entries ↦ record s { added = s.added ++ x ∷ [] }
  | none ↦
      if s.room == 0
      then record s { copied = some (values s.cells); added = s.added ++ x ∷ [] }
      else record s { room = s.room - 1; added = s.added ++ x ∷ [] }
]

-- (kyma *Kyma) GetModuleStatusMap: of a name that occurs twice, the map has the last entry.
abbrev pub get_module_status_map : List ModuleStatus → List (String × ModuleStatus)
get_module_status_map [] = []
get_module_status_map (s ∷ ss) = (s.name, s) ∷ get_module_status_map ss

abbrev pub has_key : String → List (String × ModuleStatus) → Bool
has_key key = any (λ (c : String × ModuleStatus). str_eq c.0 key)

unfoldable pub pointee : String → List (String × ModuleStatus) → Option ModuleStatus
pointee key [] = none
pointee key ((name, s) ∷ cells) =
    let rest = pointee key cells in
    if has_key key cells then rest else if str_eq name key then some s else none

unfoldable pub write :
    String → ModuleStatus → List (String × ModuleStatus) → List (String × ModuleStatus)
write key new [] = []
write key new ((name, s) ∷ cells) =
    let rest = write key new cells in
    if has_key key cells
    then (name, s) ∷ rest
    else if str_eq name key
    then (name, new) ∷ cells
    else (name, s) ∷ cells

module _ (text : Error → String) (objects : Objects) where
  -- What the loop body takes as the new status, an error of the generator included.
  unfoldable pub new_module_status : CommonModule → Option ModuleStatus → ModuleStatus
  unfolding generate_module_status
  new_module_status c status = elim (generate_module_status text objects c status) [
    | ok s ↦ s
    | err e ↦ record {
      name = c.module_name;
      fqdn = c.ocm_component_name;
      ocm_component_name = c.ocm_component_name;
      channel = "";
      version = "";
      message = text e;
      state = error;
      manifest = none;
      resource = none;
      template = none;
      maintenance = false;
    }
  ]

  unfoldable pub update_one : CommonModule → Slice → Slice
  unfolding new_module_status pointee write append
  update_one c s = elim (pointee c.module_name s.cells) [
    | some status ↦ record s {
      cells = write c.module_name (new_module_status c (some status)) s.cells;
    }
    | none ↦ append (new_module_status c none) s
  ]

  unfoldable pub update_all : List CommonModule → Slice → Slice
  unfolding update_one
  update_all [] s = s
  update_all (c ∷ cs) s = update_all cs (update_one c s)

-- What Get answers for the manifest that a status refers to: its error, and the state of the object
-- in memory behind the call.
module _ (lib : ErrorLib) (get : TrackingObject → Option Error × State) where
  abbrev pub get_module_error : Option Error → Option Error
  get_module_error none = none
  get_module_error (some e) = some (wrap "failed to get module by name-namespace" e)

  abbrev pub without : String → List ModuleStatus → List ModuleStatus
  without name = keep (λ (s : ModuleStatus). not (str_eq s.name name))

  abbrev pub with_state_of : String → State → List ModuleStatus → List ModuleStatus
  with_state_of name state =
      map (λ (s : ModuleStatus). if str_eq s.name name then record s { state = state } else s)

  -- One entry that the spec no longer names: the map behind it, and the names without metrics.
  unfoldable pub delete_status :
      ModuleStatus → List ModuleStatus × List String → List ModuleStatus × List String
  unfolding is_not_found
  delete_status s (statuses, removed) = elim s.manifest [
    | none ↦ (without s.name statuses, s.name ∷ removed)
    | some object ↦
        if is_not_found lib (get_module_error (get object).0)
        then (without s.name statuses, s.name ∷ removed)
        else (with_state_of s.name (get object).1 statuses, removed)
  ]

  unfoldable pub delete_statuses :
      List ModuleStatus → List ModuleStatus × List String → List ModuleStatus × List String
  unfolding delete_status
  delete_statuses [] p = p
  delete_statuses (s ∷ ss) p = delete_statuses ss (delete_status s p)

  -- DeleteNoLongerExistingModuleStatus: the new statuses, whose order the code leaves open, and the
  -- modules whose metrics it removes.
  unfoldable pub delete_no_longer_existing_module_status : Kyma → List ModuleStatus × List String
  unfolding delete_statuses last_of_names get_no_longer_existing_module_status
  delete_no_longer_existing_module_status kyma =
      delete_statuses (get_no_longer_existing_module_status kyma)
        (last_of_names kyma.status.modules, [])

-- The Kyma behind the loop of UpdateModuleStatuses. `room` is the capacity of the slice beyond its
-- length.
unfoldable pub with_module_statuses :
    (Error → String) → Objects → (room : ℕ) → List CommonModule → Kyma → Kyma
unfolding update_all visible
with_module_statuses text objects room modules kyma =
    let slice : Slice = record {
      cells = get_module_status_map kyma.status.modules;
      copied = none;
      added = [];
      room = room;
    } in
    record kyma {
      status = record kyma.status { modules = visible (update_all text objects modules slice) };
    }

unfoldable pub update_module_statuses :
    ErrorLib
    → (TrackingObject → Option Error × State)
    → (Error → String)
    → Objects
    → (room : ℕ) → List CommonModule
    → Option Kyma
    → Result (Kyma × List String)
unfolding with_module_statuses delete_no_longer_existing_module_status
update_module_statuses lib get text objects room modules none = err (sentinel nil_kyma)
update_module_statuses lib get text objects room modules (some kyma) =
    let updated = with_module_statuses text objects room modules kyma in
    let deleted = delete_no_longer_existing_module_status lib get updated in
    ok (record updated { status = record updated.status { modules = deleted.0 } }, deleted.1)
