-- ===== src/Api/Manifests.antt =====
-- api/v1beta2/manifest_types.go and api/shared/status.go.
use lifecycle_manager.Prelude.{String, Bool, ◌&&◌, List, Option, none, some, is_some, lookup}
use lifecycle_manager.Errors.{Result, ok, err, Error, sentinel, wrap, label_not_found}
use lifecycle_manager.Api.States.{State}
use lifecycle_manager.Api.Meta.{ObjectMeta, Condition, Resource, has_entry}
use lifecycle_manager.Api.Kymas.{CustomResourcePolicy, is_create_and_delete, skip_reconcile_label}

-- shared.Status. The operation is an error (WithErr) or a text (WithOperation); the time of it is
-- left out.
pub data Operation : Type 0 where
  of_error : Error → Operation
  of_text : String → Operation

pub record Status : Type 0 where
  pub last_operation : Operation
  pub state : State
  pub conditions : List Condition
  pub synced : List Resource

abbrev pub with_state : Status → State → Status
with_state s state = record s { state = state }

abbrev pub with_err : Status → Error → Status
with_err s e = record s { last_operation = of_error e }

abbrev pub with_operation : Status → String → Status
with_operation s text = record s { last_operation = of_text text }

pub record ManifestSpec : Type 0 where
  pub custom_resource_policy : CustomResourcePolicy
  pub version : String
  pub resource : Option Resource

pub record Manifest : Type 0 where
  pub meta : ObjectMeta
  pub spec : ManifestSpec
  pub status : Status

abbrev pub set_status : Manifest → Status → Manifest
set_status m s = record m { status = s }

abbrev pub kyma_name_label : String
kyma_name_label = "operator.kyma-project.io/kyma-name"

abbrev pub module_name_label : String
module_name_label = "operator.kyma-project.io/module-name"

abbrev pub is_mandatory_module_label : String
is_mandatory_module_label = "operator.kyma-project.io/mandatory-module"

abbrev pub unmanaged_annotation : String
unmanaged_annotation = "operator.kyma-project.io/is-unmanaged"

abbrev pub is_unmanaged : Manifest → Bool
is_unmanaged m = has_entry unmanaged_annotation "true" m.meta.annotations

abbrev pub is_mandatory_module : Manifest → Bool
is_mandatory_module m = has_entry is_mandatory_module_label "true" m.meta.labels

abbrev pub skip_reconciliation : Manifest → Bool
skip_reconciliation m = has_entry skip_reconcile_label "true" m.meta.labels

abbrev pub get_label : String → String → Manifest → Result String
get_label key text m = elim (lookup key m.meta.labels) [
  | none ↦ err (wrap text (sentinel label_not_found))
  | some v ↦ ok v
]

abbrev pub get_kyma_name : Manifest → Result String
get_kyma_name = get_label kyma_name_label "KymaName label not found"

abbrev pub get_module_name : Manifest → Result String
get_module_name = get_label module_name_label "ModuleName label not found"

-- GenerateCacheKey: the name of the Kyma and the namespace; the code joins them by "|".
abbrev pub generate_cache_key : Manifest → Option (String × String)
generate_cache_key m = elim (lookup kyma_name_label m.meta.labels) [
  | none ↦ none
  | some v ↦ some (v, m.meta.namespace)
]

abbrev pub should_create_default_module_cr : Manifest → Bool
should_create_default_module_cr m =
    is_create_and_delete m.spec.custom_resource_policy && is_some m.spec.resource
