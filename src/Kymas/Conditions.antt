-- ===== src/Kymas/Conditions.antt =====
-- api/v1beta2/condition_messages.go, UpdateCondition of api/v1beta2/kyma_types.go and InitConditions
-- of pkg/status/conditions.go.
use lifecycle_manager.Prelude.{String, Bool, List, [], ◌∷◌, ◌++◌, if◌then◌else◌}
use lifecycle_manager.Api.{
  Kyma, Machinery, ConditionStatus, condition_true, condition_false, condition_unknown,
}

pub data KymaConditionType : Type 0 where
  modules module_catalog crds_sync skr_webhook skr_image_pull_secret_sync : KymaConditionType

abbrev pub type_name : KymaConditionType → String
type_name modules = "Modules"
type_name module_catalog = "ModuleCatalog"
type_name crds_sync = "CRDsSync"
type_name skr_webhook = "SKRWebhook"
type_name skr_image_pull_secret_sync = "SKRImagePullSecretSync"

abbrev pub condition_reason : String
condition_reason = "Ready"

record ConditionMessages : Type 0 where
  true_message : String
  false_message : String
  unknown_message : String

-- conditionMessagesByType, with a line for each type.
abbrev messages_of : KymaConditionType → ConditionMessages
messages_of modules = record {
  true_message = "all modules are in ready state";
  false_message = "not all modules are in ready state";
  unknown_message = "modules state is unknown";
}
messages_of module_catalog = record {
  true_message = "module templates are synchronized";
  false_message = "module templates are out of sync and need to be resynchronized";
  unknown_message = "module templates synchronization state is unknown";
}
messages_of crds_sync = record {
  true_message = "CRDs are synchronized to the SKR";
  false_message = "CRDs are not synchronized to the SKR";
  unknown_message = "CRDs synchronization state is unknown";
}
messages_of skr_webhook = record {
  true_message = "skrwebhook is synchronized";
  false_message = "skrwebhook is out of sync and needs to be resynchronized";
  unknown_message = "";
}
messages_of skr_image_pull_secret_sync = record {
  true_message = "skr image pull secret is synchronized";
  false_message = "skr image pull secret is out of sync and needs to be resynchronized";
  unknown_message = "";
}

abbrev or_else : String → String → String
or_else String.[] s = s
or_else (String.◌∷◌ c t) s = String.◌∷◌ c t

unfoldable pub generate_message : KymaConditionType → ConditionStatus → String
generate_message t condition_true = (messages_of t).true_message
generate_message t condition_false = (messages_of t).false_message
generate_message t condition_unknown =
    or_else (messages_of t).unknown_message (messages_of t).false_message

unfoldable pub update_condition : Machinery → KymaConditionType → ConditionStatus → Kyma → Kyma
unfolding generate_message
update_condition lib t status kyma = record kyma {
  status = record kyma.status {
    conditions = lib.set_status_condition kyma.status.conditions (record {
      condition_type = type_name t;
      reason = condition_reason;
      status = status;
      message = generate_message t status;
      observed_generation = kyma.meta.generation;
    });
  };
}

unfoldable pub get_required_condition_types :
    (watcher_enabled skr_image_pull_secret_sync_enabled : Bool) → List KymaConditionType
get_required_condition_types watcher_enabled skr_image_pull_secret_sync_enabled =
    crds_sync
    ∷ modules
    ∷ module_catalog
    ∷ ((if watcher_enabled then skr_webhook ∷ [] else [])
        ++ (if skr_image_pull_secret_sync_enabled then skr_image_pull_secret_sync ∷ [] else []))

abbrev pub unknown_conditions : Machinery → List KymaConditionType → Kyma → Kyma
unfolding update_condition
unknown_conditions lib [] kyma = kyma
unknown_conditions lib (t ∷ ts) kyma =
    unknown_conditions lib ts (update_condition lib t condition_unknown kyma)

unfoldable pub init_conditions :
    Machinery → (watcher_enabled skr_image_pull_secret_enabled : Bool) → Kyma → Kyma
unfolding unknown_conditions get_required_condition_types
init_conditions lib watcher_enabled skr_image_pull_secret_enabled kyma =
    unknown_conditions lib
      (get_required_condition_types watcher_enabled skr_image_pull_secret_enabled)
      (record kyma { status = record kyma.status { conditions = [] } })
