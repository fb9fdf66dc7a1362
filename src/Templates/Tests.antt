-- ===== src/Templates/Tests.antt =====
-- A Kyma with a module that is installed in an older version.
use lifecycle_manager.Prelude.{
  ◌≡◌, refl, true, false, String, str_eq, [], ◌∷◌, Option, none, some, ltb, Bool, if◌then◌else◌,
}
use lifecycle_manager.Errors.{ok, err, foreign, sentinel, waiting_for_next_maintenance_window}
use lifecycle_manager.Api.{
  ObjectMeta, Kyma, ModuleStatus, ready, create_and_delete, ModuleReleaseMeta, ModuleTemplate,
  is_internal_template, is_beta_template, label_enabled, is_none_channel,
}
use lifecycle_manager.Templates.Infos.{
  fetch_module_info, status_infos, spec_error, determine_module_validity,
}
use lifecycle_manager.Templates.Lookup.{
  ModuleTemplateInfo, Version, Source, restricted_module_match, restriction_error, mode_error,
  skew_error, skew_errors, describe, validated, template_of, add_templates, get_regular_templates,
}
use lifecycle_manager.Windows.{is_required}
use lifecycle_manager.Templates.Strategy.{
  channel_version, get_channel_version_for_module, Reader, get_template_by_version,
  look_up_template, MaintenanceWindow, with_maintenance_window, decorated_lookup,
}
use lifecycle_manager.Templates.Released.{
  ReleasedFor, with_strategy, get_regular_templates-Released,
}
use lifecycle_manager.Templates.Allowed.{Allowed, get_regular_templates-Allowed}

abbrev meta : ObjectMeta
meta = record {
  name = "kyma-1";
  namespace = "kcp-system";
  generation = 1;
  creation_timestamp = 100;
  deletion_timestamp = none;
  labels = [];
  annotations = [];
  finalizers = [];
}

abbrev installed : ModuleStatus
installed = record {
  name = "btp";
  fqdn = "";
  ocm_component_name = "kyma-project.io/module/btp";
  channel = "regular";
  version = "1.0.0";
  message = "";
  state = ready;
  manifest = none;
  resource = none;
  template = some (record {
    api_version = "v1beta2";
    kind = "ModuleTemplate";
    name = "btp-1.0.0";
    namespace = "kcp-system";
    generation = 1;
  });
  maintenance = false;
}

abbrev some_kyma : Kyma
some_kyma = record {
  meta = meta;
  spec = record {
    channel = "regular";
    skip_maintenance_windows = false;
    modules =
        record {
          custom_resource_policy = create_and_delete;
          name = "btp";
          controller_name = "";
          channel = "regular";
          version = "";
          managed = true;
        }
        ∷ [];
  };
  status = record {
    last_operation = "";
    state = ready;
    conditions = [];
    modules = installed ∷ [];
    active_channel = "regular";
  };
}

abbrev some_release : ModuleReleaseMeta
some_release = record {
  meta = meta;
  module_name = "btp";
  ocm_component_name = "kyma-project.io/module/btp";
  channels = [];
  mandatory = none;
  kyma_selector = none;
}

abbrev some_template : ModuleTemplate
some_template = record {
  meta = meta;
  channel = "";
  version = "1.1.0";
  module_name = "btp";
  mandatory = false;
  requires_downtime = false;
}

abbrev looked_up : ModuleTemplateInfo
looked_up = record { template = some some_template; err = none; desired_channel = "regular" }

-- "1.0.0" and any other version, which is 1.1.0.
abbrev version_of : String → Option Version
version_of s =
    some (record { major = 1; minor = elim (str_eq s "1.0.0") [ true ↦ 0 | false ↦ 1 ]; patch = 0 })

abbrev source : Source
source = record {
  errors = record {
    is_not_registered = λ e. false;
    is_no_match = λ e. false;
    is_api_not_found = λ e. true;
    failed_groups = λ e. [];
    is_connection_refused = λ e. false;
    is_unauthorized = λ e. false;
    is_forbidden = λ e. false;
    is_dns_not_found = λ e. false;
    message = λ e. [];
  };
  restricted_modules = [];
  get_module_release_meta = λ name namespace. ok some_release;
  look_up = λ info kyma mrm. looked_up;
  new_component_id = λ name version. none;
  add_descriptor = λ name version. none;
  new_version = version_of;
  less_than = λ v w. ltb v.minor w.minor;
  selector_matches = λ s labels. ok false;
}

test_templates : get_regular_templates source some_kyma ≡ ("btp", looked_up) ∷ []
unfolding get_regular_templates add_templates template_of validated describe mode_error
    restriction_error restricted_module_match skew_errors skew_error fetch_module_info status_infos
    spec_error determine_module_validity is_internal_template is_beta_template label_enabled
    is_none_channel
test_templates = refl

get_regular_templates-Allowed_example : Allowed source some_kyma "btp" looked_up some_template
unfolding get_regular_templates add_templates template_of validated describe mode_error
    restriction_error restricted_module_match skew_errors skew_error fetch_module_info status_infos
    spec_error determine_module_validity is_internal_template is_beta_template label_enabled
    is_none_channel
get_regular_templates-Allowed_example =
    get_regular_templates-Allowed source some_kyma "btp" looked_up some_template refl refl refl

-- The channel regular has version 1.1.0, whose update needs a downtime.
abbrev channel_release : ModuleReleaseMeta
channel_release = record some_release {
  channels =
      record { channel = "fast"; version = "1.2.0" }
      ∷ record { channel = "regular"; version = "1.1.0" }
      ∷ [];
}

abbrev downtime_template : ModuleTemplate
downtime_template = record some_template { requires_downtime = true }

abbrev reader : Reader
reader = record {
  component_id_error = λ name version. none;
  get =
      λ name namespace. if str_eq name "btp-1.1.0" then ok downtime_template else err (foreign 404);
}

abbrev window : Bool → MaintenanceWindow
window active = record { is_required = is_required; is_active = λ kyma. ok active }

abbrev channel_source : Source
channel_source = record source { get_module_release_meta = λ name namespace. ok channel_release }

abbrev from_channel : ModuleTemplateInfo
from_channel = record looked_up { template = some downtime_template }

get_regular_templates-Released_example :
    ReleasedFor (window true) reader channel_source some_kyma "btp" downtime_template
unfolding get_regular_templates add_templates template_of validated describe mode_error
    restriction_error restricted_module_match skew_errors skew_error fetch_module_info status_infos
    spec_error determine_module_validity is_internal_template is_beta_template label_enabled
    is_none_channel decorated_lookup with_maintenance_window look_up_template
    get_template_by_version get_channel_version_for_module channel_version is_required
get_regular_templates-Released_example =
    get_regular_templates-Released (window true) reader channel_source some_kyma "btp" from_channel
      downtime_template refl refl refl

outside_test :
    get_regular_templates (with_strategy (window false) reader channel_source) some_kyma
    ≡ (
      "btp",
      record {
        template = none;
        err = some (sentinel waiting_for_next_maintenance_window);
        desired_channel = "regular";
      },
    )
      ∷ []
unfolding get_regular_templates add_templates template_of validated describe mode_error
    restriction_error restricted_module_match skew_errors skew_error fetch_module_info status_infos
    spec_error determine_module_validity is_internal_template is_beta_template label_enabled
    is_none_channel decorated_lookup with_maintenance_window look_up_template
    get_template_by_version get_channel_version_for_module channel_version is_required
outside_test = refl
