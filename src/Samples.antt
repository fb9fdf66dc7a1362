-- ===== src/Samples.antt =====
-- Objects, libraries and modules on which the tests run: a Kyma with two installed modules.
use lifecycle_manager.Prelude.{◌==◌, String, Bool, true, false, [], ◌∷◌, Option, none, some}
use lifecycle_manager.Errors.{Error, sentinel, foreign, wrap, join, ErrorLib}
use lifecycle_manager.Api.{
  ObjectMeta, Kyma, Module, ModuleStatus, ready, processing, create_and_delete, ModuleTemplate,
  Manifest, of_text, TrackingObject,
}
use lifecycle_manager.Modules.{CommonModule, Objects}
use lifecycle_manager.Templates.{ModuleTemplateInfo}

abbrev pub sample_meta : String → ObjectMeta
sample_meta name = record {
  name = name;
  namespace = "kcp-system";
  generation = 1;
  creation_timestamp = 100;
  deletion_timestamp = none;
  labels = [];
  annotations = [];
  finalizers = [];
}

abbrev pub sample_reference : String → TrackingObject
sample_reference name = record {
  api_version = "operator.kyma-project.io/v1beta2";
  kind = "Manifest";
  name = name;
  namespace = "kcp-system";
  generation = 1;
}

abbrev pub sample_status : String → ModuleStatus
sample_status name = record {
  name = name;
  fqdn = "kyma-project.io/module/";
  ocm_component_name = "kyma-project.io/module/";
  channel = "regular";
  version = "1.0.0";
  message = "";
  state = processing;
  manifest = some (sample_reference name);
  resource = none;
  template = some (sample_reference name);
  maintenance = false;
}

abbrev pub sample_module : String → Module
sample_module name = record {
  custom_resource_policy = create_and_delete;
  name = name;
  controller_name = "";
  channel = "";
  version = "";
  managed = true;
}

-- The spec names btp and serverless; the status has btp and telemetry.
abbrev pub sample_kyma : Kyma
sample_kyma = record {
  meta = sample_meta "kyma-1";
  spec = record {
    channel = "regular";
    skip_maintenance_windows = false;
    modules = sample_module "serverless" ∷ sample_module "btp" ∷ [];
  };
  status = record {
    last_operation = "";
    state = processing;
    conditions = [];
    modules = sample_status "btp" ∷ sample_status "telemetry" ∷ [];
    active_channel = "regular";
  };
}

abbrev pub sample_template : String → ModuleTemplate
sample_template name = record {
  meta = sample_meta name;
  channel = "";
  version = "1.1.0";
  module_name = name;
  mandatory = false;
  requires_downtime = false;
}

abbrev pub sample_manifest : String → Manifest
sample_manifest name = record {
  meta = sample_meta name;
  spec = record { custom_resource_policy = create_and_delete; version = "1.1.0"; resource = none };
  status = record { last_operation = of_text ""; state = ready; conditions = []; synced = [] };
}

abbrev pub sample_info : String → Option Error → ModuleTemplateInfo
sample_info name e = record {
  template = some (sample_template name);
  err = e;
  desired_channel = "regular";
}

abbrev pub sample_common : String → Option Error → CommonModule
sample_common name e = record {
  module_name = name;
  ocm_component_name = "kyma-project.io/module/";
  template_info = some (sample_info name e);
  manifest = some (sample_manifest name);
  enabled = true;
  is_unmanaged = false;
}

abbrev pub sample_objects : Objects
sample_objects = record {
  manifest_type = λ m. ("operator.kyma-project.io/v1beta2", "Manifest");
  template_type = λ t. ("operator.kyma-project.io/v1beta2", "ModuleTemplate");
  resource_type = λ r. (r.version, r.kind);
  resource_generation = λ r. 1;
}

-- The library error 404 is the answer "not found".
abbrev pub sample_not_found : Error → Bool
sample_not_found (foreign n) = n == 404
sample_not_found (wrap m e) = sample_not_found e
sample_not_found e = false

abbrev pub sample_errors : ErrorLib
sample_errors = record {
  is_not_registered = λ e. false;
  is_no_match = λ e. false;
  is_api_not_found = sample_not_found;
  failed_groups = λ e. [];
  is_connection_refused = λ e. false;
  is_unauthorized = λ e. false;
  is_forbidden = λ e. false;
  is_dns_not_found = λ e. false;
  message = λ e. [];
}

abbrev pub sample_text : Error → String
sample_text (sentinel s) = "sentinel"
sample_text (foreign n) = "foreign"
sample_text (wrap m e) = m
sample_text (join a b) = "joined"
