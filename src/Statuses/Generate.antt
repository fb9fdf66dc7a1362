-- ===== src/Statuses/Generate.antt =====
-- internal/service/kyma/status/modules/generator: the status of one module.
use lifecycle_manager.Prelude.{String, Bool, true, false, ◌||◌, Option, none, some, if◌then◌else◌}
use lifecycle_manager.Errors.{
  Error, sentinel, errors_is, Result, ok, err, waiting_for_next_maintenance_window,
  failed_to_determine_if_maintenance_window_is_active, template_update_not_allowed,
  no_module_release_meta, no_templates_in_list_result, mandatory_module_cannot_be_enabled,
  function_called_with_nil_error, module_needs_template_info,
  module_needs_template_error_or_template, module_needs_manifest,
}
use lifecycle_manager.Api.{
  ModuleStatus, TrackingObject, Manifest, ModuleTemplate, Resource, error, warning, unmanaged,
  is_create_and_delete, has_entry,
}
use lifecycle_manager.Modules.{CommonModule, Objects}

abbrev pub error_is_waiting_for_maintenance_window : Error → Bool
error_is_waiting_for_maintenance_window e = errors_is e waiting_for_next_maintenance_window

abbrev pub error_is_maintenance_window_unknown : Error → Bool
error_is_maintenance_window_unknown e =
    errors_is e failed_to_determine_if_maintenance_window_is_active

abbrev pub error_is_forbidden_template_update : Error → Bool
error_is_forbidden_template_update e =
    errors_is e template_update_not_allowed || errors_is e no_module_release_meta

abbrev pub error_is_template_not_found : Error → Bool
error_is_template_not_found e = errors_is e no_templates_in_list_result

abbrev pub error_is_mandatory_module_enabled : Error → Bool
error_is_mandatory_module_enabled e = errors_is e mandatory_module_cannot_be_enabled

abbrev pub is_cluster_scoped_annotation : String
is_cluster_scoped_annotation = "operator.kyma-project.io/is-cluster-scoped"

-- `text` is the method Error of an error value.
module _ (text : Error → String) where
  abbrev pub new_default_error_status :
      (module_name desired_channel component_name : String) → Error → ModuleStatus
  new_default_error_status module_name desired_channel component_name e = record {
    name = module_name;
    fqdn = component_name;
    ocm_component_name = component_name;
    channel = desired_channel;
    version = "";
    message = text e;
    state = error;
    manifest = none;
    resource = none;
    template = none;
    maintenance = false;
  }

  -- The branches for a module that has a status, or `none` if no branch returns.
  unfoldable pub status_kept : Error → ModuleStatus → Option ModuleStatus
  status_kept e s =
      if error_is_waiting_for_maintenance_window e
      then some (record s { message = text e; maintenance = true })
      else if error_is_maintenance_window_unknown e
      then some (record s { message = text e; state = error })
      else if error_is_forbidden_template_update e
      then some (record s { message = text e; state = warning })
      else none

  abbrev from_default : ModuleStatus → Error → ModuleStatus
  from_default s e =
      if error_is_template_not_found e || error_is_mandatory_module_enabled e
      then record s { state = warning }
      else s

  abbrev kept_of : Error → Option ModuleStatus → Option ModuleStatus
  kept_of e none = none
  kept_of e (some s) = status_kept e s

  unfoldable pub generate_module_status_from_error :
      Option Error
      → (module_name desired_channel ocm_component_name : String) → Option ModuleStatus
      → Result ModuleStatus
  unfolding status_kept
  generate_module_status_from_error none module_name channel component status =
      err (sentinel function_called_with_nil_error)
  generate_module_status_from_error (some e) module_name channel component status =
      elim (kept_of e status) [
        | some kept ↦ ok kept
        | none ↦ ok (from_default (new_default_error_status module_name channel component e) e)
      ]

  module _ (objects : Objects) where
    abbrev pub tracking_manifest : Manifest → TrackingObject
    tracking_manifest m = record {
      api_version = (objects.manifest_type m).0;
      kind = (objects.manifest_type m).1;
      name = m.meta.name;
      namespace = m.meta.namespace;
      generation = m.meta.generation;
    }

    abbrev pub tracking_template : ModuleTemplate → TrackingObject
    tracking_template t = record {
      api_version = (objects.template_type t).0;
      kind = (objects.template_type t).1;
      name = t.meta.name;
      namespace = t.meta.namespace;
      generation = t.meta.generation;
    }

    abbrev pub tracking_resource : ModuleTemplate → Resource → TrackingObject
    tracking_resource t r = record {
      api_version = (objects.resource_type r).0;
      kind = (objects.resource_type r).1;
      name = r.name;
      namespace =
          if has_entry is_cluster_scoped_annotation "true" t.meta.annotations
          then ""
          else r.namespace;
      generation = objects.resource_generation r;
    }

    abbrev resource_of : Manifest → ModuleTemplate → Option TrackingObject
    resource_of m t = elim m.spec.resource [
      | none ↦ none
      | some r ↦
          if is_create_and_delete m.spec.custom_resource_policy
          then some (tracking_resource t r)
          else none
    ]

    -- The status that a manifest and a template give.
    unfoldable pub status_from_manifest :
        CommonModule → (channel : String) → Manifest → ModuleTemplate → ModuleStatus
    status_from_manifest c channel m t =
        let status : ModuleStatus = record {
          name = c.module_name;
          fqdn = c.ocm_component_name;
          ocm_component_name = c.ocm_component_name;
          channel = channel;
          version = m.spec.version;
          message = "";
          state = m.status.state;
          manifest = some (tracking_manifest m);
          resource = resource_of m t;
          template = some (tracking_template t);
          maintenance = false;
        } in
        if c.is_unmanaged
        then record status { state = unmanaged; manifest = none; template = none; resource = none }
        else status

    unfoldable pub generate_module_status : CommonModule → Option ModuleStatus → Result ModuleStatus
    unfolding generate_module_status_from_error status_from_manifest
    generate_module_status c status = elim c.template_info [
      | none ↦ err (sentinel module_needs_template_info)
      | some info ↦ elim info.err [
        | some e ↦
            generate_module_status_from_error (some e) c.module_name info.desired_channel
              c.ocm_component_name status
        | none ↦ elim info.template [
          | none ↦ err (sentinel module_needs_template_error_or_template)
          | some t ↦ elim c.manifest [
            | none ↦ err (sentinel module_needs_manifest)
            | some m ↦ ok (status_from_manifest c info.desired_channel m t)
          ]
        ]
      ]
    ]
