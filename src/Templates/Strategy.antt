-- ===== src/Templates/Strategy.antt =====
-- pkg/templatelookup/moduletemplateinfolookup and pkg/templatelookup/modulereleasemeta.go: the
-- strategy that GetRegularTemplates calls.
use lifecycle_manager.Prelude.{
  String, str_eq, Bool, not, ◌||◌, List, [], ◌∷◌, Option, none, some, is_some, if◌then◌else◌,
  append_text,
}
use lifecycle_manager.Errors.{
  Error, sentinel, wrap, join, Result, ok, err, no_channels_found, channel_not_found,
  no_mandatory_found, module_release_meta_required, waiting_for_next_maintenance_window,
  failed_to_determine_if_maintenance_window_is_active,
}
use lifecycle_manager.Api.{
  Kyma, ChannelVersionAssignment, ModuleReleaseMeta, ModuleTemplate, is_mandatory_release,
}
use lifecycle_manager.Templates.Infos.{ModuleInfo}
use lifecycle_manager.Templates.Lookup.{ModuleTemplateInfo, only_error}

abbrev pub default_channel : String
default_channel = "regular"

abbrev pub get_desired_channel : (module_channel global_channel : String) → String
get_desired_channel module_channel global_channel =
    if not (str_eq module_channel "")
    then module_channel
    else if not (str_eq global_channel "")
    then global_channel
    else default_channel

-- The loop of GetChannelVersionForModule, or `none` if it ends.
unfoldable pub channel_version : List ChannelVersionAssignment → String → Option String
channel_version [] channel = none
channel_version (a ∷ rest) channel =
    if str_eq a.channel channel then some a.version else channel_version rest channel

unfoldable pub get_channel_version_for_module : ModuleReleaseMeta → String → Result String
unfolding channel_version
get_channel_version_for_module mrm channel = elim mrm.channels [
  | [] ↦ err (wrap mrm.meta.name (sentinel no_channels_found))
  | a ∷ rest ↦ elim (channel_version (a ∷ rest) channel) [
    | some v ↦ ok v
    | none ↦ err (wrap channel (sentinel channel_not_found))
  ]
]

unfoldable pub get_mandatory_version_for_module : ModuleReleaseMeta → Result String
get_mandatory_version_for_module mrm = elim mrm.mandatory [
  | none ↦ err (wrap mrm.meta.name (sentinel no_mandatory_found))
  | some v ↦ ok v
]

abbrev pub create_module_template_name : (module_name version : String) → String
create_module_template_name module_name version = append_text module_name (append_text "-" version)

-- ocmidentity.NewComponentId, and the reader of the control plane, which takes a name and a
-- namespace.
pub record Reader : Type 0 where
  pub component_id_error : (name version : String) → Option Error
  pub get : (name namespace : String) → Result ModuleTemplate

-- &ModuleTemplateInfo{DesiredChannel: channel, Err: err}
abbrev failed_lookup : String → Error → ModuleTemplateInfo
failed_lookup channel e = record { template = none; err = some e; desired_channel = channel }

module _ (reader : Reader) where
  unfoldable pub get_template_by_version :
      (module_name version namespace : String) → Result ModuleTemplate
  get_template_by_version module_name version namespace =
      elim (reader.get (create_module_template_name module_name version) namespace) [
        | err e ↦ err (wrap "failed to get module template" e)
        | ok t ↦ ok t
      ]

  abbrev pub resolved_version : ModuleReleaseMeta → String → Result String
  unfolding get_mandatory_version_for_module get_channel_version_for_module
  resolved_version mrm channel =
      if is_mandatory_release mrm
      then get_mandatory_version_for_module mrm
      else get_channel_version_for_module mrm channel

  -- (Lookup) Lookup, on a nil ModuleReleaseMeta and on one.
  unfoldable pub look_up_template :
      ModuleInfo → Kyma → Option ModuleReleaseMeta → ModuleTemplateInfo
  unfolding get_template_by_version get_mandatory_version_for_module get_channel_version_for_module
  look_up_template info kyma none = only_error (sentinel module_release_meta_required)
  look_up_template info kyma (some mrm) =
      let channel = get_desired_channel info.entry.channel kyma.spec.channel in
      elim (resolved_version mrm channel) [
        | err e ↦ failed_lookup channel e
        | ok version ↦ elim (reader.component_id_error mrm.ocm_component_name version) [
          | some e ↦ failed_lookup channel e
          | none ↦ elim (get_template_by_version info.entry.name version kyma.meta.namespace) [
            | err e ↦ failed_lookup channel e
            | ok t ↦ record { template = some t; err = none; desired_channel = channel }
          ]
        ]
      ]

-- The interface MaintenanceWindow.
pub record MaintenanceWindow : Type 0 where
  pub is_required : ModuleTemplate → Kyma → Bool
  pub is_active : Kyma → Result Bool

-- moduleTemplateInfo.Err = err; moduleTemplateInfo.ModuleTemplate = nil
abbrev without_template : ModuleTemplateInfo → Error → ModuleTemplateInfo
without_template info e = record info { template = none; err = some e }

-- (WithMaintenanceWindowDecorator) Lookup, on what the decorated lookup has found.
unfoldable pub with_maintenance_window :
    MaintenanceWindow → Kyma → ModuleTemplateInfo → ModuleTemplateInfo
with_maintenance_window window kyma info = elim info.template [
  | none ↦ info
  | some t ↦
      if is_some info.err || not (window.is_required t kyma)
      then info
      else elim (window.is_active kyma) [
        | err e ↦
            without_template info
              (join (sentinel failed_to_determine_if_maintenance_window_is_active) e)
        | ok active ↦
            if not active
            then without_template info (sentinel waiting_for_next_maintenance_window)
            else info
      ]
]

-- The strategy of the Kyma controller: the lookup in the decorator.
unfoldable pub decorated_lookup :
    MaintenanceWindow → Reader → ModuleInfo → Kyma → Option ModuleReleaseMeta → ModuleTemplateInfo
unfolding with_maintenance_window look_up_template
decorated_lookup window reader info kyma mrm =
    with_maintenance_window window kyma (look_up_template reader info kyma mrm)
