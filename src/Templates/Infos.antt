-- ===== src/Templates/Infos.antt =====
-- pkg/templatelookup/moduleinfo.go: the modules that a Kyma refers to.
use lifecycle_manager.Prelude.{
  String, str_eq, Bool, true, false, not, ◌&&◌, ◌||◌, List, [], ◌∷◌, ◌++◌, map, Option, none, some,
  is_some, contains, if◌then◌else◌,
}
use lifecycle_manager.Errors.{
  Error, sentinel, wrap, invalid_module_in_spec, invalid_module_in_status,
}
use lifecycle_manager.Api.{Module, ModuleStatus, Kyma, create_and_delete, is_none_channel}

pub record ModuleInfo : Type 0 where
  pub entry : Module
  pub enabled : Bool
  pub validation_error : Option Error
  pub unmanaged : Bool

abbrev pub configured_with_version_in_spec : ModuleInfo → Bool
configured_with_version_in_spec a =
    a.enabled && not (str_eq a.entry.version "") && str_eq a.entry.channel ""

abbrev pub installed_with_version_in_status : ModuleInfo → Bool
unfolding is_none_channel
installed_with_version_in_status a =
    not a.enabled && is_none_channel a.entry.channel && not (str_eq a.entry.version "")

abbrev pub is_installed_by_version : ModuleInfo → Bool
is_installed_by_version a = configured_with_version_in_spec a || installed_with_version_in_status a

-- The validation in the first loop of FetchModuleInfo.
unfoldable pub spec_error : Module → Option Error
unfolding is_none_channel
spec_error m =
    if is_none_channel m.channel
    then some (wrap "Channel \"none\" is not allowed" (sentinel invalid_module_in_spec))
    else if not (str_eq m.version "") && not (str_eq m.channel "")
    then some (
        wrap "Version and channel are mutually exclusive options" (sentinel invalid_module_in_spec))
    else none

unfoldable pub determine_module_validity : ModuleStatus → Option Error
determine_module_validity s =
    if is_some s.template
    then none
    else some (wrap "ModuleTemplate reference is missing" (sentinel invalid_module_in_status))

abbrev pub spec_info : Module → ModuleInfo
spec_info m = record {
  entry = m;
  enabled = true;
  validation_error = spec_error m;
  unmanaged = not m.managed;
}

-- The fields that the composite literal leaves out have Go's zero values; the policy of a module
-- that is only in the status is not read.
abbrev pub status_info : ModuleStatus → ModuleInfo
status_info s = record {
  entry = record {
    custom_resource_policy = create_and_delete;
    name = s.name;
    controller_name = "";
    channel = s.channel;
    version = s.version;
    managed = false;
  };
  enabled = false;
  validation_error = determine_module_validity s;
  unmanaged = false;
}

-- The second loop: `named` are the names of the modules in the spec.
unfoldable pub status_infos : List String → List ModuleStatus → List ModuleInfo
unfolding determine_module_validity
status_infos named [] = []
status_infos named (s ∷ ss) =
    let rest = status_infos named ss in if contains named s.name then rest else status_info s ∷ rest

unfoldable pub fetch_module_info : Kyma → List ModuleInfo
unfolding status_infos spec_error
fetch_module_info kyma =
    map spec_info kyma.spec.modules
    ++ status_infos (map (λ (m : Module). m.name) kyma.spec.modules) kyma.status.modules
