-- ===== src/Api/Modules.antt =====
-- api/v1beta2/modulereleasemeta_types.go and api/v1beta2/moduletemplate_types.go.
use lifecycle_manager.Prelude.{
  String, Bool, true, false, ◌&&◌, not, List, Option, is_some, if◌then◌else◌,
}
use lifecycle_manager.Api.Meta.{ObjectMeta}
use lifecycle_manager.Api.Kymas.{label_enabled, beta_label, internal_label}

pub record ChannelVersionAssignment : Type 0 where
  pub channel : String
  pub version : String

-- A metav1.LabelSelector: the labels to match, and the expressions, which only the library reads.
pub record LabelSelector : Type 0 where
  pub match_labels : List (String × String)
  pub match_expressions : List String

pub record ModuleReleaseMeta : Type 0 where
  pub meta : ObjectMeta
  pub module_name : String
  pub ocm_component_name : String
  pub channels : List ChannelVersionAssignment
  pub mandatory : Option String
  pub kyma_selector : Option LabelSelector

pub record ModuleTemplate : Type 0 where
  pub meta : ObjectMeta
  pub channel : String
  pub version : String
  pub module_name : String
  pub mandatory : Bool
  pub requires_downtime : Bool

abbrev pub is_mandatory_release : ModuleReleaseMeta → Bool
is_mandatory_release mrm = is_some mrm.mandatory

unfoldable pub is_internal_template : ModuleTemplate → Bool
unfolding label_enabled
is_internal_template t = label_enabled internal_label t.meta

unfoldable pub is_beta_template : ModuleTemplate → Bool
unfolding label_enabled
is_beta_template t = label_enabled beta_label t.meta

-- (m *ModuleTemplate) SyncEnabled.
unfoldable pub sync_enabled : ModuleTemplate → Bool → Bool → Bool
unfolding is_beta_template is_internal_template
sync_enabled t beta_enabled internal_enabled =
    if is_beta_template t && not beta_enabled
    then false
    else if is_internal_template t && not internal_enabled
    then false
    else if t.mandatory
    then false
    else true
