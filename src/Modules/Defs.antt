-- ===== src/Modules/Defs.antt =====
-- pkg/module/common/module.go: the module that the controllers pass on.
use lifecycle_manager.Prelude.{ℕ, String, Bool, Option}
use lifecycle_manager.Api.{Manifest, ModuleTemplate, Resource}
use lifecycle_manager.Templates.{ModuleTemplateInfo}

-- modulecommon.Module. A nil pointer is `none`.
pub record CommonModule : Type 0 where
  pub module_name : String
  pub ocm_component_name : String
  pub template_info : Option ModuleTemplateInfo
  pub manifest : Option Manifest
  pub enabled : Bool
  pub is_unmanaged : Bool

-- What apimachinery reads of an object: the API version and the kind of its GroupVersionKind, and
-- the generation of an unstructured resource.
pub record Objects : Type 0 where
  pub manifest_type : Manifest → String × String
  pub template_type : ModuleTemplate → String × String
  pub resource_type : Resource → String × String
  pub resource_generation : Resource → ℕ
