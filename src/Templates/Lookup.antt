-- ===== src/Templates/Lookup.antt =====
-- pkg/templatelookup/regular.go and internal/service/restrictedmodule/match.go.
use lifecycle_manager.Prelude.{
  ℕ, String, str_eq, Bool, true, false, not, ◌&&◌, List, [], ◌∷◌, ◌++◌, Option, none, some, is_some,
  contains, lookup, if◌then◌else◌,
}
use lifecycle_manager.Errors.{
  Error, sentinel, wrap, join, template_not_allowed, template_update_not_allowed,
  no_module_release_meta, mandatory_module_cannot_be_enabled, selector_parse, ErrorLib, Result, ok,
  err,
}
use lifecycle_manager.Api.{
  Kyma, ModuleStatus, LabelSelector, ModuleReleaseMeta, ModuleTemplate, is_mandatory_release,
  is_internal_template, is_beta_template, label_enabled, internal_label, beta_label,
}
use lifecycle_manager.Templates.Infos.{ModuleInfo, fetch_module_info}

-- A nil template is `none`.
pub record ModuleTemplateInfo : Type 0 where
  pub template : Option ModuleTemplate
  pub err : Option Error
  pub desired_channel : String

-- The numbers of a semver.Version that filterVersion keeps.
pub record Version : Type 0 where
  pub major : ℕ
  pub minor : ℕ
  pub patch : ℕ

-- The reader of the control plane, the lookup strategy, the descriptor provider, and the calls of
-- the libraries for versions and selectors.
pub record Source : Type 0 where
  pub errors : ErrorLib
  pub restricted_modules : List String
  pub get_module_release_meta : (name namespace : String) → Result ModuleReleaseMeta
  pub look_up : ModuleInfo → Kyma → ModuleReleaseMeta → ModuleTemplateInfo
  pub new_component_id : (name version : String) → Option Error
  pub add_descriptor : (name version : String) → Option Error
  pub new_version : String → Option Version
  pub less_than : Version → Version → Bool
  pub selector_matches : LabelSelector → List (String × String) → Result Bool

abbrev pub with_error : ModuleTemplateInfo → Error → ModuleTemplateInfo
with_error info e = record info { err = some e }

-- &ModuleTemplateInfo{Err: err}
abbrev pub only_error : Error → ModuleTemplateInfo
only_error e = record { template = none; err = some e; desired_channel = "" }

abbrev pub is_empty_selector : LabelSelector → Bool
is_empty_selector s = elim s.match_labels [
  | [] ↦ elim s.match_expressions [ [] ↦ true | e ∷ es ↦ false ]
  | l ∷ ls ↦ false
]

module _ (src : Source) where
  unfoldable pub restricted_module_match : ModuleReleaseMeta → Kyma → Result Bool
  restricted_module_match mrm kyma = elim mrm.kyma_selector [
    | none ↦ ok false
    | some s ↦
        if is_empty_selector s then ok false else elim (src.selector_matches s kyma.meta.labels) [
          | err e ↦ err (join (sentinel selector_parse) e)
          | ok b ↦ ok b
        ]
  ]

  -- The switch of validateTemplateMode: why the restriction forbids the template.
  unfoldable pub restriction_error : ModuleReleaseMeta → Kyma → Option Error
  unfolding restricted_module_match
  restriction_error mrm kyma =
      if not (contains src.restricted_modules mrm.module_name)
      then (if is_some mrm.kyma_selector
          then some (
              wrap "module has kymaSelector but is not in restricted modules list"
                (sentinel template_not_allowed))
          else none)
      else if not (is_some mrm.kyma_selector)
      then some (sentinel template_not_allowed)
      else elim (restricted_module_match mrm kyma) [
        | err e ↦ some (join (sentinel template_not_allowed) e)
        | ok matched ↦
            if not matched
            then some
                (wrap "restricted module not allowed for this Kyma" (sentinel template_not_allowed))
            else none
      ]

  -- validateTemplateMode on a template, and ValidateTemplateMode.
  unfoldable pub mode_error : ModuleTemplate → Kyma → ModuleReleaseMeta → Option Error
  unfolding restriction_error is_internal_template is_beta_template label_enabled
  mode_error t kyma mrm =
      if is_internal_template t && not (label_enabled internal_label kyma.meta)
      then some (wrap "internal module" (sentinel template_not_allowed))
      else if is_beta_template t && not (label_enabled beta_label kyma.meta)
      then some (wrap "beta module" (sentinel template_not_allowed))
      else if t.mandatory
      then some (sentinel mandatory_module_cannot_be_enabled)
      else restriction_error mrm kyma

  abbrev pub set_error : ModuleTemplateInfo → Option Error → ModuleTemplateInfo
  set_error info none = info
  set_error info (some e) = with_error info e

  abbrev pub is_valid_version_change : Version → Version → Bool
  is_valid_version_change new old = not (src.less_than new old)

  -- markInvalidSkewUpdate, on a template without an error: the error that it sets.
  unfoldable pub skew_error : ModuleStatus → String → Option Error
  skew_error s template_version =
      if not (is_some s.template) then none else elim (src.new_version template_version) [
        | none ↦ some (
            wrap "descriptor from template contains invalid version"
              (sentinel template_update_not_allowed))
        | some in_template ↦ elim (src.new_version s.version) [
          | none ↦
              some (wrap "Modules contains invalid version" (sentinel template_update_not_allowed))
          | some in_status ↦
              if is_valid_version_change in_template in_status
              then none
              else some (
                  wrap "a higher version of the module was previously installed"
                    (sentinel template_update_not_allowed))
        ]
      ]

  -- The loop over the module statuses: the first error stays.
  unfoldable pub skew_errors : List ModuleStatus → (name version : String) → Option Error
  unfolding skew_error
  skew_errors [] name version = none
  skew_errors (s ∷ ss) name version =
      let rest = skew_errors ss name version in
      if not (str_eq s.name name)
      then rest
      else elim (skew_error s version) [ some e ↦ some e | none ↦ rest ]

  -- The end of the loop body of GetRegularTemplates, for a template that passed the validation.
  unfoldable pub describe :
      Kyma
      → ModuleReleaseMeta
      → (name : String) → ModuleTemplateInfo
      → ModuleTemplate
      → ModuleTemplateInfo
  unfolding skew_errors
  describe kyma mrm name info t = elim (src.new_component_id mrm.ocm_component_name t.version) [
    | some e ↦ with_error info (wrap "failed to create OCM Component Identity" e)
    | none ↦ elim (src.add_descriptor mrm.ocm_component_name t.version) [
      | some e ↦ with_error info (wrap "failed to get descriptor" e)
      | none ↦ set_error info (skew_errors kyma.status.modules name t.version)
    ]
  ]

  -- What the strategy has looked up: an error, or a template (without either, the code panics).
  unfoldable pub validated :
      Kyma → ModuleReleaseMeta → (name : String) → ModuleTemplateInfo → ModuleTemplateInfo
  unfolding mode_error describe
  validated kyma mrm name info = elim info.err [
    | some e ↦ info
    | none ↦ elim info.template [
      | none ↦ info
      | some t ↦ elim (mode_error t kyma mrm) [
        | some e ↦ with_error info e
        | none ↦ describe kyma mrm name info t
      ]
    ]
  ]

  -- The loop body of GetRegularTemplates for a module that is not in the map yet.
  unfoldable pub template_of : Kyma → ModuleInfo → ModuleTemplateInfo
  unfolding validated
  template_of kyma info = elim info.validation_error [
    | some e ↦ only_error e
    | none ↦ elim (src.get_module_release_meta info.entry.name kyma.meta.namespace) [
      | err e ↦
          only_error (if src.errors.is_api_not_found e then sentinel no_module_release_meta else e)
      | ok mrm ↦
          if info.enabled && is_mandatory_release mrm
          then only_error (sentinel mandatory_module_cannot_be_enabled)
          else validated kyma mrm info.entry.name (src.look_up info kyma mrm)
    ]
  ]

  unfoldable pub add_templates :
      Kyma
      → List ModuleInfo
      → List (String × ModuleTemplateInfo)
      → List (String × ModuleTemplateInfo)
  unfolding template_of
  add_templates kyma [] templates = templates
  add_templates kyma (info ∷ infos) templates = add_templates kyma infos (
      if is_some (lookup info.entry.name templates)
      then templates
      else templates ++ (info.entry.name, template_of kyma info) ∷ [])

  unfoldable pub get_regular_templates : Kyma → List (String × ModuleTemplateInfo)
  unfolding add_templates fetch_module_info
  get_regular_templates kyma = add_templates kyma (fetch_module_info kyma) []
