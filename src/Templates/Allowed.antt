-- ===== src/Templates/Allowed.antt =====
-- When GetRegularTemplates gives a template without an error.
use lifecycle_manager.Prelude.{
  String, str_eq, ◌≡◌, ◌⊎◌, inl, inr, true, false, List, [], ◌∷◌, none, some, is_some, lookup,
  contains, All, All-every, arith, Option-cases,
}
use lifecycle_manager.Errors.{ok}
use lifecycle_manager.Api.{
  Kyma, ModuleStatus, ModuleReleaseMeta, ModuleTemplate, is_internal_template, is_beta_template,
  label_enabled, internal_label, beta_label,
}
use lifecycle_manager.Templates.Infos.{ModuleInfo, fetch_module_info}
use lifecycle_manager.Templates.Lookup.{
  ModuleTemplateInfo, Version, Source, restricted_module_match, restriction_error, mode_error,
  skew_error, skew_errors, describe, validated, template_of, get_regular_templates,
}
use lifecycle_manager.Templates.Given.{
  validated_looked_up, template_of-validated, get_regular_templates_all,
}

module _ (src : Source) (kyma : Kyma) where
  -- The version is not below the one that the status has for an installed module.
  pub record NoDowngrade (version : String) (s : ModuleStatus) : Type 0 where
    pub new : Version
    pub old : Version
    pub new_parsed : src.new_version version ≡ some new
    pub old_parsed : src.new_version s.version ≡ some old
    pub not_below : src.less_than new old ≡ false

  -- A module without a selector that is not restricted, or a restricted one that selects the Kyma.
  abbrev pub Unrestricted : ModuleReleaseMeta → Type 0
  Unrestricted mrm =
      ((contains src.restricted_modules mrm.module_name ≡ false)
        × (is_some mrm.kyma_selector ≡ false))
      ⊎ ((contains src.restricted_modules mrm.module_name ≡ true)
          × (restricted_module_match src mrm kyma ≡ ok true))

  -- The Kyma may have the template as its module of that name.
  pub record Allowed (name : String) (info : ModuleTemplateInfo) (t : ModuleTemplate) : Type 0 where
    pub mrm : ModuleReleaseMeta
    pub released : src.get_module_release_meta name kyma.meta.namespace ≡ ok mrm
    pub unrestricted : Unrestricted mrm
    pub internal : is_internal_template t ≡ true → label_enabled internal_label kyma.meta ≡ true
    pub beta : is_beta_template t ≡ true → label_enabled beta_label kyma.meta ≡ true
    pub optional : t.mandatory ≡ false
    pub no_downgrade :
        All
          (λ (s : ModuleStatus).
            str_eq s.name name ≡ true → is_some s.template ≡ true → NoDowngrade t.version s)
          kyma.status.modules

  abbrev pub Checked : String × ModuleTemplateInfo → Type 0
  Checked (name, info) =
      (t : ModuleTemplate) → info.err ≡ none → info.template ≡ some t → Allowed name info t

  skew_bad :
      (s : ModuleStatus) (version : String)
      → skew_error src s version ≡ none
      → is_some s.template ≡ true
      → src.new_version version ≡ none
      → ⊥
  unfolding skew_error
  skew_bad s version h p b = ground (arith, h, p, b)

  skew_bad_status :
      (s : ModuleStatus) (version : String) (new : Version)
      → skew_error src s version ≡ none
      → is_some s.template ≡ true
      → src.new_version version ≡ some new
      → src.new_version s.version ≡ none
      → ⊥
  unfolding skew_error
  skew_bad_status s version new h p n b = ground (arith, h, p, n, b)

  skew_none :
      (s : ModuleStatus) (version : String)
      → skew_error src s version ≡ none
      → is_some s.template ≡ true
      → NoDowngrade version s
  unfolding skew_error
  skew_none s version h p = elim (Option-cases (src.new_version version)) [
    | inl bad ↦ absurd (skew_bad s version h p bad)
    | inr (new, n) ↦ elim (Option-cases (src.new_version s.version)) [
      | inl bad ↦ absurd (skew_bad_status s version new h p n bad)
      | inr (old, o) ↦ record {
        new = new;
        old = old;
        new_parsed = n;
        old_parsed = o;
        not_below = ground (arith, h, p, n, o);
      }
    ]
  ]

  skews_tail :
      (s : ModuleStatus) (ss : List ModuleStatus) (name version : String)
      → skew_errors src (s ∷ ss) name version ≡ none
      → skew_errors src ss name version ≡ none
  unfolding skew_errors
  skews_tail s ss name version h = ground (arith, h)

  skews_none :
      (ss : List ModuleStatus) (name version : String)
      → skew_errors src ss name version ≡ none
      → All
          (λ (s : ModuleStatus).
            str_eq s.name name ≡ true → is_some s.template ≡ true → NoDowngrade version s)
          ss
  unfolding skew_errors
  skews_none [] name version h = tt
  skews_none (s ∷ ss) name version h = (
    λ e p. skew_none s version (ground (arith, h, e)) p,
    skews_none ss name version (skews_tail s ss name version h),
  )

  restriction_none :
      (mrm : ModuleReleaseMeta) → restriction_error src mrm kyma ≡ none → Unrestricted mrm
  unfolding restriction_error
  restriction_none mrm h = ground (arith, h)

  mode_none :
      (t : ModuleTemplate) (mrm : ModuleReleaseMeta)
      → mode_error src t kyma mrm ≡ none
      → (is_internal_template t ≡ true → label_enabled internal_label kyma.meta ≡ true)
        × (is_beta_template t ≡ true → label_enabled beta_label kyma.meta ≡ true)
        × (t.mandatory ≡ false)
        × (restriction_error src mrm kyma ≡ none)
  unfolding mode_error
  mode_none t mrm h = ground (arith, h)

  -- What the steps behind the lookup have checked, if they leave no error.
  abbrev Passed : ModuleReleaseMeta → String → ModuleTemplate → Type 0
  Passed mrm name t =
      (mode_error src t kyma mrm ≡ none)
      × (skew_errors src kyma.status.modules name t.version ≡ none)

  describe-none :
      (mrm : ModuleReleaseMeta) (name : String) (info : ModuleTemplateInfo) (t : ModuleTemplate)
      → (describe src kyma mrm name info t).err ≡ none
      → skew_errors src kyma.status.modules name t.version ≡ none
  unfolding describe
  describe-none mrm name info t h = ground (arith, h)

  validated_passed :
      (mrm : ModuleReleaseMeta) (name : String) (info : ModuleTemplateInfo) (t : ModuleTemplate)
      → (validated src kyma mrm name info).err ≡ none
      → info.err ≡ none
      → info.template ≡ some t
      → (mode_error src t kyma mrm ≡ none) × ((describe src kyma mrm name info t).err ≡ none)
  unfolding validated
  validated_passed mrm name info t h e p = ground (arith, h, e, p)

  validated-none :
      (mrm : ModuleReleaseMeta) (name : String) (info : ModuleTemplateInfo) (t : ModuleTemplate)
      → (validated src kyma mrm name info).err ≡ none
      → (validated src kyma mrm name info).template ≡ some t
      → Passed mrm name t
  validated-none mrm name info t h p =
      let looked = validated_looked_up src kyma mrm name info t h p in
      let passed = validated_passed mrm name info t h looked.0 looked.1 in
      (passed.0, describe-none mrm name info t passed.1)

  Allowed-of :
      (name : String) (mrm : ModuleReleaseMeta) (info : ModuleTemplateInfo) (t : ModuleTemplate)
      → src.get_module_release_meta name kyma.meta.namespace ≡ ok mrm
      → Passed mrm name t
      → Allowed name info t
  Allowed-of name mrm info t r p =
      let m = mode_none t mrm p.0 in
      record {
        mrm = mrm;
        released = r;
        unrestricted = restriction_none mrm m.3;
        internal = m.0;
        beta = m.1;
        optional = m.2;
        no_downgrade = skews_none kyma.status.modules name t.version p.1;
      }

  template_of-Checked : (info : ModuleInfo) → Checked (info.entry.name, template_of src kyma info)
  template_of-Checked info t h p =
      let (mrm, r, v, w) = template_of-validated src kyma info t h p in
      Allowed-of info.entry.name mrm (template_of src kyma info) t r
        (validated-none mrm info.entry.name (src.look_up info kyma mrm) t v w)

  -- A template that GetRegularTemplates gives for a module without an error has a release meta, is
  -- not mandatory, is internal or beta only if the Kyma is, is of a module that is not restricted
  -- or selects the Kyma, and has a version that is not below that of the installed module in its
  -- major, minor and patch numbers. Pre-releases of the same numbers are not told apart.
  pub get_regular_templates-Allowed :
      (name : String) (info : ModuleTemplateInfo) (t : ModuleTemplate)
      → lookup name (get_regular_templates src kyma) ≡ some info
      → info.err ≡ none
      → info.template ≡ some t
      → Allowed name info t
  get_regular_templates-Allowed name info t e h p =
      get_regular_templates_all src kyma Checked name info
        (All-every (λ i. Checked (i.entry.name, template_of src kyma i)) template_of-Checked
          (fetch_module_info kyma))
        e t h p
