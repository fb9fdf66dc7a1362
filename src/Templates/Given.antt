-- ===== src/Templates/Given.antt =====
-- Where a template comes from that GetRegularTemplates gives.
use lifecycle_manager.Prelude.{
  String, str_eq, eq_iff, subst, ◌≡◌, ◌≢◌, inl, inr, List, [], ◌∷◌, Option, none, some, is_some,
  lookup, All, All-append, arith, Bool-cases,
}
use lifecycle_manager.Errors.{Error, ok, err, Result-cases}
use lifecycle_manager.Api.{Kyma, ModuleReleaseMeta, ModuleTemplate}
use lifecycle_manager.Templates.Infos.{ModuleInfo, fetch_module_info}
use lifecycle_manager.Templates.Lookup.{
  ModuleTemplateInfo, Source, describe, validated, template_of, add_templates,
  get_regular_templates,
}

module _ (src : Source) (kyma : Kyma) where
  pub describe_template :
      (mrm : ModuleReleaseMeta) (name : String) (info : ModuleTemplateInfo) (t : ModuleTemplate)
      → (describe src kyma mrm name info t).template ≡ info.template
  unfolding describe
  describe_template mrm name info t = ground arith

  -- The template that the lookup has found is the one that is given.
  pub validated_looked_up :
      (mrm : ModuleReleaseMeta) (name : String) (info : ModuleTemplateInfo) (t : ModuleTemplate)
      → (validated src kyma mrm name info).err ≡ none
      → (validated src kyma mrm name info).template ≡ some t
      → (info.err ≡ none) × (info.template ≡ some t)
  unfolding validated describe
  validated_looked_up mrm name info t h p = ground (arith, h, p)

  unreleased :
      (info : ModuleInfo) (e : Error)
      → src.get_module_release_meta info.entry.name kyma.meta.namespace ≡ err e
      → (template_of src kyma info).err ≢ none
  unfolding template_of
  unreleased info e r h = ground (arith, r, h)

  released_err :
      (info : ModuleInfo) (mrm : ModuleReleaseMeta)
      → src.get_module_release_meta info.entry.name kyma.meta.namespace ≡ ok mrm
      → (template_of src kyma info).err ≡ none
      → (validated src kyma mrm info.entry.name (src.look_up info kyma mrm)).err ≡ none
  unfolding template_of
  released_err info mrm r h = ground (arith, r, h)

  released_template :
      (info : ModuleInfo) (mrm : ModuleReleaseMeta) (t : ModuleTemplate)
      → src.get_module_release_meta info.entry.name kyma.meta.namespace ≡ ok mrm
      → (template_of src kyma info).err ≡ none
      → (template_of src kyma info).template ≡ some t
      → (validated src kyma mrm info.entry.name (src.look_up info kyma mrm)).template ≡ some t
  unfolding template_of
  released_template info mrm t r h p = ground (arith, r, h, p)

  pub template_of-validated :
      (info : ModuleInfo) (t : ModuleTemplate)
      → (template_of src kyma info).err ≡ none
      → (template_of src kyma info).template ≡ some t
      → (mrm : ModuleReleaseMeta) × (src.get_module_release_meta info.entry.name kyma.meta.namespace
          ≡ ok mrm)
        × ((validated src kyma mrm info.entry.name (src.look_up info kyma mrm)).err ≡ none)
        × ((validated src kyma mrm info.entry.name (src.look_up info kyma mrm)).template ≡ some t)
  template_of-validated info t h p =
      elim (Result-cases (src.get_module_release_meta info.entry.name kyma.meta.namespace)) [
        | inl (mrm, r) ↦ (mrm, r, released_err info mrm r h, released_template info mrm t r h p)
        | inr (e, r) ↦ absurd (unreleased info e r h)
      ]

  -- A property of all templates that the modules give holds of each entry of the map.
  module _ (P : String × ModuleTemplateInfo → Type 0) where
    add_templates-All :
        (infos : List ModuleInfo) (templates : List (String × ModuleTemplateInfo))
        → All (λ (i : ModuleInfo). P (i.entry.name, template_of src kyma i)) infos
        → All P templates
        → All P (add_templates src kyma infos templates)
    unfolding add_templates
    add_templates-All [] templates a h = h
    add_templates-All (info ∷ infos) templates a h =
        elim (Bool-cases (is_some (lookup info.entry.name templates))) [
          | inl known ↦ rw known (add_templates-All infos templates a.1 h)
          | inr new ↦ rw new (add_templates-All infos _ a.1 (All-append P templates _ h (a.0, tt)))
        ]

    lookup_all :
        (name : String) (info : ModuleTemplateInfo) (templates : List (String × ModuleTemplateInfo))
        → All P templates
        → lookup name templates ≡ some info
        → P (name, info)
    lookup_all name info [] h e = cc
    lookup_all name info ((key, one) ∷ rest) h e = elim (Bool-cases (str_eq key name)) [
      | inr other ↦ lookup_all name info rest h.1 (rw other at e)
      | inl same ↦
          subst P (λ i. ((eq_iff key name).0 same i, some_same one info (rw same at e) i)) h.0
    ]
      where
        some_same :
            (x y : ModuleTemplateInfo)
            → ◌≡◌ {A = Option ModuleTemplateInfo} (some x) (some y)
            → x ≡ y
        some_same x y q = cc

    pub get_regular_templates_all :
        (name : String) (info : ModuleTemplateInfo)
        → All
            (λ (i : ModuleInfo). P (i.entry.name, template_of src kyma i))
            (fetch_module_info kyma)
        → lookup name (get_regular_templates src kyma) ≡ some info
        → P (name, info)
    unfolding get_regular_templates
    get_regular_templates_all name info a e =
        lookup_all name info (get_regular_templates src kyma)
          (add_templates-All (fetch_module_info kyma) [] a tt) e
