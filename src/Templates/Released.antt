-- ===== src/Templates/Released.antt =====
-- Which version of a module GetRegularTemplates gives with the strategy of the Kyma controller.
use lifecycle_manager.Prelude.{
  String, subst, ap, ◌∙◌, ◌≡◌, ◌≢◌, ◌⊎◌, Option-cases, refl, inl, inr, true, none, some, lookup,
  Member, All-implies, All-Member, arith,
}
use lifecycle_manager.Errors.{Error, Result, ok, err, Result-cases}
use lifecycle_manager.Api.{Kyma, ModuleReleaseMeta, ModuleTemplate}
use lifecycle_manager.Templates.Infos.{ModuleInfo, fetch_module_info}
use lifecycle_manager.Templates.Lookup.{
  ModuleTemplateInfo, Source, template_of, get_regular_templates,
}
use lifecycle_manager.Templates.Given.{
  validated_looked_up, template_of-validated, get_regular_templates_all,
}
use lifecycle_manager.Templates.Strategy.{
  get_mandatory_version_for_module, get_channel_version_for_module, channel_version,
  get_desired_channel, create_module_template_name, Reader, get_template_by_version,
  resolved_version, look_up_template, MaintenanceWindow, with_maintenance_window, decorated_lookup,
}

module _ (window : MaintenanceWindow) (reader : Reader) (kyma : Kyma) where
  -- The release meta gives this version: the mandatory one if it has one, and otherwise that of the
  -- channel.
  abbrev pub Assigned : ModuleReleaseMeta → (channel version : String) → Type 0
  Assigned mrm channel version =
      (mrm.mandatory ≡ some version)
      ⊎ ((mrm.mandatory ≡ none) × (channel_version mrm.channels channel ≡ some version))

  -- The template is that of the version which the release meta gives, and if it needs a maintenance
  -- window, one is active.
  pub record Released (info : ModuleInfo) (mrm : ModuleReleaseMeta) (t : ModuleTemplate)
      : Type 0 where
    pub version : String
    pub assigned : Assigned mrm (get_desired_channel info.entry.channel kyma.spec.channel) version
    pub found :
        reader.get (create_module_template_name info.entry.name version) kyma.meta.namespace ≡ ok t
    pub in_window : window.is_required t kyma ≡ true → window.is_active kyma ≡ ok true

  channel_found :
      (mrm : ModuleReleaseMeta) (channel version : String)
      → get_channel_version_for_module mrm channel ≡ ok version
      → channel_version mrm.channels channel ≡ some version
  unfolding get_channel_version_for_module
  channel_found mrm channel version h = ground (arith, h)

  resolved-Assigned :
      (mrm : ModuleReleaseMeta) (channel version : String)
      → resolved_version reader mrm channel ≡ ok version
      → Assigned mrm channel version
  unfolding get_mandatory_version_for_module get_channel_version_for_module
  resolved-Assigned mrm channel version h = elim (Option-cases mrm.mandatory) [
    | inr (v, e) ↦
        let given : ok v ≡ ok version = rw (e, get_mandatory_version_for_module) at h in
        inl (e ∙ ap some (ground (arith, given)))
    | inl e ↦ inr (e, channel_found mrm channel version (rw e at h))
  ]

  window_template :
      (found : ModuleTemplateInfo) (t : ModuleTemplate)
      → (with_maintenance_window window kyma found).err ≡ none
      → (with_maintenance_window window kyma found).template ≡ some t
      → (found.err ≡ none)
        × (found.template ≡ some t)
        × (window.is_required t kyma ≡ true → window.is_active kyma ≡ ok true)
  unfolding with_maintenance_window
  window_template found t h p = ground (arith, h, p)

  module _ (info : ModuleInfo) (mrm : ModuleReleaseMeta) where
    abbrev resolved : Result String
    resolved =
        resolved_version reader mrm (get_desired_channel info.entry.channel kyma.spec.channel)

    abbrev got : String → Result ModuleTemplate
    got version =
        reader.get (create_module_template_name info.entry.name version) kyma.meta.namespace

    unresolved :
        (e : Error) → resolved ≡ err e → (look_up_template reader info kyma (some mrm)).err ≢ none
    unfolding look_up_template
    unresolved e v h = ground (arith, v, h)

    no_template :
        (version : String) (e : Error)
        → resolved ≡ ok version
        → got version ≡ err e
        → (look_up_template reader info kyma (some mrm)).err ≢ none
    unfolding look_up_template get_template_by_version
    no_template version e v g h = ground (arith, v, g, h)

    right_template :
        (version : String) (t u : ModuleTemplate)
        → resolved ≡ ok version
        → got version ≡ ok u
        → (look_up_template reader info kyma (some mrm)).template ≡ some t
        → u ≡ t
    unfolding look_up_template get_template_by_version
    right_template version t u v g p = ground (arith, v, g, p)

    look_up_found :
        (t : ModuleTemplate)
        → (look_up_template reader info kyma (some mrm)).err ≡ none
        → (look_up_template reader info kyma (some mrm)).template ≡ some t
        → (version : String) × (resolved ≡ ok version) × (got version ≡ ok t)
    look_up_found t h p = elim (Result-cases resolved) [
      | inr (e, v) ↦ absurd (unresolved e v h)
      | inl (version, v) ↦ elim (Result-cases (got version)) [
        | inr (e, g) ↦ absurd (no_template version e v g h)
        | inl (u, g) ↦
            (version, v, subst (λ x. got version ≡ ok x) (right_template version t u v g p) g)
      ]
    ]

    decorated_found :
        (t : ModuleTemplate)
        → (decorated_lookup window reader info kyma (some mrm)).err ≡ none
        → (decorated_lookup window reader info kyma (some mrm)).template ≡ some t
        → Released info mrm t
    unfolding decorated_lookup
    decorated_found t h p =
        let w = window_template (look_up_template reader info kyma (some mrm)) t h p in
        let f = look_up_found t w.0 w.1 in
        record {
          version = f.0;
          assigned = resolved-Assigned mrm _ f.0 f.1;
          found = f.2;
          in_window = w.2;
        }

-- The lookup of the Kyma controller.
abbrev pub with_strategy : MaintenanceWindow → Reader → Source → Source
with_strategy window reader src = record src {
  look_up = λ info kyma mrm. decorated_lookup window reader info kyma (some mrm);
}

module _ (window : MaintenanceWindow) (reader : Reader) (src : Source) (kyma : Kyma) where
  abbrev given : Source
  given = with_strategy window reader src

  -- A module of the Kyma of that name that has the release meta and the template.
  pub record ReleasedFor (name : String) (t : ModuleTemplate) : Type 0 where
    pub info : ModuleInfo
    pub mrm : ModuleReleaseMeta
    pub listed : Member info (fetch_module_info kyma)
    pub named : info.entry.name ≡ name
    pub has_release : src.get_module_release_meta name kyma.meta.namespace ≡ ok mrm
    pub released : Released window reader kyma info mrm t

  abbrev Checked : String × ModuleTemplateInfo → Type 0
  Checked (name, x) = (t : ModuleTemplate) → x.err ≡ none → x.template ≡ some t → ReleasedFor name t

  template_of-Checked :
      (info : ModuleInfo)
      → Member info (fetch_module_info kyma)
      → Checked (info.entry.name, template_of given kyma info)
  template_of-Checked info m t h p =
      let (mrm, r, v, w) = template_of-validated given kyma info t h p in
      let looked =
        validated_looked_up given kyma mrm info.entry.name (given.look_up info kyma mrm) t v w in
      record {
        info = info;
        mrm = mrm;
        listed = m;
        named = refl;
        has_release = r;
        released = decorated_found window reader kyma info mrm t looked.0 looked.1;
      }

  -- A template that GetRegularTemplates gives without an error, with the lookup and the decorator
  -- for maintenance windows as its strategy, is for a module that the spec or the status of the
  -- Kyma lists. It is the one that the reader has for the version which the release meta assigns
  -- to the channel of the module, or, if the release meta is mandatory, for its mandatory version.
  -- If the window policy requires a window for the template, one is active.
  pub get_regular_templates-Released :
      (name : String) (info : ModuleTemplateInfo) (t : ModuleTemplate)
      → lookup name (get_regular_templates given kyma) ≡ some info
      → info.err ≡ none
      → info.template ≡ some t
      → ReleasedFor name t
  get_regular_templates-Released name info t e h p =
      get_regular_templates_all given kyma Checked name info
        (All-implies (λ i. Member i (fetch_module_info kyma))
          (λ i. Checked (i.entry.name, template_of given kyma i)) (fetch_module_info kyma)
          template_of-Checked (All-Member (fetch_module_info kyma)))
        e t h p
