-- ===== src/Catalog/Selected.antt =====
-- What of the catalog a Kyma gets to see.
use lifecycle_manager.Prelude.{
  ◌≡◌, refl, ◌∙◌, sym, ap, String, true, false, List, [], ◌∷◌, map, All, Member, All-keep,
  All-implies, All-of, contains, contains-append, contains-map, Bool-cases, Option-cases, ◌⊎◌, inl,
  inr, none, arith,
}
use lifecycle_manager.Errors.{ok, Result-cases}
use lifecycle_manager.Api.{Kyma, ModuleTemplate, ModuleReleaseMeta, ChannelVersionAssignment}
use lifecycle_manager.Templates.{Source, restricted_module_match}
use lifecycle_manager.Catalog.Selection.{
  format_module_name, sync_enabled_for, is_allowed_module_version, allowed_channels, is_visible,
  get_module_release_metas_to_sync, module_templates_to_sync, filter_allowed_module_templates,
}

module _ (src : Source) (kyma : Kyma) where
  -- The release meta is not mandatory; if its module is restricted, its selector matches the Kyma,
  -- and otherwise it has no selector.
  abbrev pub Visible : ModuleReleaseMeta → Type 0
  Visible m =
      (m.mandatory ≡ none)
      × (((contains src.restricted_modules m.module_name ≡ true)
            × (restricted_module_match src m kyma ≡ ok true))
          ⊎ ((contains src.restricted_modules m.module_name ≡ false) × (m.kyma_selector ≡ none)))

  is_visible-Visible : (m : ModuleReleaseMeta) → is_visible src kyma m ≡ true → Visible m
  unfolding is_visible
  is_visible-Visible m h = elim (Option-cases m.mandatory) [
    | inr (v, e) ↦ let bad : false ≡ true = rw (is_visible, e) at h in cc
    | inl e ↦ elim (Bool-cases (contains src.restricted_modules m.module_name)) [
      | inl restricted ↦ elim (Result-cases (restricted_module_match src m kyma)) [
        | inl (matched, f) ↦
            let same : matched ≡ true = rw (is_visible, e, restricted, f) at h in
            (e, inl (restricted, f ∙ ap (λ b. ok b) same))
        | inr (x, f) ↦ let bad : false ≡ true = rw (is_visible, e, restricted, f) at h in cc
      ]
      | inr free ↦ elim (Option-cases m.kyma_selector) [
        | inl f ↦ (e, inr (free, f))
        | inr (x, f) ↦ let bad : false ≡ true = rw (is_visible, e, free, f) at h in cc
      ]
    ]
  ]

  -- A listed release meta is behind it, with at least these channels.
  abbrev pub From : List ModuleReleaseMeta → ModuleReleaseMeta → Type 0
  From mrms r =
      (m : ModuleReleaseMeta) × Member m mrms
      × Visible m
      × (r.module_name ≡ m.module_name)
      × All (λ (a : ChannelVersionAssignment). Member a m.channels) r.channels

  one_more :
      (m : ModuleReleaseMeta) (ms : List ModuleReleaseMeta)
      → Visible m
      → (channels : List ChannelVersionAssignment) (rest : List ModuleReleaseMeta)
      → All (λ a. Member a m.channels) channels
      → All (From (m ∷ ms)) rest
      → All
          (From (m ∷ ms))
          (elim channels [ [] ↦ rest | a ∷ others ↦ record m { channels = a ∷ others } ∷ rest ])
  one_more m ms v [] rest c h = h
  one_more m ms v (a ∷ others) rest c h = ((m, inl refl, v, refl, c), h)

  metas-From :
      (ts : List ModuleTemplate) (mrms : List ModuleReleaseMeta)
      → All (From mrms) (get_module_release_metas_to_sync src kyma ts mrms)
  unfolding get_module_release_metas_to_sync is_allowed_module_version
  metas-From ts [] = tt
  metas-From ts (m ∷ ms) =
      let rest : All (From (m ∷ ms)) (get_module_release_metas_to_sync src kyma ts ms) =
        All-implies (From ms) (From (m ∷ ms)) _ (λ r f. (f.0, inr f.1, f.2, f.3, f.4))
          (metas-From ts ms) in
      elim (Bool-cases (is_visible src kyma m)) [
        | inl seen ↦
            rw (get_module_release_metas_to_sync, seen)
              (one_more m ms (is_visible-Visible m seen) (allowed_channels kyma ts m) _
                (All-keep (λ a. Member a m.channels) _ m.channels (λ a i passes. i)) rest)
        | inr unseen ↦ rw (get_module_release_metas_to_sync, unseen) rest
      ]

  named_lem :
      (s : String) (mrms : List ModuleReleaseMeta)
      → contains (module_templates_to_sync mrms) s ≡ true
      → (m : ModuleReleaseMeta) × (a : ChannelVersionAssignment) × Member m mrms
        × Member a m.channels
        × (format_module_name m.module_name a.version ≡ s)
  unfolding module_templates_to_sync
  named_lem s [] h = cc
  named_lem s (m ∷ ms) h =
      elim (contains-append
        (map (λ (a : ChannelVersionAssignment). format_module_name m.module_name a.version)
          m.channels)
        (module_templates_to_sync ms) s h) [
          | inl here ↦
              let found =
                contains-map
                  (λ (a : ChannelVersionAssignment). format_module_name m.module_name a.version)
                  m.channels s here in
              (m, found.0, inl refl, found.1, found.2)
          | inr there ↦
              let found = named_lem s ms there in (found.0, found.1, inr found.2, found.3, found.4)
        ]

  -- Why a Kyma sees a template: it is listed and enabled for the Kyma, and a listed release meta that
  -- is visible for the Kyma has a channel with its name and version.
  abbrev pub Offered : List ModuleTemplate → List ModuleReleaseMeta → ModuleTemplate → Type 0
  Offered ts mrms t =
      Member t ts
      × (sync_enabled_for kyma t ≡ true)
      × (m : ModuleReleaseMeta) × (a : ChannelVersionAssignment) × Member m mrms
      × Visible m
      × Member a m.channels
      × (format_module_name m.module_name a.version ≡ format_module_name t.module_name t.version)

  offered_lem :
      (ts : List ModuleTemplate) (mrms : List ModuleReleaseMeta) (t : ModuleTemplate)
      → Member t ts
      → sync_enabled_for kyma t ≡ true
      → contains
          (module_templates_to_sync (get_module_release_metas_to_sync src kyma ts mrms))
          (format_module_name t.module_name t.version)
        ≡ true
      → Offered ts mrms t
  offered_lem ts mrms t i e c =
      let (r, a, ri, ai, name) =
        named_lem (format_module_name t.module_name t.version)
          (get_module_release_metas_to_sync src kyma ts mrms) c in
      let (m, mi, v, same, cs) =
        All-of (From mrms) (get_module_release_metas_to_sync src kyma ts mrms) (metas-From ts mrms)
          r ri in
      (
        i,
        e,
        m,
        a,
        mi,
        v,
        All-of (λ b. Member b m.channels) r.channels cs a ai,
        ap (λ n. format_module_name n a.version) (sym same) ∙ name,
      )

  -- Each template that is synchronized to the runtime is enabled for the Kyma, and a release meta
  -- that the Kyma may see names it in a channel: one that is not mandatory, whose selector matches
  -- the Kyma if its module is restricted, and that has no selector otherwise.
  pub filter_allowed_module_templates-Offered :
      (ts : List ModuleTemplate) (mrms : List ModuleReleaseMeta)
      → All (Offered ts mrms) (
          filter_allowed_module_templates ts
            (get_module_release_metas_to_sync src kyma ts mrms)
            kyma)
  unfolding filter_allowed_module_templates
  filter_allowed_module_templates-Offered ts mrms = All-keep (Offered ts mrms) _ ts (λ t i passes.
      let enabled : sync_enabled_for kyma t ≡ true = ground (arith, passes) in
      let named : contains
            (module_templates_to_sync (get_module_release_metas_to_sync src kyma ts mrms))
            (format_module_name t.module_name t.version)
          ≡ true =
        ground (arith, passes) in
      offered_lem ts mrms t i enabled named)
