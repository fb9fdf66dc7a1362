-- ===== src/Catalog/Selection.antt =====
-- internal/remote/remote_catalog.go: which release metas and templates a Kyma may see.
use lifecycle_manager.Prelude.{
  String, str_eq, append_text, Bool, true, false, not, ◌&&◌, List, [], ◌∷◌, ◌++◌, map, is_some,
  keep, contains, if◌then◌else◌,
}
use lifecycle_manager.Errors.{ok, err}
use lifecycle_manager.Api.{
  Kyma, ModuleTemplate, ModuleReleaseMeta, ChannelVersionAssignment, sync_enabled,
  is_mandatory_release, label_enabled, beta_label, internal_label,
}
use lifecycle_manager.Templates.{Source, restricted_module_match}

abbrev pub format_module_name : (module_name version : String) → String
format_module_name module_name version = append_text module_name (append_text "-" version)

-- kyma.IsBeta() and kyma.IsInternal() in SyncEnabled.
unfoldable pub sync_enabled_for : Kyma → ModuleTemplate → Bool
unfolding sync_enabled label_enabled
sync_enabled_for kyma t =
    sync_enabled t (label_enabled beta_label kyma.meta) (label_enabled internal_label kyma.meta)

unfoldable pub is_allowed_module_version :
    Kyma → List ModuleTemplate → (module_name version : String) → Bool
is_allowed_module_version kyma [] module_name version = false
is_allowed_module_version kyma (t ∷ ts) module_name version =
    let rest = is_allowed_module_version kyma ts module_name version in
    if str_eq (format_module_name module_name version) t.meta.name && sync_enabled_for kyma t
    then true
    else rest

abbrev pub allowed_channels :
    Kyma → List ModuleTemplate → ModuleReleaseMeta → List ChannelVersionAssignment
unfolding is_allowed_module_version
allowed_channels kyma ts mrm =
    keep
      (λ (a : ChannelVersionAssignment).
        is_allowed_module_version kyma ts mrm.module_name a.version)
      mrm.channels

module _ (src : Source) where
  -- The guards of the loop before its channels are read: an error of the match skips the release
  -- meta as well.
  unfoldable pub is_visible : Kyma → ModuleReleaseMeta → Bool
  unfolding restricted_module_match
  is_visible kyma mrm =
      if is_mandatory_release mrm
      then false
      else if contains src.restricted_modules mrm.module_name
      then elim (restricted_module_match src mrm kyma) [ err e ↦ false | ok matched ↦ matched ]
      else not (is_some mrm.kyma_selector)

  -- GetModuleReleaseMetasToSync, on the listed release metas.
  unfoldable pub get_module_release_metas_to_sync :
      Kyma → List ModuleTemplate → List ModuleReleaseMeta → List ModuleReleaseMeta
  unfolding is_visible is_allowed_module_version
  get_module_release_metas_to_sync kyma ts [] = []
  get_module_release_metas_to_sync kyma ts (mrm ∷ mrms) =
      let rest = get_module_release_metas_to_sync kyma ts mrms in
      if is_visible kyma mrm
      then elim (allowed_channels kyma ts mrm) [
        | [] ↦ rest
        | a ∷ rest_channels ↦ record mrm { channels = a ∷ rest_channels } ∷ rest
      ]
      else rest

-- The keys of the map moduleTemplatesToSync.
unfoldable pub module_templates_to_sync : List ModuleReleaseMeta → List String
module_templates_to_sync [] = []
module_templates_to_sync (mrm ∷ mrms) =
    map (λ (a : ChannelVersionAssignment). format_module_name mrm.module_name a.version)
      mrm.channels
    ++ module_templates_to_sync mrms

unfoldable pub filter_allowed_module_templates :
    List ModuleTemplate → List ModuleReleaseMeta → Kyma → List ModuleTemplate
unfolding module_templates_to_sync
filter_allowed_module_templates ts mrms kyma =
    keep
      (λ (t : ModuleTemplate).
        sync_enabled_for kyma t
        && contains (module_templates_to_sync mrms) (format_module_name t.module_name t.version))
      ts
