-- ===== src/Catalog/Remote.antt =====
-- internal/remote/remote_catalog.go: the synchronization of the catalog of a Kyma.
use lifecycle_manager.Prelude.{String, List, [], Option, none, some, map}
use lifecycle_manager.Errors.{
  Error, wrap, join, Result, ok, err, cat_module_templates_apply, module_template_cleanup,
  cat_module_release_metas_apply, module_release_meta_cleanup,
}
use lifecycle_manager.Api.{Kyma, ModuleTemplate, ModuleReleaseMeta}
use lifecycle_manager.Templates.{Source}
use lifecycle_manager.Catalog.Selection.{
  get_module_release_metas_to_sync, filter_allowed_module_templates,
}
use lifecycle_manager.Catalog.Sync.{
  Entry, Kind, CatalogCall, SkrCatalog, sync_to_skr, delete_all_managed,
}

abbrev pub template_kind : Kind ModuleTemplate
template_kind = record {
  meta = λ t. t.meta;
  with_meta = λ t m. record t { meta = m };
  apply_error = cat_module_templates_apply;
  cleanup_error = module_template_cleanup;
  apply_text = "could not apply ModuleTemplate diff";
  delete_text = "could not delete ModuleTemplate";
  list_text = "failed to list ModuleTemplates from runtime";
  list_skr_text = "failed to list ModuleTemplates from skr";
  delete_skr_text = "failed to delete ModuleTemplate from skr";
}

abbrev pub release_kind : Kind ModuleReleaseMeta
release_kind = record {
  meta = λ r. r.meta;
  with_meta = λ r m. record r { meta = m };
  apply_error = cat_module_release_metas_apply;
  cleanup_error = module_release_meta_cleanup;
  apply_text = "could not apply ModuleReleaseMeta diff";
  delete_text = "could not delete ModuleReleaseMeta";
  list_text = "failed to list ModuleReleaseMetas from runtime";
  list_skr_text = "failed to list ModuleReleaseMeta from skr";
  delete_skr_text = "failed to delete ModuleReleaseMeta from skr";
}

-- The rest of the metadata of an object of the control plane, which is cleared before it is applied.
abbrev pub listed : {T : Type 0} → T → Entry T
listed object = record { object = object; field_managers = []; resource_version = ""; uid = "" }

abbrev pub joined : Option Error → Option Error → Option Error
joined none e = e
joined (some d) none = some d
joined (some d) (some e) = some (join d e)

-- The lists of the control plane, the error of the SKR context, and the clients of the runtime.
pub record RemoteCatalog : Type 0 where
  pub source : Source
  pub namespace : String
  pub list_templates : Result (List ModuleTemplate)
  pub list_releases : Result (List ModuleReleaseMeta)
  pub context_error : Option Error
  pub templates : SkrCatalog ModuleTemplate
  pub releases : SkrCatalog ModuleReleaseMeta

pub record CatalogRun : Type 0 where
  pub template_calls : List (CatalogCall ModuleTemplate)
  pub release_calls : List (CatalogCall ModuleReleaseMeta)
  pub error : Option Error

abbrev pub failed_run : Error → CatalogRun
failed_run e = record { template_calls = []; release_calls = []; error = some e }

module _ (c : RemoteCatalog) where
  -- (c *RemoteCatalog) sync
  unfoldable pub sync_objects : List ModuleTemplate → List ModuleReleaseMeta → CatalogRun
  unfolding sync_to_skr
  sync_objects ts mrms = elim c.context_error [
    | some e ↦ failed_run (wrap "failed to get SKR context" e)
    | none ↦
        let synced_templates =
          sync_to_skr template_kind c.namespace c.templates (map (λ t. listed t) ts) [] in
        let synced_releases =
          sync_to_skr release_kind c.namespace c.releases (map (λ r. listed r) mrms) [] in
        record {
          template_calls = synced_templates.0;
          release_calls = synced_releases.0;
          error = joined synced_templates.1 synced_releases.1;
        }
  ]

  unfoldable pub sync_module_catalog : Kyma → CatalogRun
  unfolding sync_objects get_module_release_metas_to_sync filter_allowed_module_templates
  sync_module_catalog kyma = elim c.list_templates [
    | err e ↦ failed_run (wrap "failed to list ModuleTemplates" e)
    | ok ts ↦ elim c.list_releases [
      | err e ↦ failed_run (wrap "failed to list ModuleReleaseMetas" e)
      | ok mrms ↦
          let releases = get_module_release_metas_to_sync c.source kyma ts mrms in
          sync_objects (filter_allowed_module_templates ts releases kyma) releases
    ]
  ]

  -- (c *RemoteCatalog) Delete, which deletes the templates only.
  unfoldable pub delete_catalog : List (CatalogCall ModuleTemplate) × Option Error
  unfolding delete_all_managed
  delete_catalog = elim c.context_error [
    | some e ↦ ([], some (wrap "failed to get SKR context" e))
    | none ↦ delete_all_managed template_kind c.namespace c.templates []
  ]
