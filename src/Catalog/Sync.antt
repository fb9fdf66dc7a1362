-- ===== src/Catalog/Sync.antt =====
-- internal/remote: moduletemplate_syncer.go, moduletemplate_syncworker.go and their counterparts for
-- release metas, which have the same code, and internal/util/collections.
use lifecycle_manager.Prelude.{
  String, str_eq, append_text, Bool, not, List, [], ◌∷◌, map, Option, none, some, any, keep, insert,
  if◌then◌else◌,
}
use lifecycle_manager.Errors.{
  Error, Sentinel, sentinel, wrap, join, Result, ok, err, ErrorLib, is_not_found,
}
use lifecycle_manager.Api.{ObjectMeta, managed_by}

-- An object of the catalog with the rest of its metadata: the managers of its managed fields, and
-- whether it has a resource version and a UID.
pub record Entry (T : Type 0) : Type 0 where
  pub object : T
  pub field_managers : List String
  pub resource_version : String
  pub uid : String

abbrev pub module_catalog_sync : String
module_catalog_sync = "catalog-sync"

abbrev pub managed_by_label_value : String
managed_by_label_value = "kyma"

-- The calls that change the runtime.
pub data CatalogCall (T : Type 0) : Type 0 where
  apply remove : Entry T → CatalogCall T

-- The kind of the objects: their metadata, the errors of their workers, errCat…Apply and
-- err…Cleanup, and the texts of the wrapped errors.
pub record Kind (T : Type 0) : Type 0 where
  pub meta : T → ObjectMeta
  pub with_meta : T → ObjectMeta → T
  pub apply_error : Sentinel
  pub cleanup_error : Sentinel
  pub apply_text : String
  pub delete_text : String
  pub list_text : String
  pub list_skr_text : String
  pub delete_skr_text : String

-- The client of the runtime, which may answer by all calls made before.
pub record SkrCatalog (T : Type 0) : Type 0 where
  pub errors : ErrorLib
  pub list : List (CatalogCall T) → Result (List (Entry T))
  pub answer : CatalogCall T → List (CatalogCall T) → Option Error

-- errors.Join(append(errs, last)...), or nil without errors.
abbrev pub join_errors : List Error → Error → Option Error
join_errors [] last = none
join_errors (e ∷ es) last = some (joined (e ∷ es))
  where
    joined : List Error → Error
    joined [] = last
    joined (d ∷ ds) = join d (joined ds)

abbrev pub identity_of : ObjectMeta → String
identity_of m = append_text m.namespace m.name

-- (d *DiffCalc) NotExistingIn
unfoldable pub not_existing_in : {E : Type 0} → (E → String) → List E → List E → List E
not_existing_in identity first second =
    keep (λ e. not (any (λ f. str_eq (identity f) (identity e)) second)) first

module _ {T : Type 0} (kind : Kind T) (namespace : String) where
  -- isModuleTemplateManagedByKcp
  abbrev pub is_managed_by_kcp : Entry T → Bool
  is_managed_by_kcp e = any (λ (m : String). str_eq m module_catalog_sync) e.field_managers

  abbrev pub entry_identity : Entry T → String
  entry_identity e = identity_of (kind.meta e.object)

  abbrev pub remote_meta : ObjectMeta → ObjectMeta
  remote_meta m = record m {
    labels = insert managed_by managed_by_label_value m.labels;
    namespace = if str_eq namespace "" then m.namespace else namespace;
  }

  -- prepareModuleTemplateForSSA, which changes the entry of the slice in place.
  unfoldable pub prepare_for_ssa : Entry T → Entry T
  prepare_for_ssa e = record {
    object = kind.with_meta e.object (remote_meta (kind.meta e.object));
    field_managers = [];
    resource_version = "";
    uid = "";
  }

  module _ (client : SkrCatalog T) where
    abbrev pub call_all :
        String → List (CatalogCall T) → List (CatalogCall T) → List (CatalogCall T) × List Error
    call_all text [] calls = (calls, [])
    call_all text (c ∷ cs) calls =
        let rest = call_all text cs (c ∷ calls) in
        (rest.0, elim (client.answer c calls) [ none ↦ rest.1 | some e ↦ wrap text e ∷ rest.1 ])

    -- SyncConcurrently: the calls and the error. The entries behind it are the prepared ones.
    unfoldable pub sync_concurrently :
        List (Entry T) → List (CatalogCall T) → List (CatalogCall T) × Option Error
    unfolding prepare_for_ssa
    sync_concurrently entries calls =
        let out = call_all kind.apply_text (map (λ e. apply (prepare_for_ssa e)) entries) calls in
        (out.0, join_errors out.1 (sentinel kind.apply_error))

    unfoldable pub delete_concurrently :
        List (Entry T) → List (CatalogCall T) → List (CatalogCall T) × Option Error
    delete_concurrently entries calls =
        let out = call_all kind.delete_text (map (λ e. remove e) entries) calls in
        (out.0, join_errors out.1 (sentinel kind.cleanup_error))

    -- What SyncToSKR deletes: kcpModules are the prepared entries there.
    unfoldable pub obsolete : (runtime kcp_modules : List (Entry T)) → List (Entry T)
    unfolding prepare_for_ssa not_existing_in
    obsolete runtime kcp_modules =
        keep is_managed_by_kcp
          (not_existing_in entry_identity runtime (map prepare_for_ssa kcp_modules))

    unfoldable pub sync_to_skr :
        List (Entry T) → List (CatalogCall T) → List (CatalogCall T) × Option Error
    unfolding sync_concurrently delete_concurrently obsolete
    sync_to_skr kcp_modules calls =
        let synced = sync_concurrently kcp_modules calls in
        elim synced.1 [
          | some e ↦ (synced.0, some e)
          | none ↦ elim (client.list synced.0) [
            | err e ↦
                if client.errors.is_no_match e
                then (synced.0, none)
                else (synced.0, some (wrap kind.list_text e))
            | ok runtime ↦ delete_concurrently (obsolete runtime kcp_modules) synced.0
          ]
        ]

    -- The loop of DeleteAllManaged, which ends at the first error.
    unfoldable pub delete_managed :
        List (Entry T) → List (CatalogCall T) → List (CatalogCall T) × Option Error
    unfolding is_not_found
    delete_managed [] calls = (calls, none)
    delete_managed (e ∷ es) calls =
        if is_managed_by_kcp e
        then elim (client.answer (remove e) calls) [
          | none ↦ delete_managed es (remove e ∷ calls)
          | some x ↦
              if is_not_found client.errors (some x)
              then delete_managed es (remove e ∷ calls)
              else (remove e ∷ calls, some (wrap kind.delete_skr_text x))
        ]
        else delete_managed es calls

    unfoldable pub delete_all_managed : List (CatalogCall T) → List (CatalogCall T) × Option Error
    unfolding delete_managed is_not_found
    delete_all_managed calls = elim (client.list calls) [
      | err e ↦
          if is_not_found client.errors (some e)
          then (calls, none)
          else (calls, some (wrap kind.list_skr_text e))
      | ok runtime ↦ delete_managed runtime calls
    ]
