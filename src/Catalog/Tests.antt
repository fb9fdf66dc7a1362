-- ===== src/Catalog/Tests.antt =====
-- A Kyma whose catalog has one module in a version that is released and in one that is not.
use lifecycle_manager.Prelude.{
  ◌≡◌, ◌↔◌, refl, sym, ap, ◌∙◌, true, false, String, append_text, Member, List, [], ◌∷◌, All, any,
  Option, none, some, ltb, inl, inr, Bool-cases, if◌then◌else◌,
}
use lifecycle_manager.Errors.{Error, foreign, ok}
use lifecycle_manager.Api.{ModuleTemplate, ModuleReleaseMeta}
use lifecycle_manager.Samples.{
  sample_meta, sample_kyma, sample_template, sample_errors, sample_info,
}
use lifecycle_manager.Templates.{Source}
use lifecycle_manager.Catalog.Selection.{
  get_module_release_metas_to_sync, filter_allowed_module_templates, sync_enabled_for,
  is_allowed_module_version,
}
use lifecycle_manager.Catalog.Sync.{
  CatalogCall, Entry, apply, remove, SkrCatalog, sync_to_skr, sync_concurrently, prepare_for_ssa,
}
use lifecycle_manager.Catalog.Remote.{
  template_kind, listed, RemoteCatalog, delete_catalog, sync_module_catalog,
}
use lifecycle_manager.Catalog.Selected.{Offered, filter_allowed_module_templates-Offered}
use lifecycle_manager.Catalog.Server.{
  SameKey, same_key, SameKey-same_key, Present, Distinct, carried, Carries,
}
use lifecycle_manager.Catalog.Converged.{Converged, sync_to_skr-Converged}
use lifecycle_manager.Catalog.Obsolete.{IsObsolete, sync_to_skr_removes_iff}

abbrev btp : (version : String) → ModuleTemplate
btp version = record (sample_template (append_text "btp-" version)) {
  version = version;
  module_name = "btp";
}

-- A release meta of this module with a channel for version 1.1.0.
abbrev release : (name : String) → ModuleReleaseMeta
release name = record {
  meta = sample_meta name;
  module_name = name;
  ocm_component_name = "kyma-project.io/module/btp";
  channels = record { channel = "regular"; version = "1.1.0" } ∷ [];
  mandatory = none;
  kyma_selector = none;
}

abbrev source : Source
source = record {
  errors = sample_errors;
  restricted_modules = "secret" ∷ [];
  get_module_release_meta = λ name namespace. ok (release name);
  look_up = λ info kyma mrm. sample_info "btp" none;
  new_component_id = λ name version. none;
  add_descriptor = λ name version. none;
  new_version = λ s. none;
  less_than = λ v w. ltb v.minor w.minor;
  selector_matches = λ s labels. ok false;
}

abbrev templates : List ModuleTemplate
templates = btp "1.1.0" ∷ btp "1.2.0" ∷ record (btp "1.1.0") { module_name = "secret" } ∷ []

abbrev releases : List ModuleReleaseMeta
releases = release "btp" ∷ release "secret" ∷ []

selected_test :
    filter_allowed_module_templates templates
      (get_module_release_metas_to_sync source sample_kyma templates releases)
      sample_kyma
    ≡ btp "1.1.0" ∷ []
unfolding filter_allowed_module_templates get_module_release_metas_to_sync sync_enabled_for
    is_allowed_module_version
selected_test = refl

filter_allowed_module_templates-Offered_example :
    All (Offered source sample_kyma templates releases) (
      filter_allowed_module_templates templates
        (get_module_release_metas_to_sync source sample_kyma templates releases)
        sample_kyma)
filter_allowed_module_templates-Offered_example =
    filter_allowed_module_templates-Offered source sample_kyma templates releases

-- In the runtime: an old version that the synchronization has applied, the new one, and a template
-- that a user has created.
abbrev managed : (version : String) → Entry ModuleTemplate
managed version = record (listed (btp version)) { field_managers = "catalog-sync" ∷ [] }

abbrev runtime : List (Entry ModuleTemplate)
runtime = managed "1.0.0" ∷ managed "1.1.0" ∷ listed (btp "0.1.0") ∷ []

abbrev skr : SkrCatalog ModuleTemplate
skr = record { errors = sample_errors; list = λ calls. ok runtime; answer = λ c calls. none }

abbrev kcp : List (Entry ModuleTemplate)
kcp = listed (btp "1.1.0") ∷ []

synced_test : sync_to_skr template_kind "" skr kcp [] ≡ (
  remove (managed "1.0.0") ∷ apply (prepare_for_ssa template_kind "" (listed (btp "1.1.0"))) ∷ [],
  none,
)
unfolding sync_to_skr
synced_test = refl

sync_to_skr_removes_iff_example :
    Member (remove (managed "1.0.0")) (sync_to_skr template_kind "" skr kcp []).0
    ↔ (Member (managed "1.0.0") runtime × IsObsolete template_kind "" skr kcp (managed "1.0.0"))
unfolding sync_concurrently
sync_to_skr_removes_iff_example =
    sync_to_skr_removes_iff template_kind "" skr kcp runtime refl refl (managed "1.0.0")

abbrev nothing : SkrCatalog ModuleReleaseMeta
nothing = record { errors = sample_errors; list = λ calls. ok []; answer = λ c calls. none }

abbrev catalog : RemoteCatalog
catalog = record {
  source = source;
  namespace = "kyma-system";
  list_templates = ok templates;
  list_releases = ok releases;
  context_error = none;
  templates = skr;
  releases = nothing;
}

-- The namespace of the settings is that of the applied template, so the one in the old namespace is
-- removed.
catalog_test :
    (sync_module_catalog catalog sample_kyma).template_calls
    ≡ remove (managed "1.1.0")
      ∷ remove (managed "1.0.0")
      ∷ apply (prepare_for_ssa template_kind "kyma-system" (listed (btp "1.1.0")))
      ∷ []
unfolding sync_module_catalog sync_to_skr filter_allowed_module_templates
    get_module_release_metas_to_sync sync_enabled_for is_allowed_module_version
catalog_test = refl

delete_test :
    delete_catalog catalog ≡ (remove (managed "1.1.0") ∷ remove (managed "1.0.0") ∷ [], none)
unfolding delete_catalog
delete_test = refl

-- A server that adds the field manager of what is applied to those of the stored entry, and refuses
-- to remove what it does not have, and a runtime with an old version.
abbrev stored : Option (Entry ModuleTemplate) → Entry ModuleTemplate → Entry ModuleTemplate
stored none e = record e { field_managers = "catalog-sync" ∷ [] }
stored (some old) e = record e { field_managers = "catalog-sync" ∷ old.field_managers }

abbrev now : List (CatalogCall ModuleTemplate) → List (Entry ModuleTemplate)
now calls = carried template_kind stored calls runtime

abbrev answered : CatalogCall ModuleTemplate → List (CatalogCall ModuleTemplate) → Option Error
answered (apply e) calls = none
answered (remove e) calls =
    if any (λ x. same_key template_kind x e) (now calls) then none else some (foreign 404)

abbrev cluster : SkrCatalog ModuleTemplate
cluster = record { errors = sample_errors; list = λ calls. ok (now calls); answer = answered }

Present-any :
    (e : Entry ModuleTemplate) (es : List (Entry ModuleTemplate))
    → Present template_kind e es
    → any (λ x. same_key template_kind x e) es ≡ true
Present-any e [] (f, i, same) = absurd i
Present-any e (x ∷ es) (f, inl here, same) =
    let found : same_key template_kind x e ≡ true =
      ap (λ y. same_key template_kind y e) (sym here) ∙ SameKey-same_key template_kind f e same in
    rw (any, found) refl
Present-any e (x ∷ es) (f, inr there, same) = elim (Bool-cases (same_key template_kind x e)) [
  | inl found ↦ rw (any, found) refl
  | inr other ↦ rw (any, other) (Present-any e es (f, there, same))
]

apart :
    (e f x : Entry ModuleTemplate)
    → x ≡ f
    → same_key template_kind e f ≡ false
    → ¬ SameKey template_kind e x
apart e f x same h key =
    let equal = SameKey-same_key template_kind e x key in
    let bad : false ≡ true = sym h ∙ (ap (λ y. same_key template_kind e y) (sym same) ∙ equal) in cc

identified :
    (old : Option (Entry ModuleTemplate)) (e : Entry ModuleTemplate)
    → SameKey template_kind (stored old e) e
identified none e = (refl, refl)
identified (some old) e = (refl, refl)

distinct : Distinct template_kind runtime
distinct = (
  λ f i. elim i [
    | inl same ↦ apart (managed "1.0.0") (managed "1.1.0") f same refl
    | inr rest ↦ elim rest [
      | inl same ↦ apart (managed "1.0.0") (listed (btp "0.1.0")) f same refl
      | inr none_left ↦ absurd none_left
    ]
  ],
  (
    λ f i. elim i [
      | inl same ↦ apart (managed "1.1.0") (listed (btp "0.1.0")) f same refl
      | inr none_left ↦ absurd none_left
    ],
    (λ f i. absurd i, tt),
  ),
)

server : Carries template_kind cluster stored runtime
server = record {
  applies = λ e calls. refl;
  removes = λ e calls there. rw (Present-any e (now calls) there) refl;
  lists = λ calls. refl;
  identified = identified;
  distinct = distinct;
}

carried_test :
    now (sync_to_skr template_kind "" cluster kcp []).0
    ≡ stored (some (managed "1.1.0")) (prepare_for_ssa template_kind "" (listed (btp "1.1.0")))
      ∷ listed (btp "0.1.0")
      ∷ []
unfolding sync_to_skr
carried_test = refl

sync_to_skr-Converged_example :
    ((sync_to_skr template_kind "" cluster kcp []).1 ≡ none)
    × Converged template_kind "" cluster stored runtime server kcp
        (carried template_kind stored (sync_to_skr template_kind "" cluster kcp []).0 runtime)
sync_to_skr-Converged_example =
    sync_to_skr-Converged template_kind "" cluster stored runtime server kcp
