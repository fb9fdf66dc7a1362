-- ===== src/Manifests/Crs.antt =====
-- What CheckModuleCRsDeletion tells of the custom resources of a module.
use lifecycle_manager.Prelude.{
  String, ◌≡◌, refl, ◌⊎◌, inl, inr, Bool, List, [], ◌∷◌, none, some, arith, All,
}
use lifecycle_manager.Errors.{Error, ok, err}
use lifecycle_manager.Api.{Resource, Manifest}
use lifecycle_manager.Manifests.Env.{Calls, Env}
use lifecycle_manager.Manifests.ModuleCrs.{
  list_versions, list_resources, get_all_module_crs_excluding_default_cr, check_module_crs_deletion,
}

module _ (env : Env) where
  -- The items of a version cannot be listed, or there are none.
  abbrev pub NothingListed : String → String → Calls → (String × Bool) → Type 0
  NothingListed group kind c v =
      ((e : Error) × (env.list_items group v.0 kind c ≡ err e))
      ⊎ (env.list_items group v.0 kind c ≡ ok [])

  nothing_listed :
      (group kind : String) (vs : List (String × Bool)) (c : Calls)
      → All (NothingListed group kind c) vs
      → list_versions env group kind vs c ≡ []
  unfolding list_versions
  nothing_listed group kind [] c h = refl
  nothing_listed group kind (v ∷ vs) c (inl (e, p), h) =
      ground (arith, p, nothing_listed group kind vs c h)
  nothing_listed group kind (v ∷ vs) c (inr p, h) =
      ground (arith, p, nothing_listed group kind vs c h)

  -- Where each version of the custom resources lists no item or fails, whatever the error is,
  -- CheckModuleCRsDeletion tells that none is left.
  pub check_module_crs_deletion_unlisted :
      (m : Manifest) (default : Resource) (vs : List (String × Bool)) (c : Calls)
      → m.spec.resource ≡ some default
      → env.rest_mappings default.group default.kind c ≡ ok vs
      → All (NothingListed default.group default.kind c) vs
      → check_module_crs_deletion env m c ≡ none
  unfolding check_module_crs_deletion get_all_module_crs_excluding_default_cr list_resources
  check_module_crs_deletion_unlisted m default vs c r p h =
      ground (arith, r, p, nothing_listed default.group default.kind vs c h)
