-- ===== src/Modules/Deleted.antt =====
-- What ReconcileManifests reports of manifests that it deletes, and of modules that nobody manages.
use lifecycle_manager.Prelude.{
  ◌≡◌, ◌≢◌, refl, subst, sym, ap, ◌∙◌, inl, inr, List, [], ◌∷◌, none, some, Member, Option-cases,
  arith,
}
use lifecycle_manager.Errors.{Error, sentinel, wrap, ok, manifest_ssa_failed}
use lifecycle_manager.Api.{Kyma, Manifest}
use lifecycle_manager.Modules.Defs.{CommonModule}
use lifecycle_manager.Modules.Sync.{delete, SyncCalls, Runner}
use lifecycle_manager.Modules.Runner.{
  join_all, delete_manifest, reconcile_module, reconcile_modules, reconcile_manifests,
}
use lifecycle_manager.Modules.Permitted.{NotAllowed, refused_same}

module _ (r : Runner) (kyma : Kyma) where
  deleted_error :
      (m deleted : Manifest) (calls : SyncCalls)
      → r.answer (delete m) calls ≡ ok deleted
      → (delete_manifest r kyma m calls).1 ≢ none
  unfolding delete_manifest
  deleted_error m deleted calls d h = ground (arith, d, h)

  module_error :
      (c : CommonModule) (m deleted : Manifest) (calls : SyncCalls)
      → NotAllowed c
      → c.manifest ≡ some m
      → r.answer (delete m) calls ≡ ok deleted
      → (reconcile_module r kyma c calls).2 ≢ none
  module_error c m deleted calls refusal has d n =
      deleted_error m deleted calls d
        (sym (ap (λ q. q.2) (refused_same r kyma c m calls refusal has)) ∙ n)

  none_left :
      (c : CommonModule) (cs : List CommonModule) (calls : SyncCalls)
      → (reconcile_modules r kyma (c ∷ cs) calls).2 ≡ []
      → ((reconcile_module r kyma c calls).2 ≡ none)
        × ((reconcile_modules r kyma cs (reconcile_module r kyma c calls).0).2 ≡ [])
  unfolding reconcile_modules
  none_left c cs calls h = elim (Option-cases (reconcile_module r kyma c calls).2) [
    | inl fine ↦ (fine, rw (fine, reconcile_modules) at h)
    | inr (e, bad) ↦ absurd (ground (arith, h, bad))
  ]

  modules_error :
      (c : CommonModule) (m deleted : Manifest) (cs : List CommonModule) (calls : SyncCalls)
      → Member c cs
      → NotAllowed c
      → c.manifest ≡ some m
      → ((before : SyncCalls) → r.answer (delete m) before ≡ ok deleted)
      → (reconcile_modules r kyma cs calls).2 ≢ []
  modules_error c m deleted [] calls i refusal has d h = i
  modules_error c m deleted (x ∷ cs) calls (inl e) refusal has d h =
      module_error x m deleted calls (subst NotAllowed e refusal)
        (sym (ap (λ y. y.manifest) e) ∙ has) (d calls) (none_left x cs calls h).0
  modules_error c m deleted (x ∷ cs) calls (inr i) refusal has d h =
      modules_error c m deleted cs (reconcile_module r kyma x calls).0 i refusal has d
        (none_left x cs calls h).1

  -- If the template of one of the modules is not allowed and the API server accepts the deletion of
  -- its manifest, then ReconcileManifests returns an error: deleteManifest wraps the nil error of
  -- the deletion that has succeeded.
  pub reconcile_manifests_deleted :
      (cs : List CommonModule) (c : CommonModule) (m deleted : Manifest)
      → Member c cs
      → NotAllowed c
      → c.manifest ≡ some m
      → ((before : SyncCalls) → r.answer (delete m) before ≡ ok deleted)
      → (e : Error) × ((reconcile_manifests r kyma cs []).2 ≡ some e)
  unfolding reconcile_manifests
  reconcile_manifests_deleted cs c m deleted i refusal has d =
      go (reconcile_modules r kyma cs []).2 (modules_error c m deleted cs [] i refusal has d)
    where
      go :
          (es : List Error)
          → es ≢ []
          → (e : Error) × ((elim es [
            | [] ↦ none
            | x ∷ xs ↦ some (join_all (x ∷ xs) (wrap kyma.meta.name (sentinel manifest_ssa_failed)))
          ])
              ≡ some e)
      go [] h = absurd (h refl)
      go (x ∷ xs) h = (_, refl)
