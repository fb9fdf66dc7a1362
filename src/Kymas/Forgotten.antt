-- ===== src/Kymas/Forgotten.antt =====
-- Which errors DeleteNoLongerExistingModules forgets.
use lifecycle_manager.Prelude.{
  ◌≡◌, refl, List, [], ◌∷◌, ◌++◌, Option, none, some, Option-cases, inl, inr,
}
use lifecycle_manager.Errors.{Error, ok}
use lifecycle_manager.Api.{ModuleStatus, TrackingObject, get_no_longer_existing_module_status}
use lifecycle_manager.Kymas.Env.{KymaEnv, KymaCalls, KymaSt, delete_tracked_manifest}
use lifecycle_manager.Kymas.Removal.{
  delete_tracked, delete_all_tracked, delete_no_longer_existing_modules,
}

module _ (env : KymaEnv) where
  one_deleted :
      (object : TrackingObject) (calls : KymaCalls)
      → env.answer (delete_tracked_manifest object) calls ≡ none
      → (delete_tracked env object calls).1 ≡ none
  unfolding delete_tracked
  one_deleted object calls h = rw h refl

  last_deleted :
      (ss : List ModuleStatus) (s : ModuleStatus) (object : TrackingObject) (last : Option Error)
      (calls : KymaCalls)
      → s.manifest ≡ some object
      → ((before : KymaCalls) → env.answer (delete_tracked_manifest object) before ≡ none)
      → (delete_all_tracked env (ss ++ (s ∷ [])) last calls).1 ≡ none
  unfolding delete_all_tracked
  last_deleted [] s object last calls has h =
      rw (has, delete_all_tracked) (one_deleted object calls (h calls))
  last_deleted (x ∷ ss) s object last calls has h = elim (Option-cases x.manifest) [
    | inl bare ↦ rw (bare, delete_all_tracked) (last_deleted ss s object last calls has h)
    | inr (other, e) ↦
        rw (e, delete_all_tracked)
          (last_deleted ss s object (delete_tracked env other calls).1
            (delete_tracked env other calls).0 has h)
  ]

  -- If the manifest of the last of the modules to remove is deleted, then
  -- DeleteNoLongerExistingModules reports no error, whatever the API server has answered to the
  -- deletions before it.
  pub delete_no_longer_existing_modules_forgets :
      (st : KymaSt) (ss : List ModuleStatus) (s : ModuleStatus) (object : TrackingObject)
      → get_no_longer_existing_module_status st.kyma ≡ (ss ++ (s ∷ []))
      → s.manifest ≡ some object
      → ((before : KymaCalls) → env.answer (delete_tracked_manifest object) before ≡ none)
      → (delete_no_longer_existing_modules env st).1 ≡ ok tt
  unfolding delete_no_longer_existing_modules
  delete_no_longer_existing_modules_forgets st ss s object removed has h =
      rw (removed, delete_no_longer_existing_modules)
        (rw (last_deleted ss s object none st.calls has h) refl)
