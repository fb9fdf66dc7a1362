-- ===== src/Deletion/Safety.antt =====
-- What holds when the finalizer of a Kyma is dropped.
use lifecycle_manager.Prelude.{
  ◌≡◌, refl, ◌≢◌, ◌⊎◌, inl, inr, Bool, true, false, not, ◌&&◌, ◌||◌, List, ◌∷◌, Option, none, some,
  arith, if◌then◌else◌,
}
use lifecycle_manager.Errors.{Error, Result, ok, err, ErrorLib, errors_is, skr_client_not_found}
use lifecycle_manager.Api.{Kyma, is_deleting}
use lifecycle_manager.Deletion.Defs.{
  Outcome, UseCase, visit, delete, deletion_steps, drop_kyma_finalizer,
  delete_watcher_certificate_setup,
}
use lifecycle_manager.Deletion.UseCases.{
  get_namespaced_name, module_template_crd, module_release_meta_crd, kyma_crd, Repos,
  skr_certificate, unless_no_client, kyma_in_state_deleting, watcher_setup_applicable,
  delete_watcher_setup, composed_steps, set_kyma_status_deleting_use_case,
  set_skr_kyma_state_deleting_use_case, delete_manifests_use_case,
  delete_watcher_certificate_setup_use_case, delete_skr_webhook_resources_use_case,
  delete_skr_crd_use_case, delete_skr_kyma_use_case, delete_metrics_use_case,
  ensure_manifest_deletion_use_case,
}
use lifecycle_manager.Deletion.Selection.{IsInapplicable, visit-false}

module _ {W : Type 0} where
  -- The outcome of a call names the use case that drops the finalizer.
  abbrev pub Drops : Outcome W → Type 0
  Drops out = out.result.use_case ≡ some drop_kyma_finalizer

  pass_result :
      (u : UseCase W) (kyma : Kyma) (w : W) (rest : Outcome W) (a : Result Bool)
      → u.is_applicable kyma w ≡ a
      → (u.execute kyma w).result.use_case ≡ some u.name
      → u.name ≢ drop_kyma_finalizer
      → Drops (visit u kyma w rest)
      → a ≡ ok false
  unfolding visit
  pass_result u kyma w rest (err e) h named other d = absurd (other (cc (rw (h, visit) at d)))
  pass_result u kyma w rest (ok true) h named other d =
      absurd (other (cc (named, (rw (h, visit) at d))))
  pass_result u kyma w rest (ok false) h named other d = refl

  -- If the call drops the finalizer and the first use case is another, that one is inapplicable
  -- and the rest of the list drops it.
  pass :
      (u : UseCase W) (steps : List (UseCase W)) (kyma : Kyma) (w : W)
      → (u.execute kyma w).result.use_case ≡ some u.name
      → u.name ≢ drop_kyma_finalizer
      → Drops (delete (u ∷ steps) kyma w)
      → IsInapplicable kyma w u × Drops (delete steps kyma w)
  unfolding delete
  pass u steps kyma w named other d =
      let skipped : IsInapplicable kyma w u =
        pass_result u kyma w (delete steps kyma w) _ refl named other d in
      (skipped, rw (visit-false kyma w u (delete steps kyma w) skipped) at d)

-- A resource of the SKR is gone: it does not exist, or there is no client for the SKR.
abbrev pub IsGone : Result Bool → Type 0
IsGone a = (a ≡ ok false) ⊎ ((e : Error) × (a ≡ err e) × (errors_is e skr_client_not_found ≡ true))

IsGone-of_unless_no_client :
    (f : Error → Error) (a : Result Bool) → unless_no_client f a ≡ ok false → IsGone a
IsGone-of_unless_no_client f (ok true) h = cc
IsGone-of_unless_no_client f (ok false) h = inl refl
IsGone-of_unless_no_client f (err e) h = inr (e, refl, ground arith)

-- With a Kyma in deletion, `if !deleting { return false, nil }` is passed.
past_guard :
    (d : Bool) (a : Result Bool)
    → d ≡ true
    → (if not d then ok false else a) ≡ ok false
    → a ≡ ok false
past_guard d a h g = ground arith

past_guards :
    (d s : Bool) (a : Result Bool)
    → d ≡ true
    → s ≡ true
    → (if not d || not s then ok false else a) ≡ ok false
    → a ≡ ok false
past_guards d s a h k g = ground arith

marked_of : (d s : Bool) → d ≡ true → ◌≡◌ {A = Result Bool} (ok (d && not s)) (ok false) → s ≡ true
marked_of d s h g = ground arith

module _ {W : Type 0} (lib : ErrorLib) (r : Repos W) (kyma : Kyma) (w : W) where
  -- Nothing that belongs to the Kyma is left.
  pub record NothingLeft : Type 0 where
    pub no_live_manifest : r.exist_for_kyma_without_deletion_timestamp kyma.meta.name w ≡ ok false
    pub no_manifest : r.exist_for_kyma kyma.meta.name w ≡ ok false
    pub no_metrics : r.has_metrics kyma.meta.name w ≡ ok false
    pub no_certificate : r.certificate_exists (skr_certificate kyma.meta.name) w ≡ ok false
    pub no_secret : r.secret_exists (skr_certificate kyma.meta.name) w ≡ ok false
    pub webhook_gone : IsGone (r.resources_exist (get_namespaced_name kyma) w)
    pub template_crd_gone : IsGone (r.crd_exists module_template_crd (get_namespaced_name kyma) w)
    pub release_crd_gone :
        IsGone (r.crd_exists module_release_meta_crd (get_namespaced_name kyma) w)
    pub kyma_crd_gone : IsGone (r.crd_exists kyma_crd (get_namespaced_name kyma) w)
    pub skr_kyma_gone : IsGone (r.skr_kyma_exists (get_namespaced_name kyma) w)

  watcher_setup_named :
      (out : W × Option Error)
      → (delete_watcher_setup lib r kyma out).result.use_case
        ≡ some delete_watcher_certificate_setup
  unfolding delete_watcher_setup
  watcher_setup_named (v, none) = refl
  watcher_setup_named (v, some e) = refl

  watcher_setup_gone :
      watcher_setup_applicable lib r (skr_certificate kyma.meta.name) w ≡ ok false
      → (r.certificate_exists (skr_certificate kyma.meta.name) w ≡ ok false)
        × (r.secret_exists (skr_certificate kyma.meta.name) w ≡ ok false)
  unfolding watcher_setup_applicable
  watcher_setup_gone h = ground arith

  -- For a Kyma in deletion, a call of Delete on the composed service whose result names the use
  -- case DropKymaFinalizer is made in a world where, as the repositories report, no manifest of
  -- the Kyma exists, its metrics, its certificate and the certificate's secret are gone, and the
  -- webhook resources, the three CRDs and the Kyma of the SKR are gone or the SKR has no client.
  pub drop_finalizer_safe :
      is_deleting kyma.meta ≡ true
      → Drops (delete (deletion_steps (composed_steps lib r)) kyma w)
      → NothingLeft
  drop_finalizer_safe del d =
      let (a0, d0) = pass (set_kyma_status_deleting_use_case lib r) _ kyma w refl (λ e. cc) d in
      let (a1, d1) = pass (set_skr_kyma_state_deleting_use_case lib r) _ kyma w refl (λ e. cc) d0 in
      let (a2, d2) = pass (delete_manifests_use_case lib r) _ kyma w refl (λ e. cc) d1 in
      let (a3, d3) =
        pass (delete_watcher_certificate_setup_use_case lib r) _ kyma w (watcher_setup_named _)
          (λ e. cc) d2 in
      let (a4, d4) =
        pass (delete_skr_webhook_resources_use_case lib r) _ kyma w refl (λ e. cc) d3 in
      let (a5, d5) = pass (delete_skr_crd_use_case lib r _ _) _ kyma w refl (λ e. cc) d4 in
      let (a6, d6) = pass (delete_skr_crd_use_case lib r _ _) _ kyma w refl (λ e. cc) d5 in
      let (a7, d7) = pass (delete_skr_kyma_use_case lib r) _ kyma w refl (λ e. cc) d6 in
      let (a8, d8) = pass (delete_skr_crd_use_case lib r _ _) _ kyma w refl (λ e. cc) d7 in
      let (a9, d9) = pass (delete_metrics_use_case lib r) _ kyma w refl (λ e. cc) d8 in
      let (a10, d10) = pass (ensure_manifest_deletion_use_case lib r) _ kyma w refl (λ e. cc) d9 in
      let marked : kyma_in_state_deleting kyma ≡ true = marked_of _ _ del a0 in
      let watcher = watcher_setup_gone (past_guards _ _ _ del marked a3) in
      record {
        no_live_manifest = a2;
        no_manifest = a10;
        no_metrics = a9;
        no_certificate = watcher.0;
        no_secret = watcher.1;
        webhook_gone = IsGone-of_unless_no_client _ _ (past_guards _ _ _ del marked a4);
        template_crd_gone = IsGone-of_unless_no_client _ _ (past_guard _ _ del a5);
        release_crd_gone = IsGone-of_unless_no_client _ _ (past_guard _ _ del a6);
        kyma_crd_gone = IsGone-of_unless_no_client _ _ (past_guard _ _ del a8);
        skr_kyma_gone = IsGone-of_unless_no_client _ _ (past_guard _ _ del a7);
      }
