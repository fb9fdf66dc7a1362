-- ===== src/Manifests/Guards.antt =====
-- What the manifest controller does before it deletes or applies resources.
use lifecycle_manager.Prelude.{
  ◌≡◌, refl, sym, ap, ◌∙◌, ◌≢◌, Bool, true, false, List, [], ◌∷◌, Option, none, some, arith,
}
use lifecycle_manager.Errors.{Error, sentinel, resource_sync_diff_in_same_oci_layer}
use lifecycle_manager.Api.{Resource, Manifest, Status, is_deleting, is_unmanaged}
use lifecycle_manager.Manifests.Status.{
  initialize, initialize_status_conditions, finalizers_update_required,
}
use lifecycle_manager.Manifests.Env
use lifecycle_manager.Manifests.Env.{Call, Calls, St, Step, next, stop, M, ◌>>=◌, ◌>>◌, pure, Spec}
use lifecycle_manager.Manifests.Endings.{
  get_target_client, finish_reconcile, ssa_spec, evict_skr_client_cache,
}
use lifecycle_manager.Manifests.Steps.{
  prune_diff, diff_of, oci_ref_not_changed, detect_orphaned_manifest, handle_unmanaged_manifest,
  record_mandatory_module_state,
}
use lifecycle_manager.Manifests.Quiet.{Quiet, quiet_bind, bind_stop}
use lifecycle_manager.Manifests.Install.{
  begin, handle_orphaned, add_finalizers, prepare_reconcile, install, after_detection,
  after_unmanaged, after_client, resolve_and_track_spec, render_resources_for_install,
  install_resources,
}

-- The resources asked to be deleted, and the lists of resources applied, the last first.
abbrev pub deleted : Calls → List Resource
deleted [] = []
deleted (Env.delete_resource r ∷ cs) = r ∷ deleted cs
deleted (c ∷ cs) = deleted cs

abbrev pub applied : Calls → List (List Resource)
applied [] = []
applied (Env.apply_resources rs ∷ cs) = rs ∷ applied cs
applied (c ∷ cs) = applied cs

module _ (env : Env.Env) where
  -- Where the Manifest is not being deleted and its annotation has the OCI ref of the spec,
  -- pruneDiff deletes no resource, and it ends in an error just if it finds one to delete.
  pub prune_diff_same_layer :
      (current target : List Resource) (spec : Spec) (s : St)
      → is_deleting s.manifest.meta ≡ false
      → oci_ref_not_changed s.manifest spec.oci_ref ≡ true
      → (deleted (prune_diff env current target spec s).0.calls ≡ deleted s.calls)
        × ((prune_diff env current target spec s).1
            ≡ next (elim (diff_of current target) [
              | [] ↦ none
              | r ∷ rs ↦ some (sentinel resource_sync_diff_in_same_oci_layer)
            ]))
  unfolding prune_diff
  prune_diff_same_layer current target spec s d o = ground (arith, d, o)

  -- The Manifest has a state, is managed and, with its status initialized, needs no finalizer of
  -- the controller; after `calls`, it was not found to be an orphan.
  pub record Prepared (m : Manifest) : Type 0 where
    pub calls : Calls
    pub has_state : (initialize env.lib m).1 ≡ none
    pub managed : is_unmanaged m ≡ false
    pub owned : detect_orphaned_manifest env (initialize env.lib m).0 calls ≡ none
    pub guarded : (finalizers_update_required env.lib (initialize env.lib m).0).1 ≡ false

  -- The Manifest is that of the start with its status initialized.
  abbrev Begun : Manifest → St → Type 0
  Begun m t = (t.manifest ≡ (initialize env.lib m).0) × ((initialize env.lib m).1 ≡ none)

  finish_quiet :
      {A : Type 0} (P : A → St → Type 0) (reason : Env.RequeueReason) (previous : Status)
      (e : Option Error) (s : St)
      → Quiet applied P (finish_reconcile env reason previous e) s
  unfolding finish_reconcile evict_skr_client_cache
  finish_quiet P reason previous e s = (ground arith, λ a h. ground (arith, h))

  begin_quiet :
      (previous : Status) (s : St)
      → Quiet applied (λ _ t. Begun s.manifest t) (begin env previous) s
  unfolding begin finish_reconcile evict_skr_client_cache record_mandatory_module_state
  begin_quiet previous s = (ground arith, λ a h. ground (arith, h))

  client_quiet :
      (m : Manifest) (s : St)
      → Begun m s
      → Quiet applied (λ _ t. Begun m t) (get_target_client env) s
  unfolding get_target_client
  client_quiet m s b = (ground arith, λ a h. ground (arith, h, b.0, b.1))

  initialize_annotations : (m : Manifest) → is_unmanaged (initialize env.lib m).0 ≡ is_unmanaged m
  unfolding initialize initialize_status_conditions
  initialize_annotations m = ground arith

  orphaned_quiet :
      (P : Unit {0} → St → Type 0) (e : Error) (s : St) → Quiet applied P (handle_orphaned env e) s
  unfolding handle_orphaned finish_reconcile evict_skr_client_cache
  orphaned_quiet P e s = (ground arith, λ a h. ground (arith, h))

  unmanaged_quiet :
      (P : Unit {0} → St → Type 0) (s : St)
      → Quiet applied P (handle_unmanaged_manifest env {A = Unit {0}}) s
  unfolding handle_unmanaged_manifest
  unmanaged_quiet P s = (ground arith, λ a h. ground (arith, h))

  finalizers_quiet :
      (s : St)
      → Quiet applied
          (λ _ t. (finalizers_update_required env.lib s.manifest).1 ≡ false)
          (add_finalizers env)
          s
  unfolding add_finalizers ssa_spec
  finalizers_quiet s = (ground arith, λ a h. ground (arith, h))

  detection_quiet :
      (m : Manifest) (t : St) (orphaned : Option Error)
      → Begun m t
      → is_unmanaged t.manifest ≡ false
      → detect_orphaned_manifest env t.manifest t.calls ≡ orphaned
      → Quiet applied (λ _ _. Prepared m) (after_detection env orphaned) t
  detection_quiet m t (some e) b managed orphaned = orphaned_quiet (λ _ _. Prepared m) e t
  detection_quiet m t none b managed owned =
      let q = finalizers_quiet t in
      (
        q.0,
        λ a h. record {
          calls = t.calls;
          has_state = b.1;
          managed = sym (initialize_annotations m) ∙ sym (ap is_unmanaged b.0) ∙ managed;
          owned = sym (ap (λ n. detect_orphaned_manifest env n t.calls) b.0) ∙ owned;
          guarded = sym (ap (λ n. (finalizers_update_required env.lib n).1) b.0) ∙ q.1 a h;
        },
      )

  managed_quiet :
      (m : Manifest) (t : St) (u : Bool)
      → Begun m t
      → is_unmanaged t.manifest ≡ u
      → Quiet applied (λ _ _. Prepared m) (after_unmanaged env u) t
  managed_quiet m t true b e = unmanaged_quiet (λ _ _. Prepared m) t
  managed_quiet m t false b e = detection_quiet m t _ b e refl

  checks_quiet :
      (m : Manifest) (previous : Status) (client : Option Error) (t : St)
      → Begun m t
      → Quiet applied (λ _ _. Prepared m) (after_client env previous client) t
  checks_quiet m previous (some e) t b = finish_quiet (λ _ _. Prepared m) _ _ _ _
  checks_quiet m previous none t b = managed_quiet m t _ b refl

  prepare_quiet :
      (previous : Status) (s : St)
      → Quiet applied (λ _ _. Prepared s.manifest) (prepare_reconcile env previous) s
  unfolding prepare_reconcile
  prepare_quiet previous s =
      quiet_bind applied (λ _ t. Begun s.manifest t) (λ _ _. Prepared s.manifest)
        (begin env previous >> get_target_client env) (after_client env previous) s
        (quiet_bind applied (λ _ t. Begun s.manifest t) (λ _ t. Begun s.manifest t)
          (begin env previous) (λ _. get_target_client env) s (begin_quiet previous s)
          (λ a t b. client_quiet s.manifest t b))
        (λ client t b. checks_quiet s.manifest previous client t b)

  install_begins :
      (s : St) (x : St × Step (Unit {0}))
      → prepare_reconcile env s.manifest.status s ≡ x
      → applied (install env s).0.calls ≢ applied s.calls
      → Prepared s.manifest
  unfolding install
  install_begins s (t, next a) e h = (prepare_quiet s.manifest.status s).1 a (ap (λ p. p.1) e)
  install_begins s (t, stop r) e h =
      let stopped =
        bind_stop
          (prepare_reconcile env s.manifest.status >> resolve_and_track_spec env s.manifest.status)
          (λ spec. render_resources_for_install env s.manifest.status spec >>= λ rendered.
            install_resources env s.manifest.status spec rendered.0 rendered.1)
          s t r
          (bind_stop (prepare_reconcile env s.manifest.status)
            (λ _. resolve_and_track_spec env s.manifest.status) s t r e) in
      absurd
        (h (ap (λ p. applied p.0.calls) (stopped ∙ sym e) ∙ (prepare_quiet s.manifest.status s).0))

  -- If install applies resources to the SKR, the Manifest has a state, is managed, was not found to
  -- be an orphan, and AddFinalizer had neither finalizer of the controller to add to it.
  pub install_applies-Prepared :
      (s : St) → applied (install env s).0.calls ≢ applied s.calls → Prepared s.manifest
  install_applies-Prepared s h = install_begins s _ refl h
