-- ===== src/Deletion/Convergence.antt =====
-- The composed service and the machine of View, over repositories that behave as the API servers
-- document, with what the other controllers do before the next reconciliation.
use lifecycle_manager.Prelude.{
  ◌≡◌, refl, ap, ◌∙◌, Bool, true, false, not, ◌&&◌, ◌||◌, List, [], ◌∷◌, Option, none, some, arith,
  if◌then◌else◌,
}
use lifecycle_manager.Errors.{Error, Result, ok, err, ErrorLib, is_not_found}
use lifecycle_manager.Api.{Kyma, State, is_deleting, state_eq, deleting, kyma_finalizer}
use lifecycle_manager.Deletion.Defs.{
  Outcome, UseCase, visit, delete, deletion_steps, delete_skr_module_template_crd,
  delete_skr_module_release_meta_crd, delete_skr_kyma_crd,
}
use lifecycle_manager.Deletion.UseCases.{
  get_namespaced_name, module_template_crd, module_release_meta_crd, kyma_crd, Repos,
  skr_certificate, kyma_in_state_deleting, unless_no_client, watcher_setup_applicable,
  skr_state_applicable, delete_watcher_setup, composed_steps, set_kyma_status_deleting_use_case,
  set_skr_kyma_state_deleting_use_case, delete_manifests_use_case,
  delete_watcher_certificate_setup_use_case, delete_skr_webhook_resources_use_case,
  delete_skr_crd_use_case, delete_skr_kyma_use_case, delete_metrics_use_case,
  ensure_manifest_deletion_use_case, drop_kyma_finalizer_use_case,
}
use lifecycle_manager.Deletion.View.{View, advance, advance_skr, collect}

-- What the SKR says of the state of its Kyma: not found, or a state.
abbrev pub ReadsState : ErrorLib → Bool → Result State → Type 0
ReadsState lib unmarked (ok s) = not (state_eq s deleting) ≡ unmarked
ReadsState lib unmarked (err e) = (is_not_found lib (some e) ≡ true) × (unmarked ≡ false)

module _ {W : Type 0} (lib : ErrorLib) (r : Repos W) (view : W → View) (others : W → W) where
  -- The world that the next reconciliation finds.
  abbrev seen : W → View
  seen w = view (others w)

  -- In the world `w`, the repositories answer about the Kyma `k`, and no call fails. `others` is
  -- what the API servers and the other controllers do until the next reconciliation: they complete
  -- the deletion that was asked for, which a finalizer may have held up, and that of the manifests.
  -- With the CRD of the Kyma its instance in the SKR is deleted.
  pub record Behaves (k : Kyma) (w : W) : Type 0 where
    pub marked : is_deleting k.meta ≡ (view w).marked
    pub deleting : kyma_in_state_deleting k ≡ (view w).deleting
    pub finalizer : r.contains_finalizer k.meta kyma_finalizer ≡ (view w).finalizer
    pub unmarked : ReadsState lib (view w).unmarked (r.skr_kyma_state (get_namespaced_name k) w)
    pub live : r.exist_for_kyma_without_deletion_timestamp k.meta.name w ≡ ok (view w).live
    pub manifests : r.exist_for_kyma k.meta.name w ≡ ok (view w).manifests
    pub certificate : r.certificate_exists (skr_certificate k.meta.name) w ≡ ok (view w).certificate
    pub secret : r.secret_exists (skr_certificate k.meta.name) w ≡ ok (view w).secret
    pub webhook : r.resources_exist (get_namespaced_name k) w ≡ ok (view w).webhook
    pub template_crd :
        r.crd_exists module_template_crd (get_namespaced_name k) w ≡ ok (view w).template_crd
    pub release_crd :
        r.crd_exists module_release_meta_crd (get_namespaced_name k) w ≡ ok (view w).release_crd
    pub skr_kyma : r.skr_kyma_exists (get_namespaced_name k) w ≡ ok (view w).skr_kyma
    pub definition : r.crd_exists kyma_crd (get_namespaced_name k) w ≡ ok (view w).kyma_crd
    pub metrics : r.has_metrics k.meta.name w ≡ ok (view w).metrics
    pub rests : seen w ≡ collect (view w)
    pub sets_deleting :
        seen (r.update_status_deleting k w).1 ≡ collect (record (view w) { deleting = true })
    pub marks :
        seen (r.set_state_deleting (get_namespaced_name k) w).0
        ≡ collect (record (view w) { unmarked = false })
    pub deletes_manifests :
        seen (r.delete_all_for_kyma k.meta.name w).0 ≡ collect (record (view w) { live = false })
    pub deletes_certificate : (r.certificate_delete (skr_certificate k.meta.name) w).1 ≡ none
    pub deletes_secret :
        seen
          (r.secret_delete
            (skr_certificate k.meta.name)
            (r.certificate_delete (skr_certificate k.meta.name) w).0).0
        ≡ collect (record (view w) { certificate = false; secret = false })
    pub deletes_webhook :
        seen (r.delete_webhook_resources (get_namespaced_name k) w).0
        ≡ collect (record (view w) { webhook = false })
    pub deletes_template_crd :
        seen (r.crd_delete module_template_crd (get_namespaced_name k) w).0
        ≡ collect (record (view w) { template_crd = false })
    pub deletes_release_crd :
        seen (r.crd_delete module_release_meta_crd (get_namespaced_name k) w).0
        ≡ collect (record (view w) { release_crd = false })
    pub deletes_skr_kyma :
        seen (r.skr_kyma_delete (get_namespaced_name k) w).0
        ≡ collect (record (view w) { skr_kyma = false; unmarked = false })
    pub deletes_definition :
        seen (r.crd_delete kyma_crd (get_namespaced_name k) w).0
        ≡ collect (record (view w) { kyma_crd = false; skr_kyma = false; unmarked = false })
    pub cleans_metrics :
        seen (r.cleanup_metrics k.meta.name w) ≡ collect (record (view w) { metrics = false })
    pub drops :
        seen (r.drop_finalizer k.meta.name kyma_finalizer w).0
        ≡ collect (record (view w) { finalizer = false })

view_visit :
    {W : Type 0} (seen : W → View) (u : UseCase W) (k : Kyma) (w : W) (rest : Outcome W) (b : Bool)
    (now later : View)
    → u.is_applicable k w ≡ ok b
    → seen (u.execute k w).world ≡ collect now
    → seen rest.world ≡ collect later
    → seen (visit u k w rest).world ≡ collect (if b then now else later)
unfolding visit
view_visit seen u k w rest true now later a e l = rw (a, visit) e
view_visit seen u k w rest false now later a e l = rw (a, visit) l

both :
    (d d' s s' : Bool)
    → d ≡ d'
    → s ≡ s'
    → ◌≡◌ {A = Result Bool} (ok (d && not s)) (ok (d' && not s'))
both d d' s s' h k = ground arith

guarded :
    (d d' b : Bool) (a : Result Bool)
    → d ≡ d'
    → a ≡ ok b
    → (if not d then ok false else a) ≡ ok (d' && b)
guarded d d' b a h e = ground arith

guarded_twice :
    (d d' s s' b : Bool) (a : Result Bool)
    → d ≡ d'
    → s ≡ s'
    → a ≡ ok b
    → (if not d || not s then ok false else a) ≡ ok (d' && s' && b)
guarded_twice d d' s s' b a h k e = ground arith

module _ (lib : ErrorLib) where
  reads_applicable :
      {W : Type 0} (r : Repos W) (b : Bool) (a : Result State)
      → ReadsState lib b a
      → skr_state_applicable lib r a ≡ ok b
  unfolding skr_state_applicable
  reads_applicable r b (ok s) h = ap ok h
  reads_applicable r b (err e) h = ground arith

module _ {W : Type 0} (lib : ErrorLib) (r : Repos W) (view : W → View) (others : W → W) {k : Kyma}
    {w : W} (h : Behaves lib r view others k w) where
  abbrev next_view : W → View
  next_view v = view (others v)

  watcher_setup :
      watcher_setup_applicable lib r (skr_certificate k.meta.name) w
      ≡ ok ((view w).certificate || (view w).secret)
  unfolding watcher_setup_applicable
  watcher_setup = ground (arith, h.certificate, h.secret)

  view_watcher_setup :
      (out : W × Option Error)
      → out.1 ≡ none
      → next_view (delete_watcher_setup lib r k out).world
        ≡ next_view (r.secret_delete (skr_certificate k.meta.name) out.0).0
  unfolding delete_watcher_setup
  view_watcher_setup (v, none) e = refl
  view_watcher_setup (v, some d) e = cc

  no_client :
      (a : Result Bool) (b : Bool) (f : Error → Error) → a ≡ ok b → unless_no_client f a ≡ ok b
  no_client a b f e = ground arith

  abbrev skr_steps : List (UseCase W)
  skr_steps =
      delete_skr_crd_use_case lib r module_template_crd delete_skr_module_template_crd
      ∷ delete_skr_crd_use_case lib r module_release_meta_crd delete_skr_module_release_meta_crd
      ∷ delete_skr_kyma_use_case lib r
      ∷ delete_skr_crd_use_case lib r kyma_crd delete_skr_kyma_crd
      ∷ delete_metrics_use_case lib r
      ∷ ensure_manifest_deletion_use_case lib r
      ∷ drop_kyma_finalizer_use_case lib r
      ∷ []

  skr_guarded :
      (a : Result Bool) (b : Bool)
      → a ≡ ok b
      → (if not (is_deleting k.meta) then ok false else unless_no_client (λ e. e) a)
        ≡ ok ((view w).marked && b)
  skr_guarded a b e = guarded _ _ _ _ h.marked (no_client a b (λ d. d) e)

  view-skr_steps : next_view (delete skr_steps k w).world ≡ collect (advance_skr (view w))
  unfolding delete advance_skr
  view-skr_steps =
      view_visit next_view (delete_skr_crd_use_case lib r _ _) k w _ _ _ _
        (skr_guarded _ _ h.template_crd) h.deletes_template_crd
        (view_visit next_view (delete_skr_crd_use_case lib r _ _) k w _ _ _ _
          (skr_guarded _ _ h.release_crd) h.deletes_release_crd
          (view_visit next_view (delete_skr_kyma_use_case lib r) k w _ _ _ _
            (skr_guarded _ _ h.skr_kyma) h.deletes_skr_kyma
            (view_visit next_view (delete_skr_crd_use_case lib r _ _) k w _ _ _ _
              (skr_guarded _ _ h.definition) h.deletes_definition
              (view_visit next_view (delete_metrics_use_case lib r) k w _ _ _ _ h.metrics
                h.cleans_metrics
                (view_visit next_view (ensure_manifest_deletion_use_case lib r) k w _ _ _ _
                  h.manifests h.rests
                  (view_visit next_view (drop_kyma_finalizer_use_case lib r) k w _ _ _ _
                    (ap ok h.finalizer) h.drops h.rests))))))

  -- Where no call of a repository fails, and where the API servers and the other controllers
  -- complete a deletion that was asked for until the next reconciliation, one call of Delete on the
  -- composed service and their work do to the world, as the repositories report it, what the abstract
  -- machine does, less the manifests in deletion.
  pub view-delete :
      view (others (delete (deletion_steps (composed_steps lib r)) k w).world)
      ≡ collect (advance (view w))
  unfolding delete advance
  view-delete =
      view_visit next_view (set_kyma_status_deleting_use_case lib r) k w _ _ _ _
        (both _ _ _ _ h.marked h.deleting) h.sets_deleting
        (view_visit next_view (set_skr_kyma_state_deleting_use_case lib r) k w _ _ _ _
          (guarded _ _ _ _ h.marked (reads_applicable lib r _ _ h.unmarked)) h.marks
          (view_visit next_view (delete_manifests_use_case lib r) k w _ _ _ _ h.live
            h.deletes_manifests
            (view_visit next_view (delete_watcher_certificate_setup_use_case lib r) k w _ _ _ _
              (guarded_twice _ _ _ _ _ _ h.marked h.deleting watcher_setup)
              (view_watcher_setup _ h.deletes_certificate ∙ h.deletes_secret)
              (view_visit next_view (delete_skr_webhook_resources_use_case lib r) k w _ _ _ _
                (guarded_twice _ _ _ _ _ _ h.marked h.deleting (no_client _ _ _ h.webhook))
                h.deletes_webhook view-skr_steps))))
