-- ===== src/Kymas/Untouched.antt =====
-- What the Kyma controller leaves alone.
use lifecycle_manager.Prelude.{
  ℕ, String, ◌≡◌, refl, ◌∙◌, subst, sym, List, [], ◌∷◌, if◌then◌else◌, arith,
}
use lifecycle_manager.Errors.{Error, sentinel, wrap, Result, ok, err, manifests_still_exist}
use lifecycle_manager.Api.{Kyma, Manifest}
use lifecycle_manager.Manifests.{unexpected_requeue}
use lifecycle_manager.Kymas.Env.{
  KymaEnv, KymaCalls, KymaSt, ◌>>◌, throw, wrap_error, delete_manifest_call,
  cleanup_manifest_crs_reason,
}
use lifecycle_manager.Kymas.Processing.{reason}
use lifecycle_manager.Kymas.Deleting.{
  delete_manifests, get_related_manifest_crs, delete_related, cleanup_manifest_crs, cleanup_step,
  drop_finalizer, handle_deleting_state,
}
use lifecycle_manager.Kymas.Triples.{
  Outcome, Triple, pushed, Triple-bind, Triple-catch, Triple-wrap,
}
use lifecycle_manager.Kymas.Quiet.{updates, NotUpdated, Same, before_cleanup, before_quiet}

module _ (env : KymaEnv) where
  delete_updates :
      (ms : List Manifest) (s : KymaSt)
      → updates (delete_manifests env ms s).0.calls ≡ updates s.calls
  unfolding delete_manifests
  delete_updates [] s = refl
  delete_updates (m ∷ ms) s =
      let ih = delete_updates ms (pushed (delete_manifest_call m) s) in ground (arith, ih)

  module _ (name : String) (m : Manifest) (ms : List Manifest) (ws : List Kyma) where
    -- The cleanup is asked for the manifests that are left, and there are some.
    abbrev Left : Type 0
    Left = (calls : KymaCalls) → env.list_manifests name calls ≡ ok (m ∷ ms)

    not_updated_outcome :
        {A : Type 0} (s : KymaSt) (p : KymaSt × Result A)
        → NotUpdated ws s
        → updates p.0.calls ≡ updates s.calls
        → Outcome (λ a. (NotUpdated ws)) (NotUpdated ws) p
    not_updated_outcome s (t, ok a) u h = h ∙ u
    not_updated_outcome s (t, err e) u h = h ∙ u

    related_fails : Triple (NotUpdated ws) (delete_related env (m ∷ ms)) (λ u s. ⊥) (NotUpdated ws)
    unfolding delete_related
    related_fails =
        Triple-bind (NotUpdated ws) (λ u. NotUpdated ws) (λ u s. ⊥) (NotUpdated ws)
          (wrap_error "error while trying to delete manifests" (delete_manifests env (m ∷ ms)))
          (λ u. throw (sentinel manifests_still_exist))
          (Triple-wrap (NotUpdated ws) (λ u. NotUpdated ws) (NotUpdated ws)
            "error while trying to delete manifests" (delete_manifests env (m ∷ ms))
            (λ s u.
              not_updated_outcome s (delete_manifests env (m ∷ ms) s) u
                (delete_updates (m ∷ ms) s)))
          (λ u s i. i)

    related_listed :
        Left
        → Triple
            (Same name ws)
            (get_related_manifest_crs env)
            (λ found s. (NotUpdated ws) s × (found ≡ (m ∷ ms)))
            (NotUpdated ws)
    unfolding get_related_manifest_crs
    related_listed left s (u, n) =
        go (env.list_manifests s.kyma.meta.name s.calls)
          (subst (λ k. env.list_manifests k s.calls ≡ ok (m ∷ ms)) (sym n) (left s.calls))
      where
        go :
            (r : Result (List Manifest))
            → r ≡ ok (m ∷ ms)
            → Outcome {A = List Manifest}
                (λ found t. (NotUpdated ws) t × (found ≡ (m ∷ ms)))
                (NotUpdated ws)
                (elim r [
                  | ok found ↦ (s, ok found)
                  | err e ↦
                      if env.errors.is_api_not_found e
                      then (s, ok [])
                      else (s, err (wrap "failed to get related manifests" e))
                ])
        go (ok found) e = (u, ground (arith, e))
        go (err x) e = absurd (ground (arith, e))

    -- While a manifest of the Kyma is left, the cleanup fails.
    cleanup_fails :
        Left → Triple (Same name ws) (cleanup_manifest_crs env) (λ u s. ⊥) (NotUpdated ws)
    unfolding cleanup_manifest_crs
    cleanup_fails left =
        Triple-bind (Same name ws) (λ found s. (NotUpdated ws) s × (found ≡ (m ∷ ms))) (λ u s. ⊥)
          (NotUpdated ws)
          (wrap_error "error while trying to get manifests" (get_related_manifest_crs env))
          (delete_related env)
          (Triple-wrap (Same name ws) (λ found s. (NotUpdated ws) s × (found ≡ (m ∷ ms)))
            (NotUpdated ws) "error while trying to get manifests" (get_related_manifest_crs env)
            (related_listed left))
          (λ found s p.
            subst (λ f. Outcome (λ u t. ⊥) (NotUpdated ws) (delete_related env f s)) (sym p.1)
              (related_fails s p.0))

    step_fails : Left → Triple (Same name ws) (cleanup_step env) (λ u s. ⊥) (NotUpdated ws)
    unfolding cleanup_step
    step_fails left =
        Triple-catch (Same name ws) (λ u t. ⊥) (NotUpdated ws) (NotUpdated ws)
          (cleanup_manifest_crs env)
          (λ e. reason env cleanup_manifest_crs_reason unexpected_requeue >> throw e)
          (cleanup_fails left) (λ e t u. u)

    handle_fails :
        Left → Triple (Same name ws) (handle_deleting_state env) (λ d s. ⊥) (NotUpdated ws)
    unfolding handle_deleting_state
    handle_fails left =
        Triple-bind (Same name ws) (λ u s. ⊥) (λ d s. ⊥) (NotUpdated ws)
          (before_cleanup env >> cleanup_step env) (λ u. drop_finalizer env)
          (Triple-bind (Same name ws) (λ u. Same name ws) (λ u s. ⊥) (NotUpdated ws)
            (before_cleanup env) (λ u. cleanup_step env) (before_quiet env name ws)
            (λ u. step_fails left))
          (λ u s never. absurd never)

  failed_outcome :
      (ws : List Kyma) (p : KymaSt × Result ℕ)
      → Outcome {A = ℕ} (λ d s. ⊥) (λ s. updates s.calls ≡ ws) p
      → ((e : Error) × (p.1 ≡ err e)) × (updates p.0.calls ≡ ws)
  failed_outcome ws (s, ok d) h = absurd h
  failed_outcome ws (s, err e) h = ((e, refl), h)

  -- While the control plane lists a manifest of the Kyma, handleDeletingState fails without an
  -- update of the Kyma, whatever the calls answer: its finalizer, which an update would remove,
  -- stays. A step that fails before may patch the status.
  pub handle_deleting_state_keeps :
      (s : KymaSt) (m : Manifest) (ms : List Manifest)
      → ((calls : KymaCalls) → env.list_manifests s.kyma.meta.name calls ≡ ok (m ∷ ms))
      → ((e : Error) × ((handle_deleting_state env s).1 ≡ err e))
        × (updates (handle_deleting_state env s).0.calls ≡ updates s.calls)
  handle_deleting_state_keeps s m ms left =
      failed_outcome (updates s.calls) (handle_deleting_state env s)
        (handle_fails s.kyma.meta.name m ms (updates s.calls) left s (refl, refl))
