-- ===== src/Kymas/Quiet.antt =====
-- The steps of handleDeletingState before the cleanup, which do not update the Kyma.
use lifecycle_manager.Prelude.{
  String, ◌≡◌, refl, ◌∙◌, Bool, true, false, List, [], ◌∷◌, if◌then◌else◌, arith,
}
use lifecycle_manager.Errors.{Error, Result, ok, err}
use lifecycle_manager.Api.{Kyma}
use lifecycle_manager.Manifests.{unexpected_requeue}
use lifecycle_manager.Kymas.Env.{
  KymaEnv, KymaCall, KymaRequeueReason, update_kyma, KymaCalls, KymaSt, K, ◌>>◌, pure, throw, catch,
  wrap_error, when, call, note, record_requeue_reason, remove_webhook, delete_module_catalog,
  get_skr_context, invalidate_cache, remove_remote_finalizers, remote_module_catalog_deletion,
  finalizers_removal_from_remote_kyma,
}
use lifecycle_manager.Kymas.Status.{
  update_status_for_existing_modules, status_with_error, update_status_with_error,
}
use lifecycle_manager.Kymas.Processing.{reason}
use lifecycle_manager.Kymas.Deleting.{
  ignoring_not_found, delete_catalog_step, context_step, remote_finalizers_step,
}
use lifecycle_manager.Kymas.Aggregated.{status_with_error_outcome}
use lifecycle_manager.Kymas.Triples.{
  On, Outcome, Triple, pushed, Triple-bind, Triple-catch, Triple-wrap, Triple-weaken, Triple-when,
  Triple-call, Triple-note,
}

-- The Kymas written by Update, which is what changes the spec and the metadata. Patches of the
-- status do not count.
abbrev pub updates : KymaCalls → List Kyma
updates [] = []
updates (update_kyma kyma ∷ calls) = kyma ∷ updates calls
updates (_ ∷ calls) = updates calls

-- The Kyma has been updated as often as before, and with that, it has this name.
abbrev pub NotUpdated : List Kyma → On
NotUpdated ws s = updates s.calls ≡ ws

abbrev pub Same : String → List Kyma → On
Same name ws s = NotUpdated ws s × (s.kyma.meta.name ≡ name)

module _ (env : KymaEnv) where
  status_updates :
      (e : Error) (s : KymaSt)
      → updates (update_status_with_error env {A = Unit {0}} e s).0.calls ≡ updates s.calls
  unfolding update_status_with_error status_with_error update_status_for_existing_modules
  status_updates e s = ground arith

  abbrev pub before_cleanup : K (Unit {0})
  before_cleanup =
      when env.watcher_enabled (call env remove_webhook)
      >> delete_catalog_step env
      >> context_step env
      >> note env invalidate_cache
      >> remote_finalizers_step env

  module _ (name : String) (ws : List Kyma) where
    -- A step that does not update the Kyma and keeps its name.
    abbrev Quiet : K (Unit {0}) → Type 0
    Quiet step = Triple (Same name ws) step (λ u. Same name ws) (NotUpdated ws)

    then_quiet : (a b : K (Unit {0})) → Quiet a → Quiet b → Quiet (a >> b)
    then_quiet a b h g =
        Triple-bind (Same name ws) (λ u. Same name ws) (λ u. Same name ws) (NotUpdated ws) a
          (λ u. b) h (λ u. g)

    error_outcome :
        (p : KymaSt × Result (Unit {0}))
        → Outcome {A = Unit {0}} (λ u t. ⊥) (λ t. Unit {0}) p
        → updates p.0.calls ≡ ws
        → Outcome {A = Unit {0}} (λ u. Same name ws) (NotUpdated ws) p
    error_outcome (t, ok u) h w = absurd h
    error_outcome (t, err e) h w = w

    reported_quiet :
        (step : K (Unit {0})) (reported : KymaRequeueReason)
        → Triple (Same name ws) step (λ u. Same name ws) (Same name ws)
        → Quiet (
            catch step
              (λ e. reason env reported unexpected_requeue >> update_status_with_error env e))
    reported_quiet step reported h =
        Triple-catch (Same name ws) (λ u. Same name ws) (Same name ws) (NotUpdated ws) step
          (λ e. reason env reported unexpected_requeue >> update_status_with_error env e) h
          (λ e s p.
            let t = pushed (record_requeue_reason reported unexpected_requeue) s in
            error_outcome (update_status_with_error env e t)
              (status_with_error_outcome env (λ u x. ⊥) e t) (status_updates e t ∙ p.0))

    call-same :
        (c : KymaCall)
        → ((s : KymaSt) → updates (c ∷ s.calls) ≡ updates s.calls)
        → Triple (Same name ws) (call env c) (λ u. Same name ws) (Same name ws)
    call-same c h =
        Triple-call env (Same name ws) (Same name ws) (Same name ws) c (λ s p. (h s ∙ p.0, p.1))
          (λ s p. (h s ∙ p.0, p.1))

    quiet_of :
        (m : K (Unit {0})) → Triple (Same name ws) m (λ u. Same name ws) (Same name ws) → Quiet m
    quiet_of m h =
        Triple-weaken (Same name ws) (λ u. Same name ws) (λ u. Same name ws) (Same name ws)
          (NotUpdated ws) m (λ a s p. p) (λ s p. p.0) h

    ignored_same :
        Triple
          (Same name ws)
          (ignoring_not_found env (call env remove_remote_finalizers))
          (λ u. Same name ws)
          (Same name ws)
    ignored_same =
        Triple-catch (Same name ws) (λ u. Same name ws) (Same name ws) (Same name ws)
          (call env remove_remote_finalizers)
          (λ e. if env.errors.is_api_not_found e then pure tt else throw e)
          (call-same remove_remote_finalizers (λ s. refl))
          (λ e s p. ignored (env.errors.is_api_not_found e) e s p)
      where
        ignored :
            (b : Bool) (e : Error) (s : KymaSt)
            → Same name ws s
            → Outcome {A = Unit {0}}
                (λ u. Same name ws)
                (Same name ws)
                ((if b then pure tt else throw e) s)
        ignored true e s p = p
        ignored false e s p = p

    catalog_quiet : Quiet (delete_catalog_step env)
    unfolding delete_catalog_step
    catalog_quiet =
        reported_quiet
          (wrap_error "failed to delete remote module catalog" (call env delete_module_catalog))
          remote_module_catalog_deletion
          (Triple-wrap (Same name ws) (λ u. Same name ws) (Same name ws)
            "failed to delete remote module catalog" (call env delete_module_catalog)
            (call-same delete_module_catalog (λ s. refl)))

    context_quiet : Quiet (context_step env)
    unfolding context_step
    context_quiet = quiet_of (wrap_error "failed to get skrContext" (call env get_skr_context)) (
        Triple-wrap (Same name ws) (λ u. Same name ws) (Same name ws) "failed to get skrContext"
          (call env get_skr_context) (call-same get_skr_context (λ s. refl)))

    finalizers_quiet : Quiet (remote_finalizers_step env)
    unfolding remote_finalizers_step
    finalizers_quiet =
        reported_quiet (ignoring_not_found env (call env remove_remote_finalizers))
          finalizers_removal_from_remote_kyma ignored_same

    webhook_quiet : Quiet (when env.watcher_enabled (call env remove_webhook))
    webhook_quiet =
        Triple-when (Same name ws) (NotUpdated ws) env.watcher_enabled (call env remove_webhook)
          (quiet_of (call env remove_webhook) (call-same remove_webhook (λ s. refl)))

    pub before_quiet : Triple (Same name ws) before_cleanup (λ u. Same name ws) (NotUpdated ws)
    before_quiet =
        let w = when env.watcher_enabled (call env remove_webhook) in
        let two = then_quiet w (delete_catalog_step env) webhook_quiet catalog_quiet in
        let three =
          then_quiet (w >> delete_catalog_step env) (context_step env) two context_quiet in
        let four =
          then_quiet (w >> delete_catalog_step env >> context_step env) (note env invalidate_cache)
            three
            (Triple-note env (Same name ws) (Same name ws) (NotUpdated ws) invalidate_cache
              (λ s p. p)) in
        then_quiet (w >> delete_catalog_step env >> context_step env >> note env invalidate_cache)
          (remote_finalizers_step env) four finalizers_quiet
