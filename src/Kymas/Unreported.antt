-- ===== src/Kymas/Unreported.antt =====
-- Which failures of a reconciliation the status of the Kyma shows.
use lifecycle_manager.Prelude.{
  ℕ, String, ◌≡◌, refl, sym, subst, ap, ◌∙◌, Bool, true, false, none, if◌then◌else◌, arith,
}
use lifecycle_manager.Errors.{Error, wrap, sentinel, Result, ok, err, kyma_in_error_state}
use lifecycle_manager.Api.{
  Kyma, State, ready, processing, error, deleting, warning, unmanaged, unset, state_eq,
  determine_state,
}
use lifecycle_manager.Manifests.{determine_requeue_interval, unexpected_requeue, intended_requeue}
use lifecycle_manager.Kymas.Env.{
  KymaEnv, KymaCalls, KymaSt, K, ◌>>◌, pure, throw, catch, ask, note, patch_status,
  record_requeue_reason, tasks_of, warning_event, patch_status_error, initial_state_handling,
  processing_kyma_state, spec_replacement_from_remote, status_sync_to_remote,
}
use lifecycle_manager.Kymas.Status.{
  with_status, update_status_for_existing_modules, update_status, update_status_with_error,
}
use lifecycle_manager.Kymas.Processing.{
  reason, run_group, finish_processing, handle_processing_state, handle_initial_state,
}
use lifecycle_manager.Kymas.Deleting.{handle_deleting_state}
use lifecycle_manager.Kymas.Remote.{replace_spec_from_remote, sync_status_to_remote}
use lifecycle_manager.Kymas.Reconcile.{
  process_kyma_state, reported, sync_crds_step, sync_pull_secret_step, spec_step, processing_step,
  status_step, end_by_state, after_processing, reconcile_prepared,
}
use lifecycle_manager.Kymas.Aggregated.{updated_by, helper_by}
use lifecycle_manager.Kymas.Triples.{Outcome, Triple, pushed, Triple-bind, Triple-catch}
use lifecycle_manager.Kymas.Shown.{
  Shown, Any, any_outcome, Alive, with_error_Shown, reported_Alive, crds_Alive, secret_Alive,
  replaced_Alive,
}

module _ (env : KymaEnv) where
  -- A patch of the status that never fails.
  abbrev pub Patches : Type 0
  Patches = (kyma : Kyma) (calls : KymaCalls) → env.answer (patch_status kyma) calls ≡ none

  module _ (patches : Patches) where
    update_never_fails :
        (state : State) (message : String) (s : KymaSt)
        → Outcome (λ u. Any) (λ t. ⊥) (update_status env state message s)
    unfolding update_status
    update_never_fails state message s =
        let kyma = with_status state message s.kyma in
        let done : update_status_for_existing_modules env state message s
            ≡ updated_by env state message s none =
          helper_by env state message s
          ∙ ap (updated_by env state message s) (patches kyma s.calls) in
        subst
          (λ p.
            Outcome {A = Unit {0}} (λ u. Any) (λ t. ⊥)
              (elim p.1 [
                | ok a ↦ (p.0, ok a)
                | err e ↦
                    (note env (warning_event patch_status_error e)
                        >> throw (wrap "error while updating status" e))
                      p.0
              ]))
          (sym done) tt

    finish_never_fails : Triple Any (finish_processing env) (λ d. Any) Shown
    unfolding finish_processing
    finish_never_fails s p =
        go (update_status env state message s) (update_never_fails state message s)
      where
        state : State
        state = determine_state s.kyma.status

        message : String
        message =
            if state_eq state ready
            then "kyma is ready"
            else "waiting for all modules to become ready"

        go :
            (q : KymaSt × Result (Unit {0}))
            → Outcome {A = Unit {0}} (λ u. Any) (λ t. ⊥) q
            → Outcome {A = ℕ}
                (λ d. Any)
                Shown
                (elim q.1 [
                  | ok a ↦ (q.0, ok (determine_requeue_interval state env.intervals))
                  | err e ↦ (q.0, err e)
                ])
        go (t, ok a) h = tt
        go (t, err e) h = absurd h

    initial_never_fails : Triple Any (handle_initial_state env) (λ d. Any) Shown
    unfolding handle_initial_state
    initial_never_fails =
        Triple-bind Any (λ u. Any) (λ d. Any) Shown
          (catch (update_status env processing "started processing")
            (λ e. reason env initial_state_handling unexpected_requeue >> throw e))
          (λ u.
            reason env initial_state_handling intended_requeue
            >> ask (λ s. ok (env.rate_limiter s.calls)))
          (Triple-catch Any (λ u. Any) (λ t. ⊥) Shown
            (update_status env processing "started processing")
            (λ e. reason env initial_state_handling unexpected_requeue >> throw e)
            (λ s p. update_never_fails processing "started processing" s)
            (λ e s never. absurd never))
          (λ u s p. tt)

    handle_Shown : Triple Any (handle_processing_state env) (λ d. Any) Shown
    unfolding handle_processing_state
    handle_Shown =
        Triple-bind Any (λ u. Any) (λ d. Any) Shown
          (catch (run_group env (tasks_of env.order)) (λ e. update_status_with_error env e))
          (λ u. finish_processing env)
          (Triple-catch Any (λ u. Any) Any Shown (run_group env (tasks_of env.order))
            (λ e. update_status_with_error env e)
            (λ s p. any_outcome (run_group env (tasks_of env.order) s))
            (λ e. with_error_Shown env Any (λ u. Any) e))
          (λ u. finish_never_fails)

    state_Shown : Triple Alive (process_kyma_state env) (λ d. Any) Shown
    unfolding process_kyma_state
    state_Shown s alive = go s.kyma.status.state alive
      where
        go :
            (state : State)
            → state_eq state deleting ≡ false
            → Outcome {A = ℕ}
                (λ d. Any)
                Shown
                ((elim state as (λ x. K ℕ) [
                  | unset ↦ handle_initial_state env
                  | processing ↦ handle_processing_state env
                  | deleting ↦ handle_deleting_state env
                  | error ↦ handle_processing_state env
                  | ready ↦ handle_processing_state env
                  | warning ↦ handle_processing_state env
                  | unmanaged ↦ pure 0
                ])
                  s)
        go unset h = initial_never_fails s tt
        go processing h = handle_Shown s tt
        go deleting h = absurd (ground (arith, h))
        go error h = handle_Shown s tt
        go ready h = handle_Shown s tt
        go warning h = handle_Shown s tt
        go unmanaged h = tt

    processing_Shown : Triple Alive (processing_step env) (λ d. Any) Shown
    unfolding processing_step
    processing_Shown =
        Triple-catch Alive (λ d. Any) Shown Shown (process_kyma_state env)
          (λ e. reason env processing_kyma_state unexpected_requeue >> throw e) state_Shown
          (λ e s p. p)

    spec_Alive : Triple Alive (spec_step env) (λ u. Alive) Shown
    unfolding spec_step
    spec_Alive =
        reported_Alive env spec_replacement_from_remote
          "could not replace control plane kyma spec with remote kyma spec"
          (replace_spec_from_remote env) (replaced_Alive env)

    end_Shown : (interval : ℕ) → Triple Any (end_by_state env interval) (λ d. Any) Shown
    end_Shown interval s p = go (state_eq s.kyma.status.state error) refl
      where
        go :
            (b : Bool)
            → state_eq s.kyma.status.state error ≡ b
            → Outcome {A = ℕ}
                (λ d. Any)
                Shown
                (if b then (s, err (sentinel kyma_in_error_state)) else (s, ok interval))
        go true h = ground (arith, h)
        go false h = tt

    status_Any : Triple Any (status_step env) (λ u. Any) Shown
    unfolding status_step reported
    status_Any =
        Triple-catch Any (λ u. Any) Any Shown (sync_status_to_remote env)
          (λ e.
            reason env status_sync_to_remote unexpected_requeue
            >> update_status_with_error env (wrap "could not synchronize remote kyma status" e))
          (λ s p. any_outcome (sync_status_to_remote env s))
          (λ e s p.
            with_error_Shown env Any (λ u. Any) (wrap "could not synchronize remote kyma status" e)
              (pushed (record_requeue_reason status_sync_to_remote unexpected_requeue) s) tt)

    after_Shown : (interval : ℕ) → Triple Any (after_processing env interval) (λ d. Any) Shown
    unfolding after_processing
    after_Shown interval =
        Triple-bind Any (λ u. Any) (λ d. Any) Shown (status_step env)
          (λ u. end_by_state env interval) status_Any (λ u. end_Shown interval)

    prepared_Shown : Triple Alive (reconcile_prepared env) (λ d. Any) Shown
    unfolding reconcile_prepared
    prepared_Shown =
        let two : Triple Alive (sync_crds_step env >> sync_pull_secret_step env) (λ u. Alive)
            Shown =
          Triple-bind Alive (λ u. Alive) (λ u. Alive) Shown (sync_crds_step env)
            (λ u. sync_pull_secret_step env) (crds_Alive env) (λ u. secret_Alive env) in
        let three : Triple Alive (sync_crds_step env >> sync_pull_secret_step env >> spec_step env)
            (λ u. Alive) Shown =
          Triple-bind Alive (λ u. Alive) (λ u. Alive) Shown
            (sync_crds_step env >> sync_pull_secret_step env) (λ u. spec_step env) two
            (λ u. spec_Alive) in
        Triple-bind Alive (λ d. Any) (λ d. Any) Shown
          (sync_crds_step env >> sync_pull_secret_step env >> spec_step env >> processing_step env)
          (after_processing env)
          (Triple-bind Alive (λ u. Alive) (λ d. Any) Shown
            (sync_crds_step env >> sync_pull_secret_step env >> spec_step env)
            (λ u. processing_step env) three (λ u. processing_Shown))
          after_Shown

    outcome_err :
        (e : Error) (p : KymaSt × Result ℕ) → Outcome (λ d. Any) Shown p → p.1 ≡ err e → Shown p.0
    outcome_err e (s, ok d) h q = absurd (ground (arith, q))
    outcome_err e (s, err f) h q = h

    -- If the patches of the status do not fail, then whenever the steps of `reconcile` behind the
    -- finalizer check fail on a Kyma that is not in the state Deleting, whichever call it is that
    -- has failed, the status of the Kyma has the state Error.
    pub reconcile_prepared-Shown :
        (s : KymaSt) (e : Error)
        → Alive s
        → (reconcile_prepared env s).1 ≡ err e
        → Shown (reconcile_prepared env s).0
    reconcile_prepared-Shown s e alive h =
        outcome_err e (reconcile_prepared env s) (prepared_Shown s alive) h
