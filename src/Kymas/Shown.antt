-- ===== src/Kymas/Shown.antt =====
-- The steps of a reconciliation that report their failure in the status of the Kyma.
use lifecycle_manager.Prelude.{
  String, ◌≡◌, Bool, true, false, ◌∷◌, Option, none, some, if◌then◌else◌,
}
use lifecycle_manager.Errors.{
  Error, wrap, join, Result, ok, err, errors_is, not_found_and_kcp_kyma_under_deleting,
}
use lifecycle_manager.Api.{
  Kyma, error, deleting, state_eq, ConditionStatus, condition_true, condition_false,
}
use lifecycle_manager.Manifests.{unexpected_requeue}
use lifecycle_manager.Kymas.Conditions.{
  KymaConditionType, update_condition, crds_sync, skr_image_pull_secret_sync,
}
use lifecycle_manager.Kymas.Env.{
  KymaEnv, KymaCall, KymaRequeueReason, KymaSt, K, ◌>>◌, throw, catch, wrap_error, ask, call, note,
  sync_crds, sync_image_pull_secret, record_requeue_reason, sync_of_crds, image_pull_secret_sync,
  warning_event, update_status_error, get_skr_context,
}
use lifecycle_manager.Kymas.Status.{
  update_status_for_existing_modules, status_with_error, update_status_with_error,
}
use lifecycle_manager.Kymas.Processing.{set_condition, reason}
use lifecycle_manager.Kymas.Remote.{
  replace_spec, validate_default_channel, fetch_remote_kyma, with_remote, replace_and_validate,
  replace_spec_from_remote,
}
use lifecycle_manager.Kymas.Reconcile.{reported, sync_crds_step, sync_pull_secret_step}
use lifecycle_manager.Kymas.Aggregated.{Updated, helper_updates}
use lifecycle_manager.Kymas.Triples.{
  On, Outcome, Triple, pushed, Triple-bind, Triple-catch, Triple-wrap, Triple-when, Triple-call,
}

-- The status in memory shows the error.
abbrev pub Shown : On
Shown s = s.kyma.status.state ≡ error

abbrev pub Any : On
Any s = Unit {0}

pub any_outcome : {A : Type 0} (p : KymaSt × Result A) → Outcome (λ a. Any) Any p
any_outcome (s, ok a) = tt
any_outcome (s, err e) = tt

-- The Kyma is not in the state Deleting, in which the controller goes other ways.
abbrev pub Alive : On
Alive s = state_eq s.kyma.status.state deleting ≡ false

module _ (env : KymaEnv) where
  caught_Shown :
      (e : Error) (s : KymaSt) (p : KymaSt × Result (Unit {0}))
      → Outcome {A = Unit {0}} (λ u t. Updated env error s t) Shown p
      → Outcome {A = Unit {0}}
          (λ u. Shown)
          Shown
          (elim p.1 [
            | ok a ↦ (p.0, ok a)
            | err f ↦
                (note env (warning_event update_status_error f)
                    >> throw (wrap "error while updating status to Error" (join e f)))
                  p.0
          ])
  caught_Shown e s (t, ok a) h = h.0
  caught_Shown e s (t, err f) h = h

  thrown_Shown :
      (e : Error) (p : KymaSt × Result (Unit {0}))
      → Outcome {A = Unit {0}} (λ u. Shown) Shown p
      → Outcome {A = Unit {0}}
          (λ u. Shown)
          Shown
          (elim p.1 [ ok a ↦ (p.0, err e) | err f ↦ (p.0, err f) ])
  thrown_Shown e (t, ok a) h = h
  thrown_Shown e (t, err f) h = h

  status_Shown : (e : Error) (s : KymaSt) → Outcome (λ u. Shown) Shown (status_with_error env e s)
  unfolding status_with_error
  status_Shown e s =
      let helper = update_status_for_existing_modules env error (env.text e) s in
      thrown_Shown e
        (catch (update_status_for_existing_modules env error (env.text e))
          (λ f.
            note env (warning_event update_status_error f)
            >> throw (wrap "error while updating status to Error" (join e f)))
          s)
        (caught_Shown e s helper (helper_updates env error (env.text e) s))

  -- updateStatusWithError fails with the state Error in the status, whether or not the patch fails.
  pub with_error_Shown :
      {A : Type 0} (P : On) (Q : A → On) (e : Error)
      → Triple P (update_status_with_error env {A = A} e) Q Shown
  unfolding update_status_with_error
  with_error_Shown P Q e s p = go (status_with_error env e s) (status_Shown e s)
    where
      go :
          (p : KymaSt × Result (Unit {0}))
          → Outcome {A = Unit {0}} (λ u. Shown) Shown p
          → Outcome Q Shown (elim p.1 [ ok u ↦ (p.0, err e) | err f ↦ (p.0, err f) ])
      go (t, ok u) h = h
      go (t, err f) h = h

  pub reported_Alive :
      (r : KymaRequeueReason) (text : String) (m : K (Unit {0}))
      → Triple Alive m (λ u. Alive) Any
      → Triple Alive (reported env r text m) (λ u. Alive) Shown
  unfolding reported
  reported_Alive r text m h =
      Triple-catch Alive (λ u. Alive) Any Shown m
        (λ e. reason env r unexpected_requeue >> update_status_with_error env (wrap text e)) h
        (λ e s p.
          with_error_Shown Any (λ u. Alive) (wrap text e)
            (pushed (record_requeue_reason r unexpected_requeue) s) tt)

  pub call_Alive : (c : KymaCall) → Triple Alive (call env c) (λ u. Alive) Alive
  call_Alive c = Triple-call env Alive Alive Alive c (λ s p. p) (λ s p. p)

  pub condition_Alive :
      (t : KymaConditionType) (status : ConditionStatus) (E : On)
      → Triple Alive (set_condition env t status) (λ u. Alive) E
  unfolding set_condition update_condition
  condition_Alive t status E s p = p

  pub crds_Alive : Triple Alive (sync_crds_step env) (λ u. Alive) Shown
  unfolding sync_crds_step
  crds_Alive =
      Triple-bind Alive (λ u. Alive) (λ u. Alive) Shown
        (catch (call env sync_crds) (λ e.
          set_condition env crds_sync condition_false
          >> reason env sync_of_crds unexpected_requeue
          >> update_status_with_error env (wrap "could not sync CRDs" e)))
        (λ u. set_condition env crds_sync condition_true)
        (Triple-catch Alive (λ u. Alive) Alive Shown (call env sync_crds)
          (λ e.
            set_condition env crds_sync condition_false
            >> reason env sync_of_crds unexpected_requeue
            >> update_status_with_error env (wrap "could not sync CRDs" e))
          (call_Alive sync_crds)
          (λ e s p.
            with_error_Shown Any (λ u. Alive) (wrap "could not sync CRDs" e)
              (record {
                kyma = update_condition env.lib crds_sync condition_false s.kyma;
                calls = record_requeue_reason sync_of_crds unexpected_requeue ∷ s.calls;
              })
              tt))
        (λ u. condition_Alive crds_sync condition_true Shown)

  pub secret_Alive : Triple Alive (sync_pull_secret_step env) (λ u. Alive) Shown
  unfolding sync_pull_secret_step
  secret_Alive =
      Triple-when Alive Shown env.skr_image_pull_secret_sync_enabled
        (catch (call env sync_image_pull_secret) failed
          >> set_condition env skr_image_pull_secret_sync condition_true)
        (Triple-bind Alive (λ u. Alive) (λ u. Alive) Shown
          (catch (call env sync_image_pull_secret) failed)
          (λ u. set_condition env skr_image_pull_secret_sync condition_true)
          (Triple-catch Alive (λ u. Alive) Alive Shown (call env sync_image_pull_secret) failed
            (call_Alive sync_image_pull_secret)
            (λ e s p.
              with_error_Shown Any (λ u. Alive) (wrap "could not sync image pull secret" e)
                (record {
                  kyma = update_condition env.lib skr_image_pull_secret_sync condition_false s.kyma;
                  calls = record_requeue_reason image_pull_secret_sync unexpected_requeue ∷ s.calls;
                })
                tt))
          (λ u. condition_Alive skr_image_pull_secret_sync condition_true Shown))
    where
      failed : Error → K (Unit {0})
      failed e =
          reason env image_pull_secret_sync unexpected_requeue
          >> set_condition env skr_image_pull_secret_sync condition_false
          >> update_status_with_error env (wrap "could not sync image pull secret" e)

  fetch_Alive : Triple Alive (fetch_remote_kyma env) (λ k. Alive) Alive
  unfolding fetch_remote_kyma
  fetch_Alive =
      Triple-bind Alive (λ u. Alive) (λ k. Alive) Alive
        (wrap_error "failed to get syncContext" (call env get_skr_context))
        (λ u. catch (ask (λ s. env.create_or_fetch_kyma s.kyma s.calls)) (λ e. throw (
          if errors_is e not_found_and_kcp_kyma_under_deleting
          then e
          else wrap "could not create or fetch remote kyma" e)))
        (Triple-wrap Alive (λ u. Alive) Alive "failed to get syncContext" (call env get_skr_context)
          (call_Alive get_skr_context))
        (λ u.
          Triple-catch Alive (λ k. Alive) Alive Alive
            (ask (λ s. env.create_or_fetch_kyma s.kyma s.calls))
            (λ e. throw (
              if errors_is e not_found_and_kcp_kyma_under_deleting
              then e
              else wrap "could not create or fetch remote kyma" e))
            (λ s p. fetched s p (env.create_or_fetch_kyma s.kyma s.calls)) (λ e s p. p))
    where
      fetched : (s : KymaSt) → Alive s → (r : Result Kyma) → Outcome (λ k. Alive) Alive (s, r)
      fetched s p (ok k) = p
      fetched s p (err e) = p

  replace_Alive : (remote : Kyma) → Triple Alive (replace_and_validate env remote) (λ u. Alive) Any
  unfolding replace_and_validate replace_spec
  replace_Alive remote s p =
      go (record s { kyma = replace_spec remote s.kyma }) p
        (validate_default_channel (replace_spec remote s.kyma))
    where
      go :
          (t : KymaSt)
          → Alive t
          → (o : Option Error)
          → Outcome {A = Unit {0}} (λ u. Alive) Any (t, elim o [ none ↦ ok tt | some e ↦ err e ])
      go t q none = q
      go t q (some e) = tt

  pub replaced_Alive : Triple Alive (replace_spec_from_remote env) (λ u. Alive) Any
  unfolding replace_spec_from_remote with_remote
  replaced_Alive s p = go (fetch_remote_kyma env s) (fetch_Alive s p)
    where
      missing :
          (b : Bool) (t : KymaSt) (e : Error)
          → Alive t
          → Outcome {A = Unit {0}} (λ u. Alive) Any (if b then (t, ok tt) else (t, err e))
      missing true t e q = q
      missing false t e q = tt

      go :
          (q : KymaSt × Result Kyma)
          → Outcome (λ k. Alive) Alive q
          → Outcome {A = Unit {0}}
              (λ u. Alive)
              Any
              (elim q.1 [
                | ok remote ↦ replace_and_validate env remote q.0
                | err e ↦
                    if errors_is e not_found_and_kcp_kyma_under_deleting
                    then (q.0, ok tt)
                    else (q.0, err e)
              ])
      go (t, ok remote) h = replace_Alive remote t h
      go (t, err e) h = missing (errors_is e not_found_and_kcp_kyma_under_deleting) t e h
