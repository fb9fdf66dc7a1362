-- ===== src/Kymas/Aggregated.antt =====
-- The state that handleProcessingState writes, and its requeue interval.
use lifecycle_manager.Prelude.{
  ℕ, String, ◌≡◌, refl, sym, ap, subst, ◌∙◌, ◌∷◌, Option, none, some, arith, if◌then◌else◌,
}
use lifecycle_manager.Errors.{Error, wrap, Result, ok, err}
use lifecycle_manager.Api.{Kyma, KymaStatus, State, ready, state_eq, determine_state}
use lifecycle_manager.Manifests.{determine_requeue_interval}
use lifecycle_manager.Kymas.Env.{
  KymaEnv, KymaCalls, KymaSt, ◌>>◌, throw, catch, note, patch_status, update_metrics, warning_event,
  patch_status_error, tasks_of,
}
use lifecycle_manager.Kymas.Status.{
  with_status, update_status_for_existing_modules, update_status, status_with_error,
  update_status_with_error,
}
use lifecycle_manager.Kymas.Processing.{run_group, finish_processing, handle_processing_state}
use lifecycle_manager.Kymas.Triples.{On, Outcome, Triple-bind, Triple-catch}

module _ (env : KymaEnv) where
  -- The status in memory is the one that was written last.
  abbrev pub Written : On
  Written s =
      (before : KymaCalls) × (s.calls ≡ (update_metrics s.kyma ∷ patch_status s.kyma ∷ before))

  abbrev pub Updated : State → KymaSt → KymaSt → Type 0
  Updated state before s =
      (s.kyma.status.state ≡ state)
      × (s.kyma.status.modules ≡ before.kyma.status.modules)
      × (s.kyma.status.conditions ≡ before.kyma.status.conditions)
      × Written s

  with_status_fields :
      (state : State) (message : String) (kyma : Kyma)
      → ((with_status state message kyma).status.state ≡ state)
        × ((with_status state message kyma).status.modules ≡ kyma.status.modules)
        × ((with_status state message kyma).status.conditions ≡ kyma.status.conditions)
  with_status_fields state message kyma = ground arith

  -- The update of the status, by the answer of the patch.
  abbrev pub updated_by : State → String → KymaSt → Option Error → KymaSt × Result (Unit {0})
  updated_by state message s none =
      let kyma = with_status state message s.kyma in
      (record { kyma = kyma; calls = update_metrics kyma ∷ patch_status kyma ∷ s.calls }, ok tt)
  updated_by state message s (some e) =
      let kyma = with_status state message s.kyma in
      (
        record { kyma = kyma; calls = patch_status kyma ∷ s.calls },
        err (wrap "status could not be updated" e),
      )

  pub helper_by :
      (state : State) (message : String) (s : KymaSt)
      → update_status_for_existing_modules env state message s
        ≡ updated_by state message s
            (env.answer (patch_status (with_status state message s.kyma)) s.calls)
  unfolding update_status_for_existing_modules
  helper_by state message s = ground arith

  Updated-outcome :
      (state : State) (message : String) (s : KymaSt) (o : Option Error)
      → Outcome
          (λ u t. Updated state s t)
          (λ t. t.kyma.status.state ≡ state)
          (updated_by state message s o)
  Updated-outcome state message s none =
      let f = with_status_fields state message s.kyma in (f.0, f.1, f.2, (_, refl))
  Updated-outcome state message s (some e) = (with_status_fields state message s.kyma).0

  pub helper_updates :
      (state : State) (message : String) (s : KymaSt)
      → Outcome
          (λ u t. Updated state s t)
          (λ t. t.kyma.status.state ≡ state)
          (update_status_for_existing_modules env state message s)
  helper_updates state message s =
      subst (Outcome (λ u t. Updated state s t) (λ t. t.kyma.status.state ≡ state))
        (sym (helper_by state message s))
        (Updated-outcome state message s
          (env.answer (patch_status (with_status state message s.kyma)) s.calls))

  update_updates :
      (state : State) (message : String) (s : KymaSt)
      → Outcome
          (λ u t. Updated state s t)
          (λ t. t.kyma.status.state ≡ state)
          (update_status env state message s)
  unfolding update_status
  update_updates state message s =
      go (update_status_for_existing_modules env state message s) (helper_updates state message s)
    where
      go :
          (p : KymaSt × Result (Unit {0}))
          → Outcome {A = Unit {0}} (λ u t. Updated state s t) (λ t. t.kyma.status.state ≡ state) p
          → Outcome {A = Unit {0}}
              (λ u t. Updated state s t)
              (λ t. t.kyma.status.state ≡ state)
              (elim p.1 [
                | ok a ↦ (p.0, ok a)
                | err e ↦
                    (note env (warning_event patch_status_error e)
                        >> throw (wrap "error while updating status" e))
                      p.0
              ])
      go (t, ok a) h = h
      go (t, err e) h = h

  determined_same :
      (a b : KymaStatus)
      → a.modules ≡ b.modules
      → a.conditions ≡ b.conditions
      → determine_state a ≡ determine_state b
  unfolding determine_state
  determined_same a b m c = rw m (rw c refl)

  -- The state is the one that the modules and the conditions give, and the interval is the one of
  -- that state.
  abbrev pub Aggregated : ℕ → On
  Aggregated interval s =
      (s.kyma.status.state ≡ determine_state s.kyma.status)
      × (interval ≡ determine_requeue_interval (determine_state s.kyma.status) env.intervals)
      × Written s

  aggregated_of :
      (s t : KymaSt)
      → Updated (determine_state s.kyma.status) s t
      → Aggregated (determine_requeue_interval (determine_state s.kyma.status) env.intervals) t
  aggregated_of s t (state, modules, conditions, written) =
      let same = sym (determined_same t.kyma.status s.kyma.status modules conditions) in
      (state ∙ same, ap (λ x. determine_requeue_interval x env.intervals) same, written)

  pub finish_Aggregated :
      (s : KymaSt) → Outcome Aggregated (λ t. Unit {0}) (finish_processing env s)
  unfolding finish_processing
  finish_Aggregated s = go (update_status env state message s) (update_updates state message s)
    where
      state : State
      state = determine_state s.kyma.status

      message : String
      message =
          if state_eq state ready
          then "kyma is ready"
          else "waiting for all modules to become ready"

      go :
          (p : KymaSt × Result (Unit {0}))
          → Outcome (λ u t. Updated state s t) (λ t. t.kyma.status.state ≡ state) p
          → Outcome Aggregated
              (λ t. Unit {0})
              (elim p.1 [
                | ok a ↦ (p.0, ok (determine_requeue_interval state env.intervals))
                | err e ↦ (p.0, err e)
              ])
      go (t, ok a) h = aggregated_of s t h
      go (t, err e) h = tt

  -- updateStatusWithError never gives a value.
  pub status_with_error_outcome :
      {A : Type 0} (Q : A → On) (e : Error) (s : KymaSt)
      → Outcome Q (λ t. Unit {0}) (update_status_with_error env {A = A} e s)
  unfolding update_status_with_error
  status_with_error_outcome Q e s = go (status_with_error env e s)
    where
      go :
          (p : KymaSt × Result (Unit {0}))
          → Outcome Q (λ t. Unit {0}) (elim p.1 [ ok u ↦ (p.0, err e) | err f ↦ (p.0, err f) ])
      go (t, ok u) = tt
      go (t, err f) = tt

  own_outcome :
      (p : KymaSt × Result (Unit {0}))
      → Outcome {A = Unit {0}} (λ u t. p.1 ≡ ok tt) (λ t. Unit {0}) p
  own_outcome (t, ok u) = refl
  own_outcome (t, err e) = tt

  processing_outcome :
      (s : KymaSt)
      → Outcome
          (λ interval t. Aggregated interval t × ((run_group env (tasks_of env.order) s).1 ≡ ok tt))
          (λ t. Unit {0})
          (handle_processing_state env s)
  unfolding handle_processing_state
  processing_outcome s =
      Triple-bind (λ t. t ≡ s) (λ u t. group.1 ≡ ok tt)
        (λ interval t. Aggregated interval t × (group.1 ≡ ok tt)) (λ t. Unit {0})
        (catch (run_group env (tasks_of env.order)) (λ e. update_status_with_error env e))
        (λ u. finish_processing env)
        (Triple-catch (λ t. t ≡ s) (λ u t. group.1 ≡ ok tt) (λ t. Unit {0}) (λ t. Unit {0})
          (run_group env (tasks_of env.order)) (λ e. update_status_with_error env e)
          (λ t same.
            subst
              (λ x.
                Outcome (λ u y. group.1 ≡ ok tt) (λ y. Unit {0})
                  (run_group env (tasks_of env.order) x))
              (sym same) (own_outcome group))
          (λ e t h. status_with_error_outcome (λ u y. group.1 ≡ ok tt) e t))
        (λ u t fine. kept fine (finish_processing env t) (finish_Aggregated t)) s refl
    where
      group : KymaSt × Result (Unit {0})
      group = run_group env (tasks_of env.order) s

      kept :
          group.1 ≡ ok tt
          → (p : KymaSt × Result ℕ) → Outcome Aggregated (λ t. Unit {0}) p
          → Outcome (λ interval t. Aggregated interval t × (group.1 ≡ ok tt)) (λ t. Unit {0}) p
      kept fine (t, ok interval) h = (h, fine)
      kept fine (t, err e) h = tt

  outcome_ok :
      {A : Type 0} (Q : A → On) (E : On) (a : A) (p : KymaSt × Result A)
      → Outcome Q E p
      → p.1 ≡ ok a
      → Q a p.0
  outcome_ok {A = A} Q E a (s, ok b) h e = subst (λ x. Q x s) (same e) h
    where
      same : ◌≡◌ {A = Result A} (ok b) (ok a) → b ≡ a
      same q = cc
  outcome_ok {A = A} Q E a (s, err f) h e = absurd (no e)
    where
      no : ◌≡◌ {A = Result A} (err f) (ok a) → ⊥
      no q = cc

  -- If handleProcessingState ends without an error, then no goroutine had one, the status that was
  -- written last has the state that DetermineState gives for its modules and conditions, and the
  -- requeue interval is the one of that state.
  pub handle_processing_state-Aggregated :
      (s : KymaSt) (interval : ℕ)
      → (handle_processing_state env s).1 ≡ ok interval
      → Aggregated interval (handle_processing_state env s).0
        × ((run_group env (tasks_of env.order) s).1 ≡ ok tt)
  handle_processing_state-Aggregated s interval h =
      outcome_ok (λ d t. Aggregated d t × ((run_group env (tasks_of env.order) s).1 ≡ ok tt))
        (λ t. Unit {0}) interval (handle_processing_state env s) (processing_outcome s) h
