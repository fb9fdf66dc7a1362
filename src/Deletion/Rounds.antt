-- ===== src/Deletion/Rounds.antt =====
-- Reconciliations of a Kyma in deletion, one after the other, with the other controllers at work
-- between them.
use lifecycle_manager.Prelude.{
  ℕ, zero, suc, ◌≤◌, ◌≡◌, refl, ap, ◌∙◌, ◌⊎◌, inl, inr, Bool, true, false, List, Option, none, some,
  arith, if◌then◌else◌, Option-cases,
}
use lifecycle_manager.Errors.{ErrorLib}
use lifecycle_manager.Api.{Kyma}
use lifecycle_manager.Deletion.Defs.{UseCase, delete, deletion_steps}
use lifecycle_manager.Deletion.UseCases.{NamespacedName, Repos, composed_steps}
use lifecycle_manager.Deletion.Controller.{process_deletion}
use lifecycle_manager.Deletion.View.{
  View, advance, collect, pending, pending-le, pending-advance, advance-marked,
  finalizer_of_pending,
}
use lifecycle_manager.Deletion.Convergence.{Behaves, view-delete}

module _ {W : Type 0} (lib : ErrorLib) (r : Repos W) (invalidate_cache : NamespacedName → W → W)
    (get_kyma : W → Option Kyma) (others : W → W) where
  -- One reconciliation reads the Kyma and, if it exists, processes its deletion.
  unfoldable pub round : W → W
  round w = elim (get_kyma w) [
    | none ↦ w
    | some k ↦
        others (process_deletion lib invalidate_cache (deletion_steps (composed_steps lib r)) k w).0
  ]

  unfoldable pub rounds : ℕ → W → W
  rounds zero w = w
  rounds (suc n) w = rounds n (round w)

-- The Kyma is gone, or its finalizer is.
abbrev pub IsReleased : {W : Type 0} → (W → Option Kyma) → (W → View) → W → Type 0
IsReleased get_kyma view w = (get_kyma w ≡ none) ⊎ ((view w).finalizer ≡ false)

module _ {W : Type 0} (lib : ErrorLib) (r : Repos W) (invalidate_cache : NamespacedName → W → W)
    (get_kyma : W → Option Kyma) (others : W → W) (view : W → View) (Settled : W → Type 0)
    (settles : (w : W) → Settled (others w))
    (behaves : (w : W) (k : Kyma) → Settled w → get_kyma w ≡ some k → Behaves lib r view others k w)
    (keeps : (n : NamespacedName) (w : W)
      → view (others (invalidate_cache n w)) ≡ view (others w)) where
  view_either :
      (b : Bool) (v w : W) (u : View)
      → view (others v) ≡ u
      → view (others w) ≡ u
      → view (others (if b then v else w)) ≡ u
  view_either true v w u p q = p
  view_either false v w u p q = q

  view_process :
      (steps : List (UseCase W)) (k : Kyma) (w : W)
      → view (others (process_deletion lib invalidate_cache steps k w).0)
        ≡ view (others (delete steps k w).world)
  unfolding process_deletion
  view_process steps k w = view_either _ _ _ _ (keeps _ _) refl

  view-round :
      (w : W) (k : Kyma)
      → Settled w
      → get_kyma w ≡ some k
      → view (round lib r invalidate_cache get_kyma others w) ≡ collect (advance (view w))
  unfolding round
  view-round w k settled e =
      rw (e, round) (view_process _ k w ∙ view-delete lib r view others (behaves w k settled e))

  round-Settled :
      (w : W) (k : Kyma)
      → get_kyma w ≡ some k
      → Settled (round lib r invalidate_cache get_kyma others w)
  unfolding round
  round-Settled w k e = rw (e, round) (settles _)

  rounds-none :
      (n : ℕ) (w : W) → get_kyma w ≡ none → rounds lib r invalidate_cache get_kyma others n w ≡ w
  unfolding rounds round
  rounds-none zero w e = refl
  rounds-none (suc n) w e = rw (e, round) (rounds-none n w e)

  IsReleased-of_pending :
      (n : ℕ) (w : W)
      → Settled w
      → (view w).marked ≡ true
      → pending (view w) ≤ n
      → IsReleased get_kyma view (rounds lib r invalidate_cache get_kyma others n w)
  unfolding rounds
  IsReleased-of_pending zero w settled m p = inr (finalizer_of_pending (view w) p)
  IsReleased-of_pending (suc n) w settled m p = elim (Option-cases (get_kyma w)) [
    | inl gone ↦ inl (rw (rounds-none (suc n) w gone) gone)
    | inr (k, e) ↦
        IsReleased-of_pending n (round lib r invalidate_cache get_kyma others w)
          (round-Settled w k e)
          (ap (λ (v : View). v.marked) (view-round w k settled e) ∙ advance-marked (view w) ∙ m)
          (rw (view-round w k settled e) (pending-advance (view w) n m (omega (arith, p))))
  ]

  -- Where no call of a repository fails, and where the API servers and the other controllers
  -- complete the deletions under way between two reconciliations, those of the manifests too, twelve
  -- reconciliations of a Kyma in deletion are enough: after them the Kyma is gone or has lost the
  -- finalizer. No deletion is under way before the first of them.
  pub finalizer_dropped :
      (w : W)
      → Settled w
      → (view w).marked ≡ true
      → IsReleased get_kyma view (rounds lib r invalidate_cache get_kyma others 12 w)
  finalizer_dropped w settled m = IsReleased-of_pending 12 w settled m (pending-le (view w))
