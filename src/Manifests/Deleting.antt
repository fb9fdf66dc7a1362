-- ===== src/Manifests/Deleting.antt =====
-- When the deletion of a Manifest updates it, which is how it loses its finalizers.
use lifecycle_manager.Prelude.{
  ◌≡◌, refl, sym, ap, ◌∙◌, ◌≢◌, List, [], ◌∷◌, Option, none, some, arith, inl, inr, All,
}
use lifecycle_manager.Errors.{Error}
use lifecycle_manager.Api.{Resource, Manifest, Status}
use lifecycle_manager.Manifests.Resources.{split_resources}
use lifecycle_manager.Manifests.Env
use lifecycle_manager.Manifests.Env.{Calls, Spec, St, Step, next, stop, Return, M, ◌>>=◌, ◌>>◌}
use lifecycle_manager.Manifests.Cleanup.{delete_diff_resources}
use lifecycle_manager.Manifests.Order.{after_deletes, calls_lem}
use lifecycle_manager.Manifests.Pruned.{Gone, prune_diff-Gone}
use lifecycle_manager.Manifests.Quiet.{Quiet, quiet_bind, bind_next, bind_stop}
use lifecycle_manager.Manifests.Endings.{finish_reconcile, evict_skr_client_cache}
use lifecycle_manager.Manifests.Steps.{prune_diff, diff_of}
use lifecycle_manager.Manifests.Install.{prune, stop_unless_pruned}
use lifecycle_manager.Manifests.Delete.{evict_if_nothing_synced, delete_pruned, delete_resources}

-- The Manifests written by an update, the last first.
abbrev pub updated : Calls → List Manifest
updated [] = []
updated (Env.update_manifest_call m ∷ cs) = m ∷ updated cs
updated (c ∷ cs) = updated cs

updated_deletes : (rs : List Resource) (c : Calls) → updated (after_deletes rs c) ≡ updated c
updated_deletes [] c = refl
updated_deletes (r ∷ rs) c = updated_deletes rs _

module _ (env : Env.Env) where
  diff_updates :
      (rs : List Resource) (s : St)
      → updated (delete_diff_resources env rs s).0.calls ≡ updated s.calls
  diff_updates rs s = elim (calls_lem env rs s) [
    | inl e ↦ ap updated e ∙ updated_deletes (split_resources rs).1 s.calls
    | inr e ↦
        ap updated e
        ∙ updated_deletes (split_resources rs).0 (after_deletes (split_resources rs).1 s.calls)
        ∙ updated_deletes (split_resources rs).1 s.calls
  ]

  prune_diff_updates :
      (current target : List Resource) (spec : Spec) (s : St)
      → updated (prune_diff env current target spec s).0.calls ≡ updated s.calls
  unfolding prune_diff
  prune_diff_updates current target spec s = go (diff_of current target) refl
    where
      go :
          (d : List Resource)
          → diff_of current target ≡ d
          → updated (prune_diff env current target spec s).0.calls ≡ updated s.calls
      go [] e = ground (arith, e)
      go (r ∷ rs) e = ground (arith, e, diff_updates (r ∷ rs) s)

  after_prune :
      (previous : Status) (e : Option Error) (P : Option Error → Type 0) (t : St)
      → P e
      → Quiet updated (λ _ _. P none) (stop_unless_pruned env previous e) t
  unfolding finish_reconcile evict_skr_client_cache
  after_prune previous none P t h = (refl, λ a e. h)
  after_prune previous (some f) P t h = (ground arith, λ a e. ground (arith, e))

  prune_quiet :
      (previous : Status) (current target : List Resource) (spec : Spec) (s : St)
      → Quiet updated
          (λ _ _. (prune_diff env current target spec s).1 ≡ next none)
          (prune env previous current target spec)
          s
  unfolding prune
  prune_quiet previous current target spec s =
      quiet_bind updated (λ e t. (prune_diff env current target spec s).1 ≡ next e)
        (λ _ _. (prune_diff env current target spec s).1 ≡ next none)
        (prune_diff env current target spec) (stop_unless_pruned env previous) s
        (prune_diff_updates current target spec s, λ e h. h)
        (λ e t h.
          after_prune previous e (λ x. (prune_diff env current target spec s).1 ≡ next x) t h)

  evict_lem :
      (current : List Resource) (s : St)
      → ((evict_if_nothing_synced env current s).1 ≡ next tt)
        × (updated (evict_if_nothing_synced env current s).0.calls ≡ updated s.calls)
  unfolding evict_if_nothing_synced evict_skr_client_cache
  evict_lem current s = ground arith

  pruned_by :
      (previous : Status) (spec : Spec) (target current : List Resource) (s : St)
      (x : St × Step (Unit {0}))
      → prune env previous current target spec (evict_if_nothing_synced env current s).0 ≡ x
      → updated (delete_resources env previous spec target current s).0.calls ≢ updated s.calls
      → (prune_diff env current target spec (evict_if_nothing_synced env current s).0).1 ≡ next none
  unfolding delete_resources
  pruned_by previous spec target current s (t, next a) e h =
      (prune_quiet previous current target spec (evict_if_nothing_synced env current s).0).1 a
        (ap (λ p. p.1) e)
  pruned_by previous spec target current s (t, stop r) e h =
      let start = evict_if_nothing_synced env current s in
      let stopped =
        bind_next (evict_if_nothing_synced env current)
          (λ _. prune env previous current target spec >> delete_pruned env previous spec target) s
          tt (evict_lem current s).0
        ∙ bind_stop (prune env previous current target spec)
            (λ _. delete_pruned env previous spec target) start.0 t r e in
      absurd (
        h (
          ap (λ p. updated p.0.calls) (stopped ∙ sym e)
          ∙ (prune_quiet previous current target spec start.0).0
          ∙ (evict_lem current s).1))

  -- If, behind the rendering, the deletion of a Manifest updates the Manifest, as it does to remove
  -- its finalizers, then pruneDiff has succeeded: it has asked for the deletion of each resource of
  -- its diff, which leaves out the target and the default namespace, and each was already gone when
  -- it was asked to be deleted.
  pub delete_updates_pruned :
      (previous : Status) (spec : Spec) (target current : List Resource) (s : St)
      → updated (delete_resources env previous spec target current s).0.calls ≢ updated s.calls
      → ((prune_diff env current target spec (evict_if_nothing_synced env current s).0).1
          ≡ next none)
        × All
            (Gone env
              (prune_diff env current target spec
                (evict_if_nothing_synced env current s).0).0.calls)
            (diff_of current target)
  delete_updates_pruned previous spec target current s h =
      let done = pruned_by previous spec target current s _ refl h in
      (done, prune_diff-Gone env current target spec (evict_if_nothing_synced env current s).0 done)
