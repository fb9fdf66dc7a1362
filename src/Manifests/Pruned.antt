-- ===== src/Manifests/Pruned.antt =====
-- What pruneDiff has done with the resources it finds.
use lifecycle_manager.Prelude.{
  ◌≡◌, refl, sym, ap, ◌∙◌, subst, true, List, [], ◌∷◌, none, arith, ◌⊎◌, inl, inr, All, Bool-cases,
  if◌then◌else◌,
}
use lifecycle_manager.Errors.{is_not_found}
use lifecycle_manager.Api.{Resource}
use lifecycle_manager.Manifests.Resources.{split_resources, is_operator_related_resources}
use lifecycle_manager.Manifests.Env
use lifecycle_manager.Manifests.Env.{
  Calls, Spec, St, Step, next, stop, M, ◌>>=◌, ◌>>◌, delete_resource,
}
use lifecycle_manager.Manifests.Cleanup.{delete_diff_resources}
use lifecycle_manager.Manifests.Order.{
  after_deletes, AllGone, all_not_found_iff, delete_diff_resources_order,
  delete_diff_resources_done,
}
use lifecycle_manager.Manifests.Steps.{prune_diff, diff_of}

-- The calls begin with these earlier ones.
abbrev pub Extends : (earlier calls : Calls) → Type 0
Extends earlier [] = earlier ≡ []
Extends earlier (c ∷ calls) = (earlier ≡ (c ∷ calls)) ⊎ Extends earlier calls

itself-Extends : (calls : Calls) → Extends calls calls
itself-Extends [] = refl
itself-Extends (c ∷ calls) = inl refl

deletes-Extends :
    (rs : List Resource) (earlier calls : Calls)
    → Extends earlier calls
    → Extends earlier (after_deletes rs calls)
deletes-Extends [] earlier calls h = h
deletes-Extends (r ∷ rs) earlier calls h =
    deletes-Extends rs earlier (delete_resource r ∷ calls) (inr h)

module _ (env : Env.Env) where
  -- The calls ask for the deletion of the resource, and the answer was that it is not found.
  abbrev pub Gone : Calls → Resource → Type 0
  Gone calls r =
      (earlier : Calls) × Extends (delete_resource r ∷ earlier) calls
      × (is_not_found env.errors (env.answer (delete_resource r) earlier) ≡ true)

  deletes-Gone :
      (rs : List Resource) (c calls : Calls)
      → AllGone env rs c
      → ((d : Calls) → Extends d (after_deletes rs c) → Extends d calls)
      → All (Gone calls) rs
  deletes-Gone [] c calls h extends = tt
  deletes-Gone (r ∷ rs) c calls h extends =
      let asked = delete_resource r ∷ c in
      (
        (c, extends asked (deletes-Extends rs asked asked (itself-Extends asked)), h.0),
        deletes-Gone rs asked calls h.1 extends,
      )

  split-All :
      (P : Resource → Type 0) (rs : List Resource)
      → All P (split_resources rs).0
      → All P (split_resources rs).1
      → All P rs
  unfolding split_resources
  split-All P [] h g = tt
  split-All P (r ∷ rs) h g = elim (Bool-cases (is_operator_related_resources r.kind)) [
    | inl own ↦
        let here : All P (r ∷ (split_resources rs).0) = rw (split_resources, own) at h in
        let rest : All P (split_resources rs).1 = rw (split_resources, own) at g in
        (here.0, split-All P rs here.1 rest)
    | inr managed ↦
        let rest : All P (split_resources rs).0 = rw (split_resources, managed) at h in
        let here : All P (r ∷ (split_resources rs).1) = rw (split_resources, managed) at g in
        (here.0, split-All P rs rest here.1)
  ]

  -- Where DeleteDiffResources succeeds, it has asked for the deletion of each resource, and each was
  -- already gone.
  delete_diff_resources-Gone :
      (rs : List Resource) (s : St)
      → (delete_diff_resources env rs s).1 ≡ next none
      → All (Gone (delete_diff_resources env rs s).0.calls) rs
  delete_diff_resources-Gone rs s h =
      let (managed, own) = (delete_diff_resources_done env rs s).0 h in
      let first = after_deletes (split_resources rs).1 s.calls in
      let run : (delete_diff_resources env rs s).0.calls
          ≡ after_deletes (split_resources rs).0 first =
        delete_diff_resources_order env rs s
        ∙ ap (λ b. if b then after_deletes (split_resources rs).0 first else first)
            ((all_not_found_iff env _).1 managed) in
      subst (λ c. All (Gone c) rs) (sym run)
        (split-All (Gone (after_deletes (split_resources rs).0 first)) rs
          (deletes-Gone (split_resources rs).0 first _ own (λ d e. e))
          (deletes-Gone (split_resources rs).1 s.calls _ managed
            (λ d e. deletes-Extends (split_resources rs).0 d first e)))

  -- Where pruneDiff succeeds, it has asked for the deletion of each resource that is left over, and
  -- each was already gone.
  pub prune_diff-Gone :
      (current target : List Resource) (spec : Spec) (s : St)
      → (prune_diff env current target spec s).1 ≡ next none
      → All (Gone (prune_diff env current target spec s).0.calls) (diff_of current target)
  unfolding prune_diff
  prune_diff-Gone current target spec s = go (diff_of current target) refl
    where
      go :
          (d : List Resource)
          → diff_of current target ≡ d
          → (prune_diff env current target spec s).1 ≡ next none
          → All (Gone (prune_diff env current target spec s).0.calls) d
      go [] e h = tt
      go (r ∷ rs) e h =
          let succeeded : (delete_diff_resources env (r ∷ rs) s).1 ≡ next none =
            ground (arith, e, h) in
          let same : (prune_diff env current target spec s).0.calls
              ≡ (delete_diff_resources env (r ∷ rs) s).0.calls =
            ground (arith, e, h) in
          subst (λ c. All (Gone c) (r ∷ rs)) (sym same)
            (delete_diff_resources-Gone (r ∷ rs) s succeeded)
