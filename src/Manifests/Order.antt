-- ===== src/Manifests/Order.antt =====
-- The order in which DeleteDiffResources deletes.
use lifecycle_manager.Prelude.{
  true, false, ◌≡◌, refl, sym, ap, ◌∙◌, ◌↔◌, true, List, [], ◌∷◌, Option, none, some, arith,
  Option-cases, Bool-cases, if◌then◌else◌, Bool, All, ◌⊎◌, inl, inr,
}
use lifecycle_manager.Errors.{Error, is_not_found}
use lifecycle_manager.Api.{Resource, Status}
use lifecycle_manager.Manifests.Resources.{split_resources}
use lifecycle_manager.Manifests.Env.{
  Calls, delete_resource, Env, St, Step, next, stop, M, ◌>>=◌, pure,
}
use lifecycle_manager.Manifests.Cleanup.{
  join_all, delete_each, failures, all_not_found, outcome, run, cleanup_resources,
  delete_diff_resources,
}

-- The calls after the resources have been asked to be deleted, one after the other.
abbrev pub after_deletes : List Resource → Calls → Calls
after_deletes [] c = c
after_deletes (r ∷ rs) c = after_deletes rs (delete_resource r ∷ c)

bind_lem :
    {A B : Type 0} (m : M A) (f : A → M B) (s t : St) (a : A)
    → m s ≡ (t, next a)
    → (m >>= f) s ≡ f a t
bind_lem m f s t a h = ap (λ p. elim p.1 [ next b ↦ f b p.0 | stop r ↦ (p.0, stop r) ]) h

module _ (env : Env) where
  -- The answers to those calls.
  abbrev pub answers : List Resource → Calls → List (Option Error)
  answers [] c = []
  answers (r ∷ rs) c = env.answer (delete_resource r) c ∷ answers rs (delete_resource r ∷ c)

  -- Each resource of the list was already gone when it was asked to be deleted.
  abbrev pub AllGone : List Resource → Calls → Type 0
  AllGone rs c = All (λ e. is_not_found env.errors e ≡ true) (answers rs c)

  delete_each_lem :
      (rs : List Resource) (s : St)
      → delete_each env rs s ≡ (
        record { manifest = s.manifest; calls = after_deletes rs s.calls },
        next (answers rs s.calls),
      )
  unfolding delete_each
  delete_each_lem [] s = refl
  delete_each_lem (r ∷ rs) s =
      bind_lem (delete_each env rs)
        (λ es. pure {A = List (Option Error)} (env.answer (delete_resource r) s.calls ∷ es)) _ _ _
        (delete_each_lem rs (record { manifest = s.manifest; calls = delete_resource r ∷ s.calls }))

  pub all_not_found_iff :
      (es : List (Option Error))
      → (all_not_found env es ≡ true) ↔ All (λ e. is_not_found env.errors e ≡ true) es
  unfolding all_not_found
  all_not_found_iff [] = (λ h. tt, λ h. refl)
  all_not_found_iff (e ∷ es) = ground (arith, all_not_found_iff es)

  no_failures :
      (es : List (Option Error))
      → All (λ e. is_not_found env.errors e ≡ true) es
      → failures env es ≡ []
  unfolding failures is_not_found
  no_failures [] h = refl
  no_failures (none ∷ es) h = cc h.0
  no_failures (some e ∷ es) h = rw h.0 (no_failures es h.1)

  -- Run succeeds just if each of its resources was already gone.
  outcome_iff :
      (es : List (Option Error))
      → (outcome env es ≡ none) ↔ All (λ e. is_not_found env.errors e ≡ true) es
  unfolding outcome join_all
  outcome_iff es = (
    λ h. (all_not_found_iff es).0 (ground (arith, h)),
    λ h. ground (arith, no_failures es h, (all_not_found_iff es).1 h),
  )

  cleanup_resources_lem :
      (rs : List Resource) (status : Status) (s : St)
      → ((cleanup_resources env rs status s).0.calls ≡ after_deletes rs s.calls)
        × ((cleanup_resources env rs status s).1 ≡ next (outcome env (answers rs s.calls)))
  unfolding cleanup_resources run
  cleanup_resources_lem rs status s = ground (arith, delete_each_lem rs s)

  -- The calls and the result of DeleteDiffResources, by what the first cleanup answers.
  diff_by :
      (rs : List Resource) (s : St) (e : Option Error)
      → outcome env (answers (split_resources rs).1 s.calls) ≡ e
      → ((delete_diff_resources env rs s).0.calls ≡ elim e [
        | none ↦ after_deletes (split_resources rs).0 (after_deletes (split_resources rs).1 s.calls)
        | some f ↦ after_deletes (split_resources rs).1 s.calls
      ])
        × ((delete_diff_resources env rs s).1 ≡ elim e [
          | none ↦ next (
              outcome env
                (answers (split_resources rs).0 (after_deletes (split_resources rs).1 s.calls)))
          | some f ↦ next (some f)
        ])
  unfolding delete_diff_resources
  diff_by rs s e h = ground (
    arith,
    h,
    cleanup_resources_lem (split_resources rs).1 s.manifest.status s,
    cleanup_resources_lem (split_resources rs).0 s.manifest.status
        (cleanup_resources env (split_resources rs).1 s.manifest.status s).0,
  )

  pub calls_lem :
      (rs : List Resource) (s : St)
      → ((delete_diff_resources env rs s).0.calls ≡ after_deletes (split_resources rs).1 s.calls)
        ⊎ ((delete_diff_resources env rs s).0.calls
            ≡ after_deletes (split_resources rs).0 (after_deletes (split_resources rs).1 s.calls))
  calls_lem rs s = elim (Option-cases (outcome env (answers (split_resources rs).1 s.calls))) [
    | inl o ↦ inr (diff_by rs s none o).0
    | inr (f, o) ↦ inl (diff_by rs s (some f) o).0
  ]

  -- DeleteDiffResources asks for the deletion of the resources that the operator manages first. It
  -- goes on to those that the operator itself consists of just if each managed resource was already
  -- gone when it was asked to be deleted.
  pub delete_diff_resources_order :
      (rs : List Resource) (s : St)
      → (delete_diff_resources env rs s).0.calls ≡ (
          if all_not_found env (answers (split_resources rs).1 s.calls)
          then after_deletes (split_resources rs).0 (after_deletes (split_resources rs).1 s.calls)
          else after_deletes (split_resources rs).1 s.calls)
  delete_diff_resources_order rs s =
      elim (Bool-cases (all_not_found env (answers (split_resources rs).1 s.calls))) [
        | inl gone ↦
            rw gone (diff_by rs s none ((outcome_iff _).1 ((all_not_found_iff _).0 gone))).0
        | inr left ↦ rw left (stops left)
      ]
    where
      apart : ◌≡◌ {A = Bool} false true → ⊥
      apart h = cc

      stops :
          all_not_found env (answers (split_resources rs).1 s.calls) ≡ false
          → (delete_diff_resources env rs s).0.calls ≡ after_deletes (split_resources rs).1 s.calls
      stops left = elim (Option-cases (outcome env (answers (split_resources rs).1 s.calls))) [
        | inl o ↦ absurd (apart (sym left ∙ (all_not_found_iff _).1 ((outcome_iff _).0 o)))
        | inr (f, o) ↦ (diff_by rs s (some f) o).0
      ]

  -- DeleteDiffResources succeeds if, and only if, each of its resources was already gone when it
  -- was asked to be deleted.
  pub delete_diff_resources_done :
      (rs : List Resource) (s : St)
      → ((delete_diff_resources env rs s).1 ≡ next none) ↔ (
          AllGone (split_resources rs).1 s.calls
          × AllGone (split_resources rs).0 (after_deletes (split_resources rs).1 s.calls))
  delete_diff_resources_done rs s = (
    λ h. elim (Option-cases (outcome env (answers (split_resources rs).1 s.calls))) [
      | inl o ↦
          ((outcome_iff _).0 o, (outcome_iff _).0 (next_same _ _ (sym (diff_by rs s none o).1 ∙ h)))
      | inr (f, o) ↦ absurd (next_apart f (sym (diff_by rs s (some f) o).1 ∙ h))
    ],
    λ g. (diff_by rs s none ((outcome_iff _).1 g.0)).1 ∙ ap next ((outcome_iff _).1 g.1),
  )
    where
      next_same : (a b : Option Error) → ◌≡◌ {A = Step (Option Error)} (next a) (next b) → a ≡ b
      next_same a b h = cc

      next_apart : (f : Error) → ◌≡◌ {A = Step (Option Error)} (next (some f)) (next none) → ⊥
      next_apart f h = cc
