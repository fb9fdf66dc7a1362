-- ===== src/Deletion/Selection.antt =====
-- Which use case a call of Delete runs, and when NewService accepts its arguments.
use lifecycle_manager.Prelude.{
  ◌≡◌, refl, ◌∙◌, ap, ◌≢◌, ◌↔◌, inl, inr, Bool, true, false, List, [], ◌∷◌, ◌++◌, map, All, length,
  ==_refl, Option, none, some, arith, Bool-cases,
}
use lifecycle_manager.Errors.{
  Error, sentinel, join, Result, ok, err, no_use_case_applicable,
  unable_to_determine_usecase_applicability, ErrorLib,
}
use lifecycle_manager.Api.{Kyma}
use lifecycle_manager.Deletion.Defs.{
  UseCaseName, name_code, same_name, Outcome, UseCase, visit, delete, expected_use_case_order,
  order_mismatches, out_of_order, enforce_use_case_order, unless_error, Steps, deletion_steps,
  new_service,
}
use lifecycle_manager.Deletion.UseCases.{Repos, composed_steps, compose_service}

module _ {W : Type 0} (kyma : Kyma) (w : W) where
  abbrev pub IsInapplicable : UseCase W → Type 0
  IsInapplicable u = u.is_applicable kyma w ≡ ok false

  -- An outcome that changes neither the Kyma nor the world.
  abbrev pub stopped : Option UseCaseName → Error → Outcome W
  stopped name e = record {
    kyma = kyma;
    world = w;
    result = record { use_case = name; error = some e };
  }

  -- Delete as a relation: it goes past inapplicable use cases only, and acts on the first other.
  pub data Selects (steps : List (UseCase W)) (out : Outcome W) : Type 0 where
    exhausted :
        All IsInapplicable steps
        → out ≡ stopped none (sentinel no_use_case_applicable)
        → Selects steps out
    undecided :
        (before : List (UseCase W)) (u : UseCase W) (after : List (UseCase W)) (e : Error)
        → steps ≡ before ++ u ∷ after
        → All IsInapplicable before
        → u.is_applicable kyma w ≡ err e
        → out ≡ stopped (some u.name) (join (sentinel unable_to_determine_usecase_applicability) e)
        → Selects steps out
    executed :
        (before : List (UseCase W)) (u : UseCase W) (after : List (UseCase W))
        → steps ≡ before ++ u ∷ after
        → All IsInapplicable before
        → u.is_applicable kyma w ≡ ok true
        → out ≡ u.execute kyma w
        → Selects steps out

  Selects-skip :
      (u : UseCase W) (steps : List (UseCase W)) (out : Outcome W)
      → IsInapplicable u
      → Selects steps out
      → Selects (u ∷ steps) out
  Selects-skip u steps out h (exhausted all e) = exhausted (h, all) e
  Selects-skip u steps out h (undecided before v after d e all a o) =
      undecided (u ∷ before) v after d (ap (λ l. u ∷ l) e) (h, all) a o
  Selects-skip u steps out h (executed before v after e all a o) =
      executed (u ∷ before) v after (ap (λ l. u ∷ l) e) (h, all) a o

  visit_err :
      (u : UseCase W) (rest : Outcome W) (e : Error)
      → u.is_applicable kyma w ≡ err e
      → visit u kyma w rest
        ≡ stopped (some u.name) (join (sentinel unable_to_determine_usecase_applicability) e)
  unfolding visit
  visit_err u rest e h = rw (h, visit)

  visit-true :
      (u : UseCase W) (rest : Outcome W)
      → u.is_applicable kyma w ≡ ok true
      → visit u kyma w rest ≡ u.execute kyma w
  unfolding visit
  visit-true u rest h = rw (h, visit)

  pub visit-false :
      (u : UseCase W) (rest : Outcome W) → IsInapplicable u → visit u kyma w rest ≡ rest
  unfolding visit
  visit-false u rest h = rw (h, visit)

  Selects-visit :
      (u : UseCase W) (steps : List (UseCase W)) (rest : Outcome W) (a : Result Bool)
      → u.is_applicable kyma w ≡ a
      → Selects steps rest
      → Selects (u ∷ steps) (visit u kyma w rest)
  Selects-visit u steps rest (err e) h s = undecided [] u steps e refl tt h (visit_err u rest e h)
  Selects-visit u steps rest (ok true) h s = executed [] u steps refl tt h (visit-true u rest h)
  Selects-visit u steps rest (ok false) h s =
      rw (visit-false u rest h) (Selects-skip u steps rest h s)

  -- Every call of Delete passes inapplicable use cases only. It then runs the first other one and
  -- gives its outcome, or reports that its applicability cannot be determined, or, at the end of
  -- the list, that no use case is applicable. In the last two cases nothing changes.
  pub delete-Selects : (steps : List (UseCase W)) → Selects steps (delete steps kyma w)
  unfolding delete
  delete-Selects [] = exhausted tt refl
  delete-Selects (u ∷ steps) =
      Selects-visit u steps (delete steps kyma w) (u.is_applicable kyma w) refl
        (delete-Selects steps)

  -- Inapplicable use cases at the head are passed over.
  pub delete-append :
      (before after : List (UseCase W))
      → All IsInapplicable before
      → delete (before ++ after) kyma w ≡ delete after kyma w
  unfolding delete
  delete-append [] after h = refl
  delete-append (u ∷ before) after h =
      visit-false u (delete (before ++ after) kyma w) h.0 ∙ delete-append before after h.1

same_name→eq : (a b : UseCaseName) → same_name a b ≡ true → a ≡ b
same_name→eq a b h = ground arith

order_mismatches-some :
    (e : Error) (xs names : List UseCaseName) → order_mismatches (some e) xs names ≢ none
unfolding order_mismatches
order_mismatches-some e [] names h = cc
order_mismatches-some e (x ∷ xs) [] h = cc
order_mismatches-some e (x ∷ xs) (n ∷ names) h = elim (Bool-cases (same_name n x)) [
  | inl same ↦ order_mismatches-some e xs names (rw same at h)
  | inr other ↦ order_mismatches-some _ xs names (rw other at h)
]

order_mismatches-none :
    (xs names : List UseCaseName)
    → length names ≡ length xs
    → order_mismatches none xs names ≡ none
    → names ≡ xs
unfolding order_mismatches
order_mismatches-none [] [] l h = refl
order_mismatches-none [] (n ∷ names) l h = absurd (omega arith)
order_mismatches-none (x ∷ xs) [] l h = absurd (omega arith)
order_mismatches-none (x ∷ xs) (n ∷ names) l h = elim (Bool-cases (same_name n x)) [
  | inl same ↦
      cc (same_name→eq n x same, order_mismatches-none xs names (omega arith) (rw same at h))
  | inr other ↦ absurd (order_mismatches-some _ xs names (rw other at h))
]

order_mismatches_refl : (xs : List UseCaseName) → order_mismatches none xs xs ≡ none
unfolding order_mismatches
order_mismatches_refl [] = refl
order_mismatches_refl (x ∷ xs) = rw (==_refl (name_code x)) (order_mismatches_refl xs)

abbrev pub names_of : {W : Type 0} → Steps (UseCase W) → List UseCaseName
names_of s = map (λ (u : UseCase _). u.name) (deletion_steps s)

out_of_order-none : (e : Option Error) → out_of_order e ≡ none → e ≡ none
out_of_order-none e h = ground arith

enforce_none :
    (names : List UseCaseName)
    → length names ≡ 12
    → enforce_use_case_order names ≡ none
    → names ≡ expected_use_case_order
unfolding enforce_use_case_order
enforce_none names l h = order_mismatches-none _ names l (out_of_order-none _ h)

enforce_expected : enforce_use_case_order expected_use_case_order ≡ none
unfolding enforce_use_case_order
enforce_expected = ap out_of_order (order_mismatches_refl expected_use_case_order)

unless_error-none : {A : Type 0} (e : Option Error) (a : A) → unless_error e a ≡ ok a → e ≡ none
unless_error-none none a h = refl
unless_error-none (some e) a h = cc

-- NewService accepts its twelve use cases, and gives them in the order of its arguments, exactly
-- when their names in that order are the expected ones.
pub new_service_iff :
    {W : Type 0} (s : Steps (UseCase W))
    → (new_service s ≡ ok (deletion_steps s)) ↔ (names_of s ≡ expected_use_case_order)
unfolding new_service
new_service_iff s = (
  λ h. enforce_none (names_of s) refl (unless_error-none _ (deletion_steps s) h),
  λ h. ap (λ e. unless_error e (deletion_steps s)) (ap enforce_use_case_order h ∙ enforce_expected),
)

-- The composition root hands the use cases to NewService in the order that it wants, for all
-- repositories: composing the deletion service does not panic.
pub compose_service_ok :
    {W : Type 0} (lib : ErrorLib) (r : Repos W)
    → compose_service lib r ≡ ok (deletion_steps (composed_steps lib r))
unfolding compose_service new_service enforce_use_case_order order_mismatches
compose_service_ok lib r = refl
