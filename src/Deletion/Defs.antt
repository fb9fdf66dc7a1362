-- ===== src/Deletion/Defs.antt =====
-- internal/service/kyma/deletion/deletion_service.go, internal/result.
use lifecycle_manager.Prelude.{ℕ, Bool, List, [], ◌∷◌, Option, none, some, ◌==◌, if◌then◌else◌, map}
use lifecycle_manager.Errors.{
  Error, sentinel, wrap, join, Result, ok, err, no_use_case_applicable, use_cases_out_of_order,
  unable_to_determine_usecase_applicability,
}
use lifecycle_manager.Api.{Kyma}

-- internal/result/kyma/usecase
pub data UseCaseName : Type 0 where
  set_kcp_kyma_state_deleting set_skr_kyma_state_deleting delete_manifests : UseCaseName
  delete_watcher_certificate_setup delete_skr_webhook_resources : UseCaseName
  delete_skr_module_template_crd delete_skr_module_release_meta_crd : UseCaseName
  delete_skr_kyma delete_skr_kyma_crd delete_metrics : UseCaseName
  ensure_manifest_deletion drop_kyma_finalizer : UseCaseName

abbrev pub name_code : UseCaseName → ℕ
name_code set_kcp_kyma_state_deleting = 0
name_code set_skr_kyma_state_deleting = 1
name_code delete_manifests = 2
name_code delete_watcher_certificate_setup = 3
name_code delete_skr_webhook_resources = 4
name_code delete_skr_module_template_crd = 5
name_code delete_skr_module_release_meta_crd = 6
name_code delete_skr_kyma = 7
name_code delete_skr_kyma_crd = 8
name_code delete_metrics = 9
name_code ensure_manifest_deletion = 10
name_code drop_kyma_finalizer = 11

abbrev pub same_name : UseCaseName → UseCaseName → Bool
same_name a b = name_code a == name_code b

-- result.Result; the zero value of UseCase is `none`, and a nil error is `none`.
pub record DeletionResult : Type 0 where
  pub use_case : Option UseCaseName
  pub error : Option Error

-- What a call leaves: the Kyma in memory, the world, and the result.
pub record Outcome (W : Type 0) : Type 0 where
  pub kyma : Kyma
  pub world : W
  pub result : DeletionResult

-- The interface UseCase, over a world `W` of clusters and caches. IsApplicable only reads it.
pub record UseCase (W : Type 0) : Type 0 where
  pub name : UseCaseName
  pub is_applicable : Kyma → W → Result Bool
  pub execute : Kyma → W → Outcome W

module _ {W : Type 0} where
  -- What one use case decides for the loop of Delete, the rest of the loop being `rest`.
  unfoldable pub visit : UseCase W → Kyma → W → Outcome W → Outcome W
  visit step kyma w rest = elim (step.is_applicable kyma w) [
    | err e ↦ record {
      kyma = kyma;
      world = w;
      result = record {
        use_case = some step.name;
        error = some (join (sentinel unable_to_determine_usecase_applicability) e);
      };
    }
    | ok applicable ↦ if applicable then step.execute kyma w else rest
  ]

  -- (s *Service) Delete
  unfoldable pub delete : List (UseCase W) → Kyma → W → Outcome W
  unfolding visit
  delete [] kyma w = record {
    kyma = kyma;
    world = w;
    result = record { use_case = none; error = some (sentinel no_use_case_applicable) };
  }
  delete (step ∷ steps) kyma w = visit step kyma w (delete steps kyma w)

abbrev pub expected_use_case_order : List UseCaseName
expected_use_case_order =
    set_kcp_kyma_state_deleting ∷ set_skr_kyma_state_deleting ∷ delete_manifests
    ∷ delete_watcher_certificate_setup ∷ delete_skr_webhook_resources
    ∷ delete_skr_module_template_crd ∷ delete_skr_module_release_meta_crd ∷ delete_skr_kyma
    ∷ delete_skr_kyma_crd ∷ delete_metrics ∷ ensure_manifest_deletion ∷ drop_kyma_finalizer ∷ []

-- errors.Join(err, e)
abbrev pub join_error : Option Error → Error → Option Error
join_error none e = some e
join_error (some d) e = some (join d e)

-- The loop of enforceUseCaseOrder; the text of a mismatch is left out. In NewService the two lists
-- have one length.
unfoldable pub order_mismatches : Option Error → List UseCaseName → List UseCaseName → Option Error
order_mismatches e [] names = e
order_mismatches e (x ∷ xs) [] = e
order_mismatches e (x ∷ xs) (n ∷ names) =
    order_mismatches
      (if same_name n x
        then e
        else join_error e (wrap "unexpected use case" (sentinel use_cases_out_of_order)))
      xs names

abbrev pub out_of_order : Option Error → Option Error
out_of_order none = none
out_of_order (some e) = some (join (sentinel use_cases_out_of_order) e)

-- (s *Service) enforceUseCaseOrder
unfoldable pub enforce_use_case_order : List UseCaseName → Option Error
enforce_use_case_order names = out_of_order (order_mismatches none expected_use_case_order names)

-- `if err != nil { return nil, err }; return value, nil`
abbrev pub unless_error {ℓ} : {A : Type ℓ} → Option Error → A → Result A
unless_error none a = ok a
unless_error (some e) a = err e

-- The twelve arguments of NewService, in its order.
pub record Steps (A : Type 0) : Type 0 where
  pub set_kcp_kyma_state_deleting : A
  pub set_skr_kyma_state_deleting : A
  pub delete_manifests : A
  pub delete_watcher_certificate_setup : A
  pub delete_skr_webhook_resources : A
  pub delete_skr_mt_crd : A
  pub delete_skr_mrm_crd : A
  pub delete_skr_kyma : A
  pub delete_skr_kyma_crd : A
  pub delete_metrics : A
  pub ensure_manifest_deletion : A
  pub drop_kyma_finalizers : A

abbrev pub deletion_steps : {A : Type 0} → Steps A → List A
deletion_steps s =
    s.set_kcp_kyma_state_deleting ∷ s.set_skr_kyma_state_deleting ∷ s.delete_manifests
    ∷ s.delete_watcher_certificate_setup ∷ s.delete_skr_webhook_resources ∷ s.delete_skr_mt_crd
    ∷ s.delete_skr_mrm_crd ∷ s.delete_skr_kyma ∷ s.delete_skr_kyma_crd ∷ s.delete_metrics
    ∷ s.ensure_manifest_deletion ∷ s.drop_kyma_finalizers ∷ []

-- NewService
unfoldable pub new_service : {W : Type 0} → Steps (UseCase W) → Result (List (UseCase W))
new_service s =
    unless_error (enforce_use_case_order (map (λ (u : UseCase _). u.name) (deletion_steps s)))
      (deletion_steps s)
