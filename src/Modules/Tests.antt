-- ===== src/Modules/Tests.antt =====
-- The names and the manifests of the sample modules.
use lifecycle_manager.Prelude.{
  ℕ, zero, suc, ◌≤◌, ◌%◌, ◌+◌, ◌≡◌, refl, inl, inr, true, false, List, [], ◌∷◌, none, some, All,
  Member, length, arith,
}
use lifecycle_manager.Errors.{Error, sentinel, foreign, ok, err, template_not_allowed}
use lifecycle_manager.Samples.{
  sample_kyma, sample_common, sample_info, sample_manifest, sample_errors,
}
use lifecycle_manager.Modules.Defs.{CommonModule}
use lifecycle_manager.Modules.Names.{after_last_slash, create_module_name}
use lifecycle_manager.Modules.Labels.{is_digit, IsLabel, create_module_name-IsLabel}
use lifecycle_manager.Modules.Collisions.{create_module_name_collides}
use lifecycle_manager.Modules.Sync.{SyncCall, Runner}
use lifecycle_manager.Modules.Runner.{reconcile_manifests}
use lifecycle_manager.Modules.Permitted.{PermittedFor, reconcile_manifests-PermittedFor}
use lifecycle_manager.Modules.Deleted.{reconcile_manifests_deleted}

-- The last digit of the sum of the bytes.
abbrev sum : List ℕ → ℕ
sum [] = 0
sum (c ∷ s) = (c + sum s) % 10

abbrev digit : ℕ → List ℕ
digit n = (48 + n % 10) ∷ []

-- "d/a-b", "k1" and "m"
abbrev component : List ℕ
component = 100 ∷ 47 ∷ 97 ∷ 45 ∷ 98 ∷ []

abbrev prefix : List ℕ
prefix = 107 ∷ 49 ∷ []

name_test :
    create_module_name sum digit component prefix (109 ∷ [])
    ≡ 107 ∷ 49 ∷ 45 ∷ 97 ∷ 45 ∷ 98 ∷ 45 ∷ 54 ∷ []
unfolding create_module_name
name_test = refl

digit_lem : (n : ℕ) → (1 ≤ length (digit n)) × All (λ c. is_digit c ≡ true) (digit n)
digit_lem n = (omega arith, (ground arith, tt))

create_module_name-IsLabel_example :
    IsLabel (create_module_name sum digit component prefix (109 ∷ []))
    × (length (create_module_name sum digit component prefix (109 ∷ [])) ≤ 62)
unfolding after_last_slash
create_module_name-IsLabel_example =
    create_module_name-IsLabel sum digit component prefix (109 ∷ []) refl (refl, (refl, tt))
      (refl, (refl, (refl, tt))) digit_lem

-- A prefix of 60 bytes.
abbrev repeated : ℕ → List ℕ
repeated zero = []
repeated (suc n) = 107 ∷ repeated n

abbrev long_prefix : List ℕ
long_prefix = repeated 60

create_module_name_collides_example :
    create_module_name sum digit component long_prefix (109 ∷ [])
    ≡ create_module_name sum digit component long_prefix (110 ∷ [])
unfolding after_last_slash
create_module_name_collides_example =
    create_module_name_collides sum digit component component long_prefix (109 ∷ []) (110 ∷ []) refl
      (omega arith)

abbrev runner : Runner
runner = record {
  errors = sample_errors;
  has_owner_references = λ m. false;
  set_controller_reference = λ kyma m. ok m;
  convert = λ m. ok (some m);
  get = λ name namespace calls. err (foreign 404);
  answer = λ call calls. ok (sample_manifest "answer");
}

abbrev refusal : Error
refusal = sentinel template_not_allowed

abbrev refused : CommonModule
refused = sample_common "btp" (some refusal)

abbrev modules : List CommonModule
modules = sample_common "serverless" none ∷ refused ∷ []

reconcile_manifests-PermittedFor_example :
    All
      (λ (call : SyncCall). (c : CommonModule) × Member c modules × PermittedFor c call)
      (reconcile_manifests runner sample_kyma modules []).0
reconcile_manifests-PermittedFor_example =
    reconcile_manifests-PermittedFor runner sample_kyma modules

calls_test : length (reconcile_manifests runner sample_kyma modules []).0 ≡ 2
unfolding reconcile_manifests
calls_test = refl

reconcile_manifests_deleted_example :
    (e : Error) × ((reconcile_manifests runner sample_kyma modules []).2 ≡ some e)
reconcile_manifests_deleted_example =
    reconcile_manifests_deleted runner sample_kyma modules refused (sample_manifest "btp")
      (sample_manifest "answer") (inr (inl refl))
      (sample_info "btp" (some refusal), refusal, refl, refl, refl) refl (λ before. refl)
