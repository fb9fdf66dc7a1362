-- ===== src/Errors/Defs.antt =====
-- Go's error values. A package-level `errors.New` is a constructor of `Sentinel`.
use lifecycle_manager.Prelude.{
  ℕ, String, Bool, false, ◌||◌, ◌==◌, Option, none, some, ◌≡◌, refl, ◌⊎◌, inl, inr,
}

pub data Sentinel : Type 0 where
  -- internal/errors, internal/errors/kyma/deletion
  skr_client_not_found no_use_case_applicable : Sentinel
  -- internal/service/kyma/deletion
  unable_to_determine_usecase_applicability use_cases_out_of_order : Sentinel
  failed_to_determine_watcher_cleanup_applicability : Sentinel
  failed_to_delete_watcher_skr_certificate failed_to_delete_watcher_skr_secret : Sentinel
  failed_to_determine_applicability failed_to_remove_skr_webhook_resources : Sentinel
  -- internal/service/accessmanager
  access_secret_not_found : Sentinel
  -- internal/manifest, internal/service/manifest, internal/controller/manifest
  requeue_required object_has_empty_state orphaned_manifest : Sentinel
  waiting_for_module_crs_deletion inject_data_from_kcp deletion_not_finished : Sentinel
  manager_in_error_state state_require_update : Sentinel
  resource_sync_diff_in_same_oci_layer label_not_found : Sentinel
  warning_resource_sync_state_diff : Sentinel
  -- pkg/util
  client_unauthorized client_tls_cert_expired : Sentinel
  -- maintenancewindows/resolver, internal/maintenancewindows
  unknown_option no_window_in_policies no_window_found : Sentinel
  no_maintenance_window_policy_configured : Sentinel
  -- pkg/templatelookup
  invalid_module_in_spec invalid_module_in_status : Sentinel
  template_not_allowed template_update_not_allowed no_module_release_meta : Sentinel
  mandatory_module_cannot_be_enabled : Sentinel
  channel_not_found no_channels_found no_mandatory_found : Sentinel
  module_release_meta_required waiting_for_next_maintenance_window : Sentinel
  failed_to_determine_if_maintenance_window_is_active no_templates_in_list_result : Sentinel
  -- internal/service/restrictedmodule
  selector_parse : Sentinel
  -- internal/service/kyma/status/modules
  function_called_with_nil_error nil_kyma module_needs_template_info : Sentinel
  module_needs_template_error_or_template module_needs_manifest : Sentinel
  -- pkg/module/sync, pkg/common
  manifest_ssa_failed type_assert : Sentinel
  -- internal/controller/kyma
  manifests_still_exist invalid_kyma_spec kyma_in_error_state : Sentinel
  -- internal/remote, pkg/watcher
  not_found_and_kcp_kyma_under_deleting skr_certificate_not_ready : Sentinel
  skr_webhook_deployment_in_backoff : Sentinel
  -- internal/service/watcher/certificate, internal/gatewaysecret, internal/controller
  invalid_pem failed_to_parse_x509 x509_not_after_is_zero : Sentinel
  gateway_secret_missing_bundle_time_annotation server_certificate_parsing_failure : Sentinel
  gateway_secret_missing_bundling_time_annotation invalid_gateway_secret : Sentinel
  root_secret_not_found cert_validity_not_available : Sentinel
  domain_annotation_empty domain_annotation_missing secret_data_missing : Sentinel
  -- internal/remote, internal/service/skrsync
  cat_module_templates_apply module_template_cleanup : Sentinel
  cat_module_release_metas_apply module_release_meta_cleanup crd_sync : Sentinel
  image_pull_secret_not_configured image_pull_secret_not_found : Sentinel
  failed_to_sync_image_pull_secret : Sentinel
  -- internal/errors/mandatorymodule
  skip_reconcile_kyma kyma_being_deleted mrm_not_in_deleting_state : Sentinel

-- A sentinel is compared by its identity.
abbrev pub identity : Sentinel → ℕ
identity skr_client_not_found = 0
identity no_use_case_applicable = 1
identity unable_to_determine_usecase_applicability = 2
identity use_cases_out_of_order = 3
identity failed_to_determine_watcher_cleanup_applicability = 4
identity failed_to_delete_watcher_skr_certificate = 5
identity failed_to_delete_watcher_skr_secret = 6
identity failed_to_determine_applicability = 7
identity failed_to_remove_skr_webhook_resources = 8
identity access_secret_not_found = 9
identity requeue_required = 10
identity object_has_empty_state = 11
identity orphaned_manifest = 12
identity waiting_for_module_crs_deletion = 13
identity inject_data_from_kcp = 14
identity deletion_not_finished = 15
identity manager_in_error_state = 16
identity state_require_update = 17
identity resource_sync_diff_in_same_oci_layer = 18
identity label_not_found = 19
identity client_unauthorized = 20
identity client_tls_cert_expired = 21
identity unknown_option = 22
identity no_window_in_policies = 23
identity no_window_found = 24
identity no_maintenance_window_policy_configured = 25
identity invalid_module_in_spec = 26
identity invalid_module_in_status = 27
identity template_not_allowed = 28
identity template_update_not_allowed = 29
identity no_module_release_meta = 30
identity mandatory_module_cannot_be_enabled = 31
identity channel_not_found = 32
identity no_channels_found = 33
identity no_mandatory_found = 34
identity module_release_meta_required = 35
identity waiting_for_next_maintenance_window = 36
identity failed_to_determine_if_maintenance_window_is_active = 37
identity no_templates_in_list_result = 38
identity selector_parse = 39
identity warning_resource_sync_state_diff = 40
identity function_called_with_nil_error = 41
identity nil_kyma = 42
identity module_needs_template_info = 43
identity module_needs_template_error_or_template = 44
identity module_needs_manifest = 45
identity manifest_ssa_failed = 46
identity type_assert = 47
identity manifests_still_exist = 48
identity invalid_kyma_spec = 49
identity kyma_in_error_state = 50
identity not_found_and_kcp_kyma_under_deleting = 51
identity skr_certificate_not_ready = 52
identity skr_webhook_deployment_in_backoff = 53
identity invalid_pem = 54
identity failed_to_parse_x509 = 55
identity x509_not_after_is_zero = 56
identity gateway_secret_missing_bundle_time_annotation = 57
identity server_certificate_parsing_failure = 58
identity gateway_secret_missing_bundling_time_annotation = 59
identity invalid_gateway_secret = 60
identity root_secret_not_found = 61
identity cert_validity_not_available = 62
identity domain_annotation_empty = 63
identity domain_annotation_missing = 64
identity skip_reconcile_kyma = 65
identity kyma_being_deleted = 66
identity mrm_not_in_deleting_state = 67
identity secret_data_missing = 68
identity cat_module_templates_apply = 69
identity module_template_cleanup = 70
identity cat_module_release_metas_apply = 71
identity module_release_meta_cleanup = 72
identity crd_sync = 73
identity image_pull_secret_not_configured = 74
identity image_pull_secret_not_found = 75
identity failed_to_sync_image_pull_secret = 76

-- `foreign n` is an error value of a library, `wrap` is fmt.Errorf with one %w, and `join` is
-- errors.Join or fmt.Errorf with two.
pub data Error : Type 0 where
  sentinel : Sentinel → Error
  foreign : ℕ → Error
  wrap : String → Error → Error
  join : Error → Error → Error

-- errors.Is against a sentinel.
abbrev pub errors_is : Error → Sentinel → Bool
errors_is (sentinel t) s = identity t == identity s
errors_is (foreign n) s = false
errors_is (wrap m e) s = errors_is e s
errors_is (join a b) s = errors_is a s || errors_is b s

-- errors.Is on a result that may be nil.
abbrev pub is_error : Option Error → Sentinel → Bool
is_error none s = false
is_error (some e) s = errors_is e s

-- Go's pair of a value and an error, where the value counts only if the error is nil.
pub data Result {ℓ} (A : Type ℓ) : Type ℓ where
  ok : A → Result A
  err : Error → Result A

-- To split on a result and keep the equation.
pub Result-cases {ℓ} :
    {A : Type ℓ} (r : Result A) → ((a : A) × (r ≡ ok a)) ⊎ ((e : Error) × (r ≡ err e))
Result-cases (ok a) = inl (a, refl)
Result-cases (err e) = inr (e, refl)
