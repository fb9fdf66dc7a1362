-- ===== src/Deletion/UseCases.antt =====
-- internal/service/kyma/deletion/usecases, over the interfaces that those files declare, and the
-- composition of the service.
use Prim.Native.String.{◌++◌}
use lifecycle_manager.Prelude.{
  String, Bool, true, false, not, ◌&&◌, ◌||◌, Option, none, some, List, if◌then◌else◌,
}
use lifecycle_manager.Errors.{
  Error, sentinel, join, errors_is, Result, ok, err, ErrorLib, is_not_found, skr_client_not_found,
  failed_to_determine_watcher_cleanup_applicability, failed_to_delete_watcher_skr_certificate,
  failed_to_delete_watcher_skr_secret, failed_to_determine_applicability,
  failed_to_remove_skr_webhook_resources,
}
use lifecycle_manager.Api.{Kyma, State, deleting, state_eq, is_deleting, ObjectMeta, kyma_finalizer}
use lifecycle_manager.Deletion.Defs

-- types.NamespacedName
pub record NamespacedName : Type 0 where
  pub namespace : String
  pub name : String

abbrev pub get_namespaced_name : Kyma → NamespacedName
get_namespaced_name kyma = record { namespace = kyma.meta.namespace; name = kyma.meta.name }

-- The custom resource definitions that are removed from the SKR.
pub data SkrCrd : Type 0 where
  module_template_crd module_release_meta_crd kyma_crd : SkrCrd

-- The interfaces of the use cases: a read gives a value or an error, a write gives the world
-- after it and perhaps an error. UpdateStatusDeleting also changes the Kyma that it is given.
pub record Repos (W : Type 0) : Type 0 where
  pub contains_finalizer : ObjectMeta → String → Bool
  pub update_status_deleting : Kyma → W → Kyma × W × Option Error
  pub skr_kyma_state : NamespacedName → W → Result State
  pub set_state_deleting : NamespacedName → W → W × Option Error
  pub exist_for_kyma_without_deletion_timestamp : String → W → Result Bool
  pub delete_all_for_kyma : String → W → W × Option Error
  pub certificate_exists : String → W → Result Bool
  pub certificate_delete : String → W → W × Option Error
  pub secret_exists : String → W → Result Bool
  pub secret_delete : String → W → W × Option Error
  pub resources_exist : NamespacedName → W → Result Bool
  pub delete_webhook_resources : NamespacedName → W → W × Option Error
  pub crd_exists : SkrCrd → NamespacedName → W → Result Bool
  pub crd_delete : SkrCrd → NamespacedName → W → W × Option Error
  pub skr_kyma_exists : NamespacedName → W → Result Bool
  pub skr_kyma_delete : NamespacedName → W → W × Option Error
  pub has_metrics : String → W → Result Bool
  pub cleanup_metrics : String → W → W
  pub exist_for_kyma : String → W → Result Bool
  pub drop_finalizer : String → String → W → W × Option Error

-- internal/service/watcher/certificate/name
abbrev pub skr_certificate : String → String
skr_certificate kyma_name = kyma_name ++ "-webhook-tls"

-- An Execute that makes one write and hands its error on, wrapped by `f`.
abbrev pub finish :
    {W : Type 0} → Defs.UseCaseName → (Error → Error) → Kyma → W × Option Error → Defs.Outcome W
finish name f kyma (w, e) = record {
  kyma = kyma;
  world = w;
  result = record { use_case = some name; error = elim e [ none ↦ none | some d ↦ some (f d) ] };
}

-- `if errors.Is(err, ErrSkrClientNotFound) { return false, nil }`, and then `f` of the error.
abbrev pub unless_no_client : (Error → Error) → Result Bool → Result Bool
unless_no_client f (ok b) = ok b
unless_no_client f (err e) = if errors_is e skr_client_not_found then ok false else err (f e)

abbrev pub kyma_in_state_deleting : Kyma → Bool
kyma_in_state_deleting kyma = state_eq kyma.status.state deleting

module _ {W : Type 0} (lib : ErrorLib) (r : Repos W) where
  -- set_status_deleting.go
  abbrev pub set_kyma_status_deleting_use_case : Defs.UseCase W
  set_kyma_status_deleting_use_case = record {
    name = Defs.set_kcp_kyma_state_deleting;
    is_applicable = λ kyma w. ok (is_deleting kyma.meta && not (kyma_in_state_deleting kyma));
    execute = λ kyma w.
        let (kyma', w', e) = r.update_status_deleting kyma w in
        finish Defs.set_kcp_kyma_state_deleting (λ d. d) kyma' (w', e);
  }

  -- set_skr_kyma_state_deleting.go
  unfoldable pub skr_state_applicable : Result State → Result Bool
  unfolding is_not_found
  skr_state_applicable (ok state) = ok (not (state_eq state deleting))
  skr_state_applicable (err e) =
      if errors_is e skr_client_not_found || is_not_found lib (some e) then ok false else err e

  abbrev pub set_skr_kyma_state_deleting_use_case : Defs.UseCase W
  set_skr_kyma_state_deleting_use_case = record {
    name = Defs.set_skr_kyma_state_deleting;
    is_applicable = λ kyma w.
        if not (is_deleting kyma.meta)
        then ok false
        else skr_state_applicable (r.skr_kyma_state (get_namespaced_name kyma) w);
    execute = λ kyma w.
        finish Defs.set_skr_kyma_state_deleting (λ d. d) kyma
          (r.set_state_deleting (get_namespaced_name kyma) w);
  }

  -- delete_manifests.go
  abbrev pub delete_manifests_use_case : Defs.UseCase W
  delete_manifests_use_case = record {
    name = Defs.delete_manifests;
    is_applicable = λ kyma w. r.exist_for_kyma_without_deletion_timestamp kyma.meta.name w;
    execute = λ kyma w.
        finish Defs.delete_manifests (λ d. d) kyma (r.delete_all_for_kyma kyma.meta.name w);
  }

  -- delete_watcher_certificate_setup.go
  unfoldable pub watcher_setup_applicable : String → W → Result Bool
  watcher_setup_applicable name w = elim (r.certificate_exists name w) [
    | err e ↦ err (join (sentinel failed_to_determine_watcher_cleanup_applicability) e)
    | ok certificate_exists ↦
        if certificate_exists then ok true else elim (r.secret_exists name w) [
          | err e ↦ err (join (sentinel failed_to_determine_watcher_cleanup_applicability) e)
          | ok secret_exists ↦ ok secret_exists
        ]
  ]

  unfoldable pub delete_watcher_setup : Kyma → W × Option Error → Defs.Outcome W
  delete_watcher_setup kyma (w, some e) =
      finish Defs.delete_watcher_certificate_setup
        (join (sentinel failed_to_delete_watcher_skr_certificate)) kyma (w, some e)
  delete_watcher_setup kyma (w, none) =
      finish Defs.delete_watcher_certificate_setup
        (join (sentinel failed_to_delete_watcher_skr_secret)) kyma
        (r.secret_delete (skr_certificate kyma.meta.name) w)

  abbrev pub delete_watcher_certificate_setup_use_case : Defs.UseCase W
  delete_watcher_certificate_setup_use_case = record {
    name = Defs.delete_watcher_certificate_setup;
    is_applicable = λ kyma w.
        if not (is_deleting kyma.meta) || not (kyma_in_state_deleting kyma)
        then ok false
        else watcher_setup_applicable (skr_certificate kyma.meta.name) w;
    execute = λ kyma w.
        delete_watcher_setup kyma (r.certificate_delete (skr_certificate kyma.meta.name) w);
  }

  -- delete_skr_webhook_resources.go
  abbrev pub delete_skr_webhook_resources_use_case : Defs.UseCase W
  delete_skr_webhook_resources_use_case = record {
    name = Defs.delete_skr_webhook_resources;
    is_applicable = λ kyma w.
        if not (is_deleting kyma.meta) || not (kyma_in_state_deleting kyma)
        then ok false
        else unless_no_client (join (sentinel failed_to_determine_applicability))
            (r.resources_exist (get_namespaced_name kyma) w);
    execute = λ kyma w.
        finish Defs.delete_skr_webhook_resources
          (join (sentinel failed_to_remove_skr_webhook_resources)) kyma
          (r.delete_webhook_resources (get_namespaced_name kyma) w);
  }

  -- delete_skr_crd.go
  abbrev pub delete_skr_crd_use_case : SkrCrd → Defs.UseCaseName → Defs.UseCase W
  delete_skr_crd_use_case crd name = record {
    name = name;
    is_applicable = λ kyma w.
        if not (is_deleting kyma.meta)
        then ok false
        else unless_no_client (λ e. e) (r.crd_exists crd (get_namespaced_name kyma) w);
    execute = λ kyma w. finish name (λ d. d) kyma (r.crd_delete crd (get_namespaced_name kyma) w);
  }

  -- delete_skr_kyma.go
  abbrev pub delete_skr_kyma_use_case : Defs.UseCase W
  delete_skr_kyma_use_case = record {
    name = Defs.delete_skr_kyma;
    is_applicable = λ kyma w.
        if not (is_deleting kyma.meta)
        then ok false
        else unless_no_client (λ e. e) (r.skr_kyma_exists (get_namespaced_name kyma) w);
    execute = λ kyma w.
        finish Defs.delete_skr_kyma (λ d. d) kyma (r.skr_kyma_delete (get_namespaced_name kyma) w);
  }

  -- delete_metrics.go
  abbrev pub delete_metrics_use_case : Defs.UseCase W
  delete_metrics_use_case = record {
    name = Defs.delete_metrics;
    is_applicable = λ kyma w. r.has_metrics kyma.meta.name w;
    execute = λ kyma w.
        finish Defs.delete_metrics (λ d. d) kyma (r.cleanup_metrics kyma.meta.name w, none);
  }

  -- ensure_manifest_deletion.go: Execute does nothing, and so waits.
  abbrev pub ensure_manifest_deletion_use_case : Defs.UseCase W
  ensure_manifest_deletion_use_case = record {
    name = Defs.ensure_manifest_deletion;
    is_applicable = λ kyma w. r.exist_for_kyma kyma.meta.name w;
    execute = λ kyma w. finish Defs.ensure_manifest_deletion (λ d. d) kyma (w, none);
  }

  -- drop_kyma_finalizer.go
  abbrev pub drop_kyma_finalizer_use_case : Defs.UseCase W
  drop_kyma_finalizer_use_case = record {
    name = Defs.drop_kyma_finalizer;
    is_applicable = λ kyma w. ok (r.contains_finalizer kyma.meta kyma_finalizer);
    execute = λ kyma w.
        finish Defs.drop_kyma_finalizer (λ d. d) kyma
          (r.drop_finalizer kyma.meta.name kyma_finalizer w);
  }

  -- ComposeKymaDeletionService: the arguments that it gives to NewService.
  abbrev pub composed_steps : Defs.Steps (Defs.UseCase W)
  composed_steps = record {
    set_kcp_kyma_state_deleting = set_kyma_status_deleting_use_case;
    set_skr_kyma_state_deleting = set_skr_kyma_state_deleting_use_case;
    delete_manifests = delete_manifests_use_case;
    delete_watcher_certificate_setup = delete_watcher_certificate_setup_use_case;
    delete_skr_webhook_resources = delete_skr_webhook_resources_use_case;
    delete_skr_mt_crd =
        delete_skr_crd_use_case module_template_crd Defs.delete_skr_module_template_crd;
    delete_skr_mrm_crd =
        delete_skr_crd_use_case module_release_meta_crd Defs.delete_skr_module_release_meta_crd;
    delete_skr_kyma = delete_skr_kyma_use_case;
    delete_skr_kyma_crd = delete_skr_crd_use_case kyma_crd Defs.delete_skr_kyma_crd;
    delete_metrics = delete_metrics_use_case;
    ensure_manifest_deletion = ensure_manifest_deletion_use_case;
    drop_kyma_finalizers = drop_kyma_finalizer_use_case;
  }

  -- ComposeKymaDeletionService panics where this is an error.
  unfoldable pub compose_service : Result (List (Defs.UseCase W))
  unfolding Defs.new_service
  compose_service = Defs.new_service composed_steps
