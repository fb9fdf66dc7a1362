-- ===== src/Certificates/Renewal.antt =====
-- internal/service/watcher/certificate: certificate_service.go, name and secret/data.
use lifecycle_manager.Prelude.{
  ℕ, ◌+◌, ltb, String, str_eq, append_text, Bool, true, false, List, [], ◌∷◌, ◌++◌, map, Option,
  none, some, lookup, if◌then◌else◌,
}
use lifecycle_manager.Errors.{
  Error, sentinel, wrap, errors_is, Result, ok, err, cert_validity_not_available,
  domain_annotation_missing, domain_annotation_empty,
  gateway_secret_missing_bundling_time_annotation, secret_data_missing,
}
use lifecycle_manager.Api.{Kyma}
use lifecycle_manager.Certificates.Bundles.{Bytes, ◌>>=◌, wrapping}
use lifecycle_manager.Certificates.Gateway.{
  Secret, ca_crt, tls_crt, tls_key, ca_added_to_bundle_at_annotation, wrapped,
}

abbrev pub skr_domain_annotation : String
skr_domain_annotation = "skr-domain"

abbrev pub runtime_id_label : String
runtime_id_label = "kyma-project.io/runtime-id"

-- name.SkrCertificate
abbrev pub certificate_name : String → String
certificate_name kyma_name = append_text kyma_name "-webhook-tls"

-- The interfaces CertificateRepository and SecretRepository; GetValidity gives NotBefore and
-- NotAfter, in nanoseconds from the zero time.
pub record Repositories : Type 0 where
  pub create : (name common_name : String) → (dns_names : List String) → Option Error
  pub delete_certificate : (name : String) → Option Error
  pub renew : (name : String) → Option Error
  pub get_validity : (name : String) → Result (ℕ × ℕ)
  pub get_secret : (name : String) → Result Secret
  pub delete_secret : (name : String) → Option Error
  pub parse_time : String → Result ℕ

pub record CertificateConfig : Type 0 where
  pub skr_service_name : String
  pub skr_namespace : String
  pub additional_dns_names : List String
  pub gateway_secret_name : String
  pub renew_buffer : ℕ

-- The calls of the service that change something.
pub data CertificateCall : Type 0 where
  create_certificate : (name common_name : String) → (dns_names : List String) → CertificateCall
  delete_certificate delete_certificate_secret renew_certificate : (name : String) → CertificateCall

abbrev pub CertificateRun : Type 0
CertificateRun = List CertificateCall × Option Error

pub record CertificateSecretData : Type 0 where
  pub tls_cert : Bytes
  pub tls_private_key : Bytes

-- NewCertificateSecretData and NewGatewaySecretData, on a secret that is not nil.
unfoldable pub new_certificate_secret_data : Secret → Result CertificateSecretData
new_certificate_secret_data s = elim (lookup tls_crt s.contents) [
  | none ↦ err (wrap "error in certificate secret" (sentinel secret_data_missing))
  | some cert ↦ elim (lookup tls_key s.contents) [
    | none ↦ err (wrap "error in certificate secret" (sentinel secret_data_missing))
    | some key ↦ ok (record { tls_cert = cert; tls_private_key = key })
  ]
]

unfoldable pub new_gateway_secret_data : Secret → Result Bytes
new_gateway_secret_data s = elim (lookup ca_crt s.contents) [
  | none ↦ err (wrap "error in gateway secret" (sentinel secret_data_missing))
  | some cert ↦ ok cert
]

module _ (repos : Repositories) (config : CertificateConfig) where
  abbrev pub service_name : String → String
  service_name suffix =
      append_text config.skr_service_name
        (append_text "." (append_text config.skr_namespace (append_text "." suffix)))

  unfoldable pub construct_dns_names : Kyma → Result (List String)
  construct_dns_names kyma = elim (lookup skr_domain_annotation kyma.meta.annotations) [
    | none ↦ err (wrap kyma.meta.name (sentinel domain_annotation_missing))
    | some skr_domain ↦
        if str_eq skr_domain ""
        then err (wrap kyma.meta.name (sentinel domain_annotation_empty))
        else ok (
            (skr_domain ∷ config.additional_dns_names)
            ++ map service_name ("svc.cluster.local" ∷ "svc" ∷ []))
  ]

  abbrev pub get_runtime_id : Kyma → String
  get_runtime_id kyma = elim (lookup runtime_id_label kyma.meta.labels) [ none ↦ "" | some id ↦ id ]

  unfoldable pub create_skr_certificate : Kyma → CertificateRun
  unfolding construct_dns_names
  create_skr_certificate kyma = elim (construct_dns_names kyma) [
    | err e ↦ ([], some (wrap "failed to construct DNS names" e))
    | ok dns_names ↦
        let name = certificate_name kyma.meta.name in
        let common_name = get_runtime_id kyma in
        (
          create_certificate name common_name dns_names ∷ [],
          wrapped "failed to create SKR certificate" (repos.create name common_name dns_names),
        )
  ]

  unfoldable pub delete_skr_certificate : (kyma_name : String) → CertificateRun
  delete_skr_certificate kyma_name =
      let name = certificate_name kyma_name in
      elim (repos.delete_certificate name) [
        | some e ↦ (delete_certificate name ∷ [], some (wrap "failed to delete SKR certificate" e))
        | none ↦ (
          delete_certificate name ∷ delete_certificate_secret name ∷ [],
          wrapped "failed to delete SKR certificate secret" (repos.delete_secret name),
        )
      ]

  unfoldable pub get_gateway_secret_ca_bundle_extended_at_time : Result ℕ
  get_gateway_secret_ca_bundle_extended_at_time =
      elim (repos.get_secret config.gateway_secret_name) [
        | err e ↦ err (wrap "failed to get gateway secret" e)
        | ok s ↦ elim (lookup ca_added_to_bundle_at_annotation s.annotations) [
          | none ↦ err (sentinel gateway_secret_missing_bundling_time_annotation)
          | some value ↦
              wrapping "failed to parse gateway secret caAddedToBundleAt annotation"
                (repos.parse_time value)
        ]
      ]

  unfoldable pub skr_certificate_needs_renewal : (cert_name : String) → Result Bool
  unfolding get_gateway_secret_ca_bundle_extended_at_time
  skr_certificate_needs_renewal cert_name = elim (repos.get_validity cert_name) [
    | err e ↦
        if errors_is e cert_validity_not_available
        then ok false
        else err (wrap "failed to determine SKR client certificate validity" e)
    | ok (not_before, not_after) ↦ elim get_gateway_secret_ca_bundle_extended_at_time [
      | err e ↦ err (wrap "failed to determine gateway secret caAddedToBundleAt" e)
      | ok extended_at ↦ ok (ltb not_before extended_at)
    ]
  ]

  unfoldable pub renew_skr_certificate : (kyma_name : String) → CertificateRun
  unfolding skr_certificate_needs_renewal
  renew_skr_certificate kyma_name =
      let name = certificate_name kyma_name in
      elim (skr_certificate_needs_renewal name) [
        | err e ↦ ([], some (wrap "failed to determine if SKR certificate needs renewal" e))
        | ok needed ↦
            if needed
            then (
              renew_certificate name ∷ [],
              wrapped "failed to renew SKR certificate" (repos.renew name),
            )
            else ([], none)
      ]

  -- IsSkrCertificateRenewalOverdue, whose Boolean counts for its caller also beside an error.
  unfoldable pub is_skr_certificate_renewal_overdue :
      (now : ℕ) → (kyma_name : String) → Bool × Option Error
  unfolding skr_certificate_needs_renewal get_gateway_secret_ca_bundle_extended_at_time
  is_skr_certificate_renewal_overdue now kyma_name =
      elim (skr_certificate_needs_renewal (certificate_name kyma_name)) [
        | err e ↦ (true, some (wrap "failed to determine if SKR certificate needs renewal" e))
        | ok needed ↦
            if needed
            then elim get_gateway_secret_ca_bundle_extended_at_time [
              | err e ↦ (true, some (wrap "failed to determine gateway secret caAddedToBundleAt" e))
              | ok extended_at ↦ (ltb (extended_at + config.renew_buffer) now, none)
            ]
            else (false, none)
      ]

  unfoldable pub get_skr_certificate_secret : (kyma_name : String) → Result Secret
  get_skr_certificate_secret kyma_name =
      wrapping "failed to get SKR certificate secret"
        (repos.get_secret (certificate_name kyma_name))

  unfoldable pub get_skr_certificate_secret_data :
      (kyma_name : String) → Result CertificateSecretData
  unfolding get_skr_certificate_secret new_certificate_secret_data
  get_skr_certificate_secret_data kyma_name =
      get_skr_certificate_secret kyma_name >>= new_certificate_secret_data

  unfoldable pub get_gateway_certificate_secret_data : Result Bytes
  unfolding new_gateway_secret_data
  get_gateway_certificate_secret_data =
      wrapping "failed to get gateway certificate secret"
        (repos.get_secret config.gateway_secret_name)
      >>= new_gateway_secret_data
