-- ===== src/Certificates/Tests.antt =====
-- A gateway secret in the course of two reconciliations.
use lifecycle_manager.Prelude.{
  ℕ, ◌+◌, ◌<◌, ◌≡◌, ◌≢◌, ◌↔◌, refl, ap, true, false, [], ◌∷◌, ◌++◌, none, some, same_text, arith,
}
use lifecycle_manager.Errors.{Error, ok, err}
use lifecycle_manager.Certificates.Bundles.{Bytes, decode_certs_to_pem, encode_pem_to_bytes}
use lifecycle_manager.Certificates.Gateway.{Secret, GatewayCall, manage_gateway_secret, rotate}
use lifecycle_manager.Certificates.Encoding.{decode_certs_to_pem-encode_pem_to_bytes}
use lifecycle_manager.Certificates.Trusted.{
  Reachable, unstored, reconciled, StoredTrusted, Reachable-StoredTrusted,
}
use lifecycle_manager.Certificates.Gateway.{get_ca_bundled_at}
use lifecycle_manager.Certificates.Kept.{Has}
use lifecycle_manager.Certificates.Renewal.{
  Repositories, CertificateConfig, CertificateCall, renew_skr_certificate,
  is_skr_certificate_renewal_overdue,
}
use lifecycle_manager.Certificates.Overdue.{IssuedBefore, is_skr_certificate_renewal_overdue_iff}
use lifecycle_manager.Certificates.Grace.{rotate_announced}
-- The first n bytes and the others, if there are as many.
use lifecycle_manager.Certificates.Sample.{
  plain, pem, lib, times, laws, root, config, clock, missing, finds,
}

abbrev gateway : (bundle tls : Bytes) → (at : ℕ) → Secret
gateway bundle tls at = record {
  name = "klm-istio-gateway";
  namespace = "istio-system";
  annotations = ("caAddedToBundleAt", lib.format_time at) ∷ [];
  contents = ("tls.crt", tls) ∷ ("tls.key", 7 ∷ []) ∷ ("ca.crt", bundle) ∷ [];
}

abbrev old_cert : Bytes
old_cert = 1 ∷ 900000000000 ∷ []

abbrev new_cert : Bytes
new_cert = 1 ∷ 990000000000 ∷ []

abbrev old_root : Secret
old_root = root 900000000000

abbrev new_root : Secret
new_root = root 990000000000

abbrev bundled : Secret
bundled = gateway (new_cert ++ old_cert) old_cert 110000000000

abbrev switched : Secret
switched = gateway (new_cert ++ old_cert) new_cert 110000000000

-- The new certificate is bundled, and presented when the grace period is over.
created_test :
    manage_gateway_secret lib config (clock 100000000000) missing old_root
    ≡ (GatewayCall.create_secret (gateway old_cert old_cert 100000000000) ∷ [], none)
unfolding manage_gateway_secret
created_test = refl

bundled_test :
    rotate lib config (clock 110000000000) (gateway old_cert old_cert 100000000000) new_root
    ≡ ok (gateway (new_cert ++ old_cert) old_cert 110000000000)
unfolding rotate
bundled_test = refl

switched_test :
    rotate lib config
      (clock 116000000000)
      (gateway (new_cert ++ old_cert) old_cert 110000000000)
      new_root
    ≡ ok (gateway (new_cert ++ old_cert) new_cert 110000000000)
unfolding rotate
switched_test = refl

-- When the old certificate has expired, it is dropped.
dropped_test :
    rotate lib config
      (clock 950000000000)
      (gateway (new_cert ++ old_cert) new_cert 110000000000)
      new_root
    ≡ ok (gateway new_cert new_cert 110000000000)
unfolding rotate
dropped_test = refl

-- The creation, and a reconciliation with the new root certificate behind it.
course : Reachable lib laws (some bundled) 110000000000
unfolding manage_gateway_secret decode_certs_to_pem
course =
    reconciled
      (reconciled (unstored 0) missing config (clock 100000000000) old_root
        (λ gw h. absurd (no_secret h)) (omega arith)
        (plain old_cert_bytes, [], (refl, ((refl, refl), tt)), refl))
      (finds (gateway old_cert old_cert 100000000000)) config (clock 110000000000) new_root
      (λ gw h. ap some (ok_secret h)) (omega arith)
      (plain new_cert_bytes, [], (refl, ((refl, refl), tt)), refl)
  where
    old_cert_bytes : Bytes
    old_cert_bytes = 900000000000 ∷ []

    new_cert_bytes : Bytes
    new_cert_bytes = 990000000000 ∷ []

    no_secret : {e : Error} {s : Secret} → err e ≢ ok s
    no_secret h = cc

    ok_secret : {s t : Secret} → ok s ≡ ok t → s ≡ t
    ok_secret h = cc

Reachable-StoredTrusted_example : StoredTrusted lib laws (some bundled) 110000000000
Reachable-StoredTrusted_example = Reachable-StoredTrusted lib laws course

decode_certs_to_pem-encode_pem_to_bytes_example :
    decode_certs_to_pem pem (encode_pem_to_bytes pem (plain (1 ∷ []) ∷ plain [] ∷ []))
    ≡ ok (plain (1 ∷ []) ∷ plain [] ∷ [])
decode_certs_to_pem-encode_pem_to_bytes_example =
    decode_certs_to_pem-encode_pem_to_bytes pem laws (plain (1 ∷ []) ∷ plain [] ∷ [])
      ((refl, refl), ((refl, refl), tt))

rotate_announced_example :
    (at : ℕ) × (get_ca_bundled_at lib config (clock 116000000000) bundled ≡ ok at)
    × (at + 5000000000 < 116000000000)
    × Has (990000000000 ∷ []) (plain (990000000000 ∷ []) ∷ plain (900000000000 ∷ []) ∷ [])
unfolding rotate decode_certs_to_pem
rotate_announced_example =
    rotate_announced lib times config (clock 116000000000) bundled new_root switched
      (plain (990000000000 ∷ []) ∷ plain (900000000000 ∷ []) ∷ []) (plain (990000000000 ∷ [])) []
      (refl, ((refl, refl), ((refl, refl), tt))) refl (omega arith) refl changed
  where
    changed : new_cert ≢ old_cert
    changed h = let bad : true ≡ false = ap (same_text new_cert) h in cc

abbrev repos : Repositories
repos = record {
  create = λ name common_name dns_names. none;
  delete_certificate = λ name. none;
  renew = λ name. none;
  get_validity = λ name. ok (100000000000, 900000000000);
  get_secret = λ name. ok bundled;
  delete_secret = λ name. none;
  parse_time = lib.parse_time;
}

abbrev certificates : CertificateConfig
certificates = record {
  skr_service_name = "watcher";
  skr_namespace = "kyma-system";
  additional_dns_names = [];
  gateway_secret_name = "klm-istio-gateway";
  renew_buffer = 5000000000;
}

is_skr_certificate_renewal_overdue_iff_example :
    (is_skr_certificate_renewal_overdue repos certificates 120000000000 "kyma" ≡ (true, none))
    ↔ ((at : ℕ) × IssuedBefore repos certificates "kyma" at × (at + 5000000000 < 120000000000))
is_skr_certificate_renewal_overdue_iff_example =
    is_skr_certificate_renewal_overdue_iff repos certificates "kyma" 120000000000

overdue_test :
    is_skr_certificate_renewal_overdue repos certificates 120000000000 "kyma" ≡ (true, none)
unfolding is_skr_certificate_renewal_overdue
overdue_test = refl

in_time_test :
    is_skr_certificate_renewal_overdue repos certificates 115000000000 "kyma" ≡ (false, none)
unfolding is_skr_certificate_renewal_overdue
in_time_test = refl

renew_test :
    renew_skr_certificate repos certificates "kyma"
    ≡ (CertificateCall.renew_certificate "kyma-webhook-tls" ∷ [], none)
unfolding renew_skr_certificate
renew_test = refl
