-- ===== src/Certificates/Rotated.antt =====
-- The steps of ManageGatewaySecret on the secret that it has read.
use lifecycle_manager.Prelude.{
  ℕ, String, str_eq, ◌≡◌, refl, sym, ap, ◌∙◌, false, inl, inr, Option, none, some, lookup,
  lookup-insert, lookup-insert_other, if◌then◌else◌,
}
use lifecycle_manager.Errors.{ok, err, Result-cases, wrap}
use lifecycle_manager.Certificates.Bundles.{Bytes, bundle, drop_expired}
use lifecycle_manager.Certificates.Gateway.{
  Secret, GatewayLib, GatewayConfig, Clock, data_of, set_data, ca_crt, tls_crt,
  ca_added_to_bundle_at_annotation, bundle_ca_certs, drop_expired_certs_from_bundle,
  get_ca_bundled_at, requires_cert_switching, switch_certificate, rotate,
  set_ca_bundle_time_annotation_to_now,
}
use lifecycle_manager.Certificates.Kept.{behind}

pub data_of-set_data : (key : String) (b : Bytes) (s : Secret) → data_of key (set_data key b s) ≡ b
data_of-set_data key b s = rw (data_of, lookup-insert key b s.contents) refl

pub data_of-set_data_other :
    (key other : String) (b : Bytes) (s : Secret)
    → str_eq key other ≡ false
    → data_of other (set_data key b s) ≡ data_of other s
data_of-set_data_other key other b s h =
    rw (data_of, lookup-insert_other key other b s.contents h) refl

abbrev pub annotation_of : Secret → Option String
annotation_of s = lookup ca_added_to_bundle_at_annotation s.annotations

module _ (lib : GatewayLib) (config : GatewayConfig) (clock : Clock) (gw root : Secret) where
  -- What the annotation is behind the bundling: the time of the call, if a certificate was added.
  abbrev pub Annotated : Option Bytes → Secret → Type 0
  Annotated none s = annotation_of s ≡ annotation_of gw
  Annotated (some b) s = annotation_of s ≡ some (lib.format_time clock.annotated)

  -- The secret behind the bundling of the root certificate.
  abbrev pub Bundled : Secret → Type 0
  Bundled s =
      (out : Option Bytes) × (bundle lib.pem (data_of ca_crt gw) (data_of tls_crt root) ≡ ok out)
      × (data_of ca_crt s ≡ behind (data_of ca_crt gw) out)
      × (data_of tls_crt s ≡ data_of tls_crt gw)
      × Annotated out s

  -- The secret behind the dropping of expired certificates.
  abbrev pub Dropped : Secret → Secret → Type 0
  Dropped s t =
      (out : Option Bytes) × (drop_expired lib.pem clock.dropped (data_of ca_crt s) ≡ ok out)
      × (data_of ca_crt t ≡ behind (data_of ca_crt s) out)
      × (data_of tls_crt t ≡ data_of tls_crt s)
      × (annotation_of t ≡ annotation_of s)

  bundle-Bundled : (s : Secret) → bundle_ca_certs lib config clock gw root ≡ ok s → Bundled s
  unfolding bundle_ca_certs set_ca_bundle_time_annotation_to_now
  bundle-Bundled s h =
      elim (Result-cases (bundle lib.pem (data_of ca_crt gw) (data_of tls_crt root))) [
        | inl (none, e) ↦
            let both : ok gw ≡ ok s = rw (bundle_ca_certs, e) at h in
            let same : gw ≡ s = cc in
            (
              none,
              e,
              ap (data_of ca_crt) (sym same),
              ap (data_of tls_crt) (sym same),
              ap annotation_of (sym same),
            )
        | inl (some b, e) ↦
            let new = set_data ca_crt b gw in
            let both : ok (set_ca_bundle_time_annotation_to_now lib config clock new) ≡ ok s =
              rw (bundle_ca_certs, e) at h in
            let same : set_ca_bundle_time_annotation_to_now lib config clock new ≡ s = cc in
            (
              some b,
              e,
              ap (data_of ca_crt) (sym same) ∙ data_of-set_data ca_crt b gw,
              ap (data_of tls_crt) (sym same) ∙ data_of-set_data_other ca_crt tls_crt b gw refl,
              ap annotation_of (sym same)
                  ∙ lookup-insert ca_added_to_bundle_at_annotation (lib.format_time clock.annotated)
                      gw.annotations,
            )
        | inr (x, e) ↦
            let bad : err
                  (wrap "failed to bundle root secret's tls.crt into gateway secret's ca.crt" x)
                ≡ ok s =
              rw (bundle_ca_certs, e) at h in
            cc
      ]

  drop-Dropped :
      (s t : Secret) → drop_expired_certs_from_bundle lib config clock s ≡ ok t → Dropped s t
  unfolding drop_expired_certs_from_bundle
  drop-Dropped s t h = elim (Result-cases (drop_expired lib.pem clock.dropped (data_of ca_crt s))) [
    | inl (none, e) ↦
        let both : ok s ≡ ok t = rw (drop_expired_certs_from_bundle, e) at h in
        let same : s ≡ t = cc in
        (
          none,
          e,
          ap (data_of ca_crt) (sym same),
          ap (data_of tls_crt) (sym same),
          ap annotation_of (sym same),
        )
    | inl (some b, e) ↦
        let both : ok (set_data ca_crt b s) ≡ ok t = rw (drop_expired_certs_from_bundle, e) at h in
        let same : set_data ca_crt b s ≡ t = cc in
        (
          some b,
          e,
          ap (data_of ca_crt) (sym same) ∙ data_of-set_data ca_crt b s,
          ap (data_of tls_crt) (sym same) ∙ data_of-set_data_other ca_crt tls_crt b s refl,
          ap annotation_of (sym same),
        )
    | inr (x, e) ↦
        let bad : err (wrap "failed to drop expired certs from gateway secret's ca.crt" x) ≡ ok t =
          rw (drop_expired_certs_from_bundle, e) at h in
        cc
  ]

  -- The steps of a rotation that succeeds.
  pub rotate_steps :
      (r : Secret)
      → rotate lib config clock gw root ≡ ok r
      → (s : Secret) × (t : Secret) × (at : ℕ) × Bundled s
        × Dropped s t
        × (get_ca_bundled_at lib config clock t ≡ ok at)
        × ((if requires_cert_switching lib config clock at then switch_certificate t root else t)
            ≡ r)
  unfolding rotate
  rotate_steps r h = elim (Result-cases (bundle_ca_certs lib config clock gw root)) [
    | inr (x, e) ↦ let bad : err x ≡ ok r = rw (rotate, e) at h in cc
    | inl (s, e) ↦ elim (Result-cases (drop_expired_certs_from_bundle lib config clock s)) [
      | inr (x, f) ↦ let bad : err x ≡ ok r = rw (rotate, e, f) at h in cc
      | inl (t, f) ↦ elim (Result-cases (get_ca_bundled_at lib config clock t)) [
        | inr (x, g) ↦ let bad : err x ≡ ok r = rw (rotate, e, f, g) at h in cc
        | inl (at, g) ↦
            let both : ok (
                  if requires_cert_switching lib config clock at
                  then switch_certificate t root
                  else t)
                ≡ ok r =
              rw (rotate, e, f, g) at h in
            (s, t, at, bundle-Bundled s e, drop-Dropped s t f, g, cc)
      ]
    ]
  ]
