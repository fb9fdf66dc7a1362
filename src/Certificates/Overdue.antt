-- ===== src/Certificates/Overdue.antt =====
-- When the certificate of a runtime is renewed, and when its renewal is overdue.
use lifecycle_manager.Prelude.{
  ℕ, ◌+◌, ◌<◌, ◌≡◌, refl, ap, ltb, ltb→lt, Bool, true, false, String, [], ◌∷◌, Bool-cases, ◌↔◌, inl,
  inr, none, some, arith,
}
use lifecycle_manager.Errors.{
  Result, ok, err, Result-cases, errors_is, cert_validity_not_available, wrap,
}
use lifecycle_manager.Certificates.Renewal.{
  Repositories, CertificateConfig, renew_certificate, certificate_name,
  skr_certificate_needs_renewal, renew_skr_certificate, is_skr_certificate_renewal_overdue,
  get_gateway_secret_ca_bundle_extended_at_time,
}

module _ (repos : Repositories) (config : CertificateConfig) (kyma_name : String) where
  -- The certificate was issued before the last extension of the bundle, at that time.
  abbrev pub IssuedBefore : ℕ → Type 0
  IssuedBefore extended_at =
      (not_before : ℕ) × (not_after : ℕ) × (repos.get_validity (certificate_name kyma_name)
        ≡ ok (not_before, not_after))
      × (get_gateway_secret_ca_bundle_extended_at_time repos config ≡ ok extended_at)
      × (not_before < extended_at)

  needs_lem :
      skr_certificate_needs_renewal repos config (certificate_name kyma_name) ≡ ok true
      → (at : ℕ) × IssuedBefore at
  unfolding skr_certificate_needs_renewal
  needs_lem h = elim (Result-cases (repos.get_validity (certificate_name kyma_name))) [
    | inr (x, e) ↦ elim (Bool-cases (errors_is x cert_validity_not_available)) [
      | inl unknown ↦
          let bad : ok false ≡ ok true = rw (skr_certificate_needs_renewal, e, unknown) at h in cc
      | inr known ↦
          let bad : err (wrap "failed to determine SKR client certificate validity" x) ≡ ok true =
            rw (skr_certificate_needs_renewal, e, known) at h in
          cc
    ]
    | inl ((nb, na), e) ↦
        elim (Result-cases (get_gateway_secret_ca_bundle_extended_at_time repos config)) [
          | inr (x, f) ↦
              let bad : err (wrap "failed to determine gateway secret caAddedToBundleAt" x)
                  ≡ ok true =
                rw (skr_certificate_needs_renewal, e, f) at h in
              cc
          | inl (at, f) ↦
              let both : ok (ltb nb at) ≡ ok true = rw (skr_certificate_needs_renewal, e, f) at h in
              let before : ltb nb at ≡ true = cc in (at, (nb, na, e, f, ltb→lt nb at before))
        ]
  ]

  needed_lem :
      (at : ℕ)
      → IssuedBefore at
      → skr_certificate_needs_renewal repos config (certificate_name kyma_name) ≡ ok true
  unfolding skr_certificate_needs_renewal
  needed_lem at (nb, na, e, f, lt) =
      let before : ltb nb at ≡ true = ground arith in
      rw (skr_certificate_needs_renewal, e, f, before) refl

  -- RenewSkrCertificate asks for a renewal exactly if the validity of the certificate is known and
  -- it was issued before the bundle of the gateway was last extended.
  pub renew_skr_certificate_iff :
      ((renew_skr_certificate repos config kyma_name).0
        ≡ renew_certificate (certificate_name kyma_name) ∷ [])
      ↔ ((at : ℕ) × IssuedBefore at)
  unfolding renew_skr_certificate
  renew_skr_certificate_iff = (forth, back)
    where
      needs : Result Bool
      needs = skr_certificate_needs_renewal repos config (certificate_name kyma_name)

      forth :
          (renew_skr_certificate repos config kyma_name).0
            ≡ renew_certificate (certificate_name kyma_name) ∷ []
          → (at : ℕ) × IssuedBefore at
      forth h = elim (Result-cases needs) [
        | inl (true, e) ↦ needs_lem e
        | inl (false, e) ↦
            let bad : [] ≡ renew_certificate (certificate_name kyma_name) ∷ [] =
              rw (renew_skr_certificate, e) at h in
            cc
        | inr (x, e) ↦
            let bad : [] ≡ renew_certificate (certificate_name kyma_name) ∷ [] =
              rw (renew_skr_certificate, e) at h in
            cc
      ]

      back :
          ((at : ℕ) × IssuedBefore at)
          → (renew_skr_certificate repos config kyma_name).0
            ≡ renew_certificate (certificate_name kyma_name) ∷ []
      back (at, issued) = rw (renew_skr_certificate, needed_lem at issued) refl

  -- The renewal is reported as overdue without an error exactly if RenewSkrCertificate has to renew
  -- the certificate and more than the buffer has passed since the bundle was last extended.
  pub is_skr_certificate_renewal_overdue_iff :
      (now : ℕ)
      → (is_skr_certificate_renewal_overdue repos config now kyma_name ≡ (true, none))
        ↔ ((at : ℕ) × IssuedBefore at × (at + config.renew_buffer < now))
  unfolding is_skr_certificate_renewal_overdue
  is_skr_certificate_renewal_overdue_iff now = (forth, back)
    where
      needs : Result Bool
      needs = skr_certificate_needs_renewal repos config (certificate_name kyma_name)

      forth :
          is_skr_certificate_renewal_overdue repos config now kyma_name ≡ (true, none)
          → (at : ℕ) × IssuedBefore at × (at + config.renew_buffer < now)
      forth h = elim (Result-cases needs) [
        | inl (true, e) ↦
            let issued = needs_lem e in
            let passed : (ltb (issued.0 + config.renew_buffer) now, none) ≡ (true, none) =
              rw (is_skr_certificate_renewal_overdue, e, issued.1.3) at h in
            (issued.0, issued.1, ltb→lt (issued.0 + config.renew_buffer) now (ap (λ p. p.0) passed))
        | inl (false, e) ↦
            let bad : (false, none) ≡ (true, none) =
              rw (is_skr_certificate_renewal_overdue, e) at h in
            let parts : false ≡ true = ap (λ p. p.0) bad in cc
        | inr (x, e) ↦
            let bad : (true, some (wrap "failed to determine if SKR certificate needs renewal" x))
                ≡ (true, none) =
              rw (is_skr_certificate_renewal_overdue, e) at h in
            let parts : some (wrap "failed to determine if SKR certificate needs renewal" x)
                ≡ none =
              ap (λ p. p.1) bad in
            cc
      ]

      back :
          ((at : ℕ) × IssuedBefore at × (at + config.renew_buffer < now))
          → is_skr_certificate_renewal_overdue repos config now kyma_name ≡ (true, none)
      back (at, issued, lt) =
          let late : ltb (at + config.renew_buffer) now ≡ true = ground arith in
          rw (is_skr_certificate_renewal_overdue, needed_lem at issued, issued.3, late) refl
