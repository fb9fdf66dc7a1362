-- ===== src/Certificates/Grace.antt =====
-- When the gateway starts to present a new server certificate.
use lifecycle_manager.Prelude.{
  ℕ, ◌+◌, ◌-◌, ◌%◌, ◌≤◌, ◌<◌, ◌≡◌, ◌≢◌, refl, sym, ap, ◌∙◌, ltb→lt, List, Bool-cases, inl, inr,
  Option, none, some, arith,
}
use lifecycle_manager.Errors.{ok}
use lifecycle_manager.Certificates.Bundles.{
  Bytes, Block, bundle, contains_cert, encode_pem_to_bytes, prepend_cert,
}
use lifecycle_manager.Certificates.Gateway.{
  Secret, GatewayLib, GatewayConfig, Clock, data_of, ca_crt, tls_crt, get_ca_bundled_at,
  requires_cert_switching, rotate,
}
use lifecycle_manager.Certificates.Kept.{Has, Holds, contains_cert-Has}
use lifecycle_manager.Certificates.Rotated.{rotate_steps, annotation_of, Annotated}

-- The format RFC3339 has no fractions of a second.
abbrev pub whole_seconds : ℕ → ℕ
whole_seconds t = t - t % 1000000000

abbrev pub TimeLaw : GatewayLib → Type 0
TimeLaw lib = (t : ℕ) → lib.parse_time (lib.format_time t) ≡ ok (whole_seconds t)

module _ (lib : GatewayLib) (times : TimeLaw lib) (config : GatewayConfig) (clock : Clock) where
  -- The time in the annotation, which is the only part of the secret that counts.
  bundled_at_lem :
      (s t : Secret)
      → annotation_of s ≡ annotation_of t
      → get_ca_bundled_at lib config clock s ≡ get_ca_bundled_at lib config clock t
  unfolding get_ca_bundled_at
  bundled_at_lem s t e = rw (get_ca_bundled_at, e) refl

  bundled_now_lem :
      (s : Secret)
      → annotation_of s ≡ some (lib.format_time clock.annotated)
      → get_ca_bundled_at lib config clock s ≡ ok (whole_seconds clock.annotated)
  unfolding get_ca_bundled_at
  bundled_now_lem s e = rw (get_ca_bundled_at, e, times clock.annotated) refl

  unchanged-Has :
      (old new_cert : Bytes) (bs : List Block) (new : Block) (rest : Bytes)
      → Holds lib.pem old bs
      → lib.pem.decode new_cert ≡ some (new, rest)
      → bundle lib.pem old new_cert ≡ ok none
      → Has new.bytes bs
  unfolding bundle
  unchanged-Has old new_cert bs new rest h d e = elim (Bool-cases (contains_cert bs new)) [
    | inl there ↦ contains_cert-Has bs new there
    | inr absent ↦
        let bad : ok (some (encode_pem_to_bytes lib.pem (prepend_cert bs new))) ≡ ok none =
          rw (bundle, d, h.0, absent) at e in
        cc
  ]

  -- A rotation presents another server certificate only if more than the grace period has passed
  -- since the time in the annotation that it has read, and the certificate of the root secret was
  -- in the bundle that it has read: if the rotation itself takes no longer than the grace period,
  -- up to the fraction of a second that the annotation drops.
  pub rotate_announced :
      (gw root r : Secret) (bs : List Block) (new : Block) (rest : Bytes)
      → Holds lib.pem (data_of ca_crt gw) bs
      → lib.pem.decode (data_of tls_crt root) ≡ some (new, rest)
      → clock.compared ≤ whole_seconds clock.annotated + config.server_cert_switch_grace_period
      → rotate lib config clock gw root ≡ ok r
      → data_of tls_crt r ≢ data_of tls_crt gw
      → (at : ℕ) × (get_ca_bundled_at lib config clock gw ≡ ok at)
        × (at + config.server_cert_switch_grace_period < clock.compared)
        × Has new.bytes bs
  unfolding requires_cert_switching
  rotate_announced gw root r bs new rest h d quick e changed =
      let (s, t, at, (o, ob, os, otls, oann), (p, pb, ps, ptls, pann), g, re) =
        rotate_steps lib config clock gw root r e in
      elim (Bool-cases (requires_cert_switching lib config clock at)) [
        | inr early ↦
            let same : t ≡ r = rw early at re in
            absurd (changed (ap (data_of tls_crt) (sym same) ∙ (ptls ∙ otls)))
        | inl due ↦
            let passed : at + config.server_cert_switch_grace_period < clock.compared =
              ltb→lt (at + config.server_cert_switch_grace_period) clock.compared due in
            added o s t at passed ob oann pann g
      ]
    where
      added :
          (o : Option Bytes) (s t : Secret) (at : ℕ)
          → at + config.server_cert_switch_grace_period < clock.compared
          → bundle lib.pem (data_of ca_crt gw) (data_of tls_crt root) ≡ ok o
          → Annotated lib config clock gw root o s
          → annotation_of t ≡ annotation_of s
          → get_ca_bundled_at lib config clock t ≡ ok at
          → (at : ℕ) × (get_ca_bundled_at lib config clock gw ≡ ok at)
            × (at + config.server_cert_switch_grace_period < clock.compared)
            × Has new.bytes bs
      added none s t at passed ob oann pann g = (
        at,
        sym (bundled_at_lem t gw (pann ∙ oann)) ∙ g,
        passed,
        unchanged-Has (data_of ca_crt gw) (data_of tls_crt root) bs new rest h d ob,
      )
      added (some b) s t at passed ob oann pann g =
          let now : ok (whole_seconds clock.annotated) ≡ ok at =
            sym (bundled_now_lem t (pann ∙ oann)) ∙ g in
          let same : whole_seconds clock.annotated ≡ at = cc in
          absurd (omega (arith, same, passed, quick))
