-- ===== src/Certificates/Server.antt =====
-- The server certificate of a rotated gateway secret and the bundle of trusted certificates.
use lifecycle_manager.Prelude.{
  ℕ, ◌≤◌, ◌≡◌, refl, sym, ap, subst, ◌∙◌, List, ◌∷◌, ◌⊎◌, inl, inr, Bool-cases, some, arith,
}
use lifecycle_manager.Errors.{ok}
use lifecycle_manager.Certificates.Bundles.{Bytes, Block, Pem}
use lifecycle_manager.Certificates.Gateway.{
  Secret, GatewayLib, GatewayConfig, Clock, data_of, set_data, ca_crt, tls_crt, tls_key,
  requires_cert_switching, switch_certificate, rotate,
}
use lifecycle_manager.Certificates.Encoding.{PemLaws, first_block}
use lifecycle_manager.Certificates.Kept.{
  Has, Holds, ExpiredBefore, bundle_keeps, drop_expired_keeps,
}
use lifecycle_manager.Certificates.Rotated.{rotate_steps, data_of-set_data, data_of-set_data_other}

module _ (pem : Pem) where
  -- The root secret: its tls.crt and ca.crt are the same, one or more certificates.
  abbrev pub IsRoot : Secret → Type 0
  IsRoot root =
      (b : Block) × (bs : List Block) × Holds pem (data_of tls_crt root) (b ∷ bs)
      × (data_of ca_crt root ≡ data_of tls_crt root)

  -- The certificate in tls.crt is in the bundle ca.crt, or it has expired before that time.
  abbrev pub ServerTrusted : ℕ → Secret → Type 0
  ServerTrusted now s =
      (bs : List Block) × (b : Block) × (rest : Bytes) × Holds pem (data_of ca_crt s) bs
      × (pem.decode (data_of tls_crt s) ≡ some (b, rest))
      × (Has b.bytes bs ⊎ ExpiredBefore pem now b.bytes)

switched_ca : (t root : Secret) → data_of ca_crt (switch_certificate t root) ≡ data_of ca_crt t
unfolding switch_certificate
switched_ca t root =
    data_of-set_data_other tls_key ca_crt (data_of tls_key root)
      (set_data tls_crt (data_of tls_crt root) t) refl
    ∙ data_of-set_data_other tls_crt ca_crt (data_of tls_crt root) t refl

switched_tls :
    (t root : Secret) → data_of tls_crt (switch_certificate t root) ≡ data_of tls_crt root
unfolding switch_certificate
switched_tls t root =
    data_of-set_data_other tls_key tls_crt (data_of tls_key root)
      (set_data tls_crt (data_of tls_crt root) t) refl
    ∙ data_of-set_data tls_crt (data_of tls_crt root) t

module _ (lib : GatewayLib) (laws : PemLaws lib.pem) (config : GatewayConfig) (clock : Clock) where
  -- A rotation keeps the server certificate trusted.
  pub rotate-ServerTrusted :
      (gw root r : Secret) (now : ℕ)
      → IsRoot lib.pem root
      → ServerTrusted lib.pem now gw
      → now ≤ clock.dropped
      → rotate lib config clock gw root ≡ ok r
      → ServerTrusted lib.pem clock.dropped r
  rotate-ServerTrusted gw root r now (rb, rbs, rh, rsame) (bs, b, rest, h, d, trust) le e =
      let (s, t, at, (o, ob, os, otls, oann), (p, pb, ps, ptls, pann), g, re) =
        rotate_steps lib config clock gw root r e in
      let (rrest, rd) = first_block lib.pem laws (data_of tls_crt root) rb rbs rh.0 in
      let (cs, ch, cnew, ckeeps) =
        bundle_keeps lib.pem laws (data_of ca_crt gw) (data_of tls_crt root) bs rb rrest o h rd
          rh.1.0 ob in
      let (ds, dh, dkeeps) =
        drop_expired_keeps lib.pem laws clock.dropped (data_of ca_crt s) cs p
          (subst (λ x. Holds lib.pem x cs) (sym os) ch) pb in
      let th : Holds lib.pem (data_of ca_crt t) ds = subst (λ x. Holds lib.pem x ds) (sym ps) dh in
      let kept : Has b.bytes ds ⊎ ExpiredBefore lib.pem clock.dropped b.bytes = elim trust [
        | inl i ↦ dkeeps b.bytes (ckeeps b.bytes i)
        | inr (c, parsed, lt) ↦ inr (c, parsed, omega (arith, lt, le))
      ] in
      elim (Bool-cases (requires_cert_switching lib config clock at)) [
        | inl due ↦
            let same : switch_certificate t root ≡ r = rw due at re in
            subst (ServerTrusted lib.pem clock.dropped) same (
              ds,
              rb,
              rrest,
              subst (λ x. Holds lib.pem x ds) (sym (switched_ca t root)) th,
              ap lib.pem.decode (switched_tls t root) ∙ rd,
              dkeeps rb.bytes cnew,
            )
        | inr early ↦
            let same : t ≡ r = rw early at re in
            subst (ServerTrusted lib.pem clock.dropped) same
              (ds, b, rest, th, ap lib.pem.decode (ptls ∙ otls) ∙ d, kept)
      ]
