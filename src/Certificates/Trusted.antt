-- ===== src/Certificates/Trusted.antt =====
-- The server certificate of the gateway is in the bundle of the certificates that clients trust.
use lifecycle_manager.Prelude.{
  ℕ, ◌≤◌, ◌≡◌, refl, sym, subst, Bool, List, [], ◌∷◌, ◌⊎◌, inl, inr, Bool-cases, Option-cases,
  Option, none, some, arith,
}
use lifecycle_manager.Errors.{ok, Result-cases, is_not_found, wrap}
use lifecycle_manager.Certificates.Gateway.{
  Secret, GatewayLib, SecretClient, GatewayConfig, Clock, GatewayCall, create_secret, update_secret,
  server_certificate_close_to_expiry, data_of, tls_crt, rotate, manage_gateway_secret,
  set_ca_bundle_time_annotation_to_now, new_gateway_secret, server_cert_close_to_expiry,
  update_gateway_secret, ensure_gateway_secret, create_gateway_secret,
  create_gateway_secret_from_root_secret,
}
use lifecycle_manager.Certificates.Encoding.{PemLaws, first_block}
use lifecycle_manager.Certificates.Kept.{Holds}
use lifecycle_manager.Certificates.Server.{IsRoot, ServerTrusted, rotate-ServerTrusted}

-- What the calls of a reconciliation leave in the cluster, if they are carried out.
abbrev pub apply_calls : List GatewayCall → Option Secret → Option Secret
apply_calls [] stored = stored
apply_calls (create_secret s ∷ calls) stored = apply_calls calls (some s)
apply_calls (update_secret s ∷ calls) stored = apply_calls calls (some s)
apply_calls (server_certificate_close_to_expiry close ∷ calls) stored = apply_calls calls stored

module _ (lib : GatewayLib) (laws : PemLaws lib.pem) where
  -- The gateway secret of the cluster in the course of reconciliations, and the time of the last one.
  -- Each reads the secret that is stored, or gets an error, and has its own configuration and root
  -- secret; its calls are carried out, or fail and change nothing.
  pub data Reachable : Option Secret → ℕ → Type 0 where
    unstored : (now : ℕ) → Reachable none now
    reconciled :
        {stored : Option Secret} {now : ℕ}
        → Reachable stored now
        → (client : SecretClient) (config : GatewayConfig) (clock : Clock) (root : Secret)
        → ((gw : Secret) → client.get ≡ ok gw → stored ≡ some gw)
        → now ≤ clock.dropped
        → IsRoot lib.pem root
        → Reachable
            (apply_calls (manage_gateway_secret lib config clock client root).0 stored)
            clock.dropped
    failed :
        {stored : Option Secret} {now : ℕ}
        → Reachable stored now
        → (later : ℕ) → now ≤ later
        → Reachable stored later

  later_trusted :
      (now later : ℕ) (s : Secret)
      → now ≤ later
      → ServerTrusted lib.pem now s
      → ServerTrusted lib.pem later s
  later_trusted now later s le (bs, b, rest, h, d, trust) = (
    bs,
    b,
    rest,
    h,
    d,
    elim trust [ inl i ↦ inl i | inr (c, parsed, lt) ↦ inr (c, parsed, omega (arith, lt, le)) ],
  )

  abbrev pub StoredTrusted : Option Secret → ℕ → Type 0
  StoredTrusted none now = Unit
  StoredTrusted (some s) now = ServerTrusted lib.pem now s

  created-ServerTrusted :
      (config : GatewayConfig) (clock : Clock) (root : Secret)
      → IsRoot lib.pem root
      → ServerTrusted lib.pem clock.dropped (
          set_ca_bundle_time_annotation_to_now lib config clock
            (new_gateway_secret lib config clock root))
  unfolding set_ca_bundle_time_annotation_to_now
  created-ServerTrusted config clock root (b, bs, h, same) =
      let (rest, d) = first_block lib.pem laws (data_of tls_crt root) b bs h.0 in
      (b ∷ bs, b, rest, subst (λ x. Holds lib.pem x (b ∷ bs)) (sym same) h, d, inl (inl refl))

  -- The calls of a reconciliation: none, the creation, or the update of a rotated secret.
  abbrev Calls : SecretClient → GatewayConfig → Clock → Secret → List GatewayCall → Type 0
  Calls client config clock root calls =
      (calls ≡ [])
      ⊎ ((calls
            ≡ create_secret (
                set_ca_bundle_time_annotation_to_now lib config clock
                  (new_gateway_secret lib config clock root))
              ∷ [])
          ⊎ ((gw : Secret) × (r : Secret) × (close : Bool) × (client.get ≡ ok gw)
              × (rotate lib config clock gw root ≡ ok r)
              × ((calls ≡ server_certificate_close_to_expiry close ∷ [])
                  ⊎ (calls ≡ server_certificate_close_to_expiry close ∷ update_secret r ∷ []))))

  manage_calls :
      (client : SecretClient) (config : GatewayConfig) (clock : Clock) (root : Secret)
      → Calls client config clock root (manage_gateway_secret lib config clock client root).0
  unfolding manage_gateway_secret create_gateway_secret_from_root_secret create_gateway_secret
      update_gateway_secret
  manage_calls client config clock root = elim (Result-cases client.get) [
    | inr (x, e) ↦
        elim (Bool-cases (is_not_found lib.errors (some (wrap "failed to get gateway secret" x)))) [
          | inl missing ↦ inr (inl (rw (manage_gateway_secret, e, missing) refl))
          | inr broken ↦ inl (rw (manage_gateway_secret, e, broken) refl)
        ]
    | inl (gw, e) ↦ elim (Result-cases (rotate lib config clock gw root)) [
      | inr (x, f) ↦ inl (rw (manage_gateway_secret, e, f) refl)
      | inl (r, f) ↦ elim (Result-cases (server_cert_close_to_expiry lib config clock r)) [
        | inr (x, g) ↦ inl (rw (manage_gateway_secret, e, f, g) refl)
        | inl (close, g) ↦ elim (Option-cases (ensure_gateway_secret r)) [
          | inl valid ↦ inr (
              inr (
                gw,
                r,
                close,
                e,
                f,
                inr (rw (manage_gateway_secret, e, f, g, update_gateway_secret, valid) refl),
              ))
          | inr (x, invalid) ↦ inr (
              inr (
                gw,
                r,
                close,
                e,
                f,
                inl (rw (manage_gateway_secret, e, f, g, update_gateway_secret, invalid) refl),
              ))
        ]
      ]
    ]
  ]

  later_stored :
      (stored : Option Secret) (now later : ℕ)
      → now ≤ later
      → StoredTrusted stored now
      → StoredTrusted stored later
  later_stored none now later le h = tt
  later_stored (some s) now later le h = later_trusted now later s le h

  calls-StoredTrusted :
      (stored : Option Secret) (now : ℕ) (client : SecretClient) (config : GatewayConfig)
      (clock : Clock) (root : Secret) (calls : List GatewayCall)
      → ((gw : Secret) → client.get ≡ ok gw → stored ≡ some gw)
      → now ≤ clock.dropped
      → IsRoot lib.pem root
      → StoredTrusted stored now
      → Calls client config clock root calls
      → StoredTrusted (apply_calls calls stored) clock.dropped
  calls-StoredTrusted stored now client config clock root calls reads le isroot h (inl e) =
      rw e (later_stored stored now clock.dropped le h)
  calls-StoredTrusted stored now client config clock root calls reads le isroot h (inr (inl e)) =
      rw e (created-ServerTrusted config clock root isroot)
  calls-StoredTrusted stored now client config clock root calls reads le isroot h
        (inr (inr (gw, r, close, g, f, inl e))) =
      rw e (later_stored stored now clock.dropped le h)
  calls-StoredTrusted stored now client config clock root calls reads le isroot h
        (inr (inr (gw, r, close, g, f, inr e))) =
      let trusted : ServerTrusted lib.pem now gw = rw (reads gw g) at h in
      rw e (rotate-ServerTrusted lib laws config clock gw root r now isroot trusted le f)

  -- In every course of reconciliations the certificate that the stored gateway secret presents is in
  -- its bundle of trusted certificates, or has expired by the last reconciliation.
  pub Reachable-StoredTrusted :
      {stored : Option Secret} {now : ℕ} → Reachable stored now → StoredTrusted stored now
  Reachable-StoredTrusted (unstored now) = tt
  Reachable-StoredTrusted (reconciled r client config clock root reads le isroot) =
      calls-StoredTrusted _ _ client config clock root _ reads le isroot (Reachable-StoredTrusted r)
        (manage_calls client config clock root)
  Reachable-StoredTrusted (failed r later le) =
      later_stored _ _ later le (Reachable-StoredTrusted r)
