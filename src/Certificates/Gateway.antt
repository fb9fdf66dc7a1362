-- ===== src/Certificates/Gateway.antt =====
-- internal/gatewaysecret (cabundle/handler.go, client/client.go) and
-- internal/controller/istiogatewaysecret/controller.go.
use lifecycle_manager.Prelude.{
  ℕ, ◌+◌, ltb, String, str_eq, not, Bool, List, [], ◌∷◌, Option, none, some, lookup, insert,
  if◌then◌else◌,
}
use lifecycle_manager.Errors.{
  Error, sentinel, wrap, join, Result, ok, err, ErrorLib, is_not_found, invalid_gateway_secret,
  gateway_secret_missing_bundle_time_annotation, server_certificate_parsing_failure,
  root_secret_not_found,
}
use lifecycle_manager.Certificates.Bundles.{Bytes, Pem, ◌>>=◌, wrapping, bundle, drop_expired}

pub record Secret : Type 0 where
  pub name : String
  pub namespace : String
  pub annotations : List (String × String)
  pub contents : List (String × Bytes)

abbrev pub istio_namespace : String
istio_namespace = "istio-system"

abbrev pub gateway_secret_name : String
gateway_secret_name = "klm-istio-gateway"

abbrev pub ca_added_to_bundle_at_annotation : String
ca_added_to_bundle_at_annotation = "caAddedToBundleAt"

abbrev pub ca_crt : String
ca_crt = "ca.crt"

abbrev pub tls_crt : String
tls_crt = "tls.crt"

abbrev pub tls_key : String
tls_key = "tls.key"

-- secret.Data[key], where a missing key reads as nil.
abbrev pub data_of : String → Secret → Bytes
data_of key s = elim (lookup key s.contents) [ none ↦ [] | some bytes ↦ bytes ]

abbrev pub set_data : String → Bytes → Secret → Secret
set_data key bytes s = record s { contents = insert key bytes s.contents }

-- The times that the calls of time.Now give in one reconciliation, in nanoseconds.
pub record Clock : Type 0 where
  pub annotated : ℕ
  pub dropped : ℕ
  pub compared : ℕ
  pub checked : ℕ

-- encoding/pem, crypto/x509, the format RFC3339 of package time, and the predicates on errors.
pub record GatewayLib : Type 0 where
  pub pem : Pem
  pub errors : ErrorLib
  pub format_time : ℕ → String
  pub parse_time : String → Result ℕ

-- The Kubernetes client of secrets, whose creation and update give an error or `none`.
pub record SecretClient : Type 0 where
  pub get : Result Secret
  pub create : Secret → Option Error
  pub update : Secret → Option Error

-- The fields of Handler that are no interfaces, in nanoseconds.
pub record GatewayConfig : Type 0 where
  pub server_cert_switch_grace_period : ℕ
  pub server_cert_expiry_window : ℕ

-- The calls of a reconciliation that change something.
pub data GatewayCall : Type 0 where
  create_secret update_secret : Secret → GatewayCall
  server_certificate_close_to_expiry : Bool → GatewayCall

abbrev pub GatewayRun : Type 0
GatewayRun = List GatewayCall × Option Error

-- (c *GatewaySecretRotationClient) GetGatewaySecret
abbrev pub get_gateway_secret : SecretClient → Result Secret
get_gateway_secret client = wrapping "failed to get gateway secret" client.get

abbrev pub ensure_gateway_secret : Secret → Option Error
ensure_gateway_secret s =
    if not (str_eq s.name gateway_secret_name)
    then some (wrap "unexpected name" (sentinel invalid_gateway_secret))
    else if not (str_eq s.namespace istio_namespace)
    then some (wrap "unexpected namespace" (sentinel invalid_gateway_secret))
    else none

abbrev pub wrapped : String → Option Error → Option Error
wrapped m none = none
wrapped m (some e) = some (wrap m e)

module _ (client : SecretClient) where
  unfoldable pub create_gateway_secret : Secret → GatewayRun
  create_gateway_secret s = elim (ensure_gateway_secret s) [
    | some e ↦ ([], some e)
    | none ↦ (create_secret s ∷ [], wrapped "failed to create gateway secret" (client.create s))
  ]

  unfoldable pub update_gateway_secret : Secret → GatewayRun
  update_gateway_secret s = elim (ensure_gateway_secret s) [
    | some e ↦ ([], some e)
    | none ↦ (update_secret s ∷ [], wrapped "failed to update gateway secret" (client.update s))
  ]

unfoldable pub switch_certificate : Secret → (root : Secret) → Secret
switch_certificate gw root =
    set_data tls_key (data_of tls_key root) (set_data tls_crt (data_of tls_crt root) gw)

module _ (lib : GatewayLib) (config : GatewayConfig) (clock : Clock) where
  unfoldable pub set_ca_bundle_time_annotation_to_now : Secret → Secret
  set_ca_bundle_time_annotation_to_now s = record s {
    annotations =
        insert ca_added_to_bundle_at_annotation (lib.format_time clock.annotated) s.annotations;
  }

  abbrev pub new_gateway_secret : (root : Secret) → Secret
  new_gateway_secret root = record {
    name = gateway_secret_name;
    namespace = istio_namespace;
    annotations = [];
    contents =
        (tls_crt, data_of tls_crt root)
        ∷ (tls_key, data_of tls_key root)
        ∷ (ca_crt, data_of ca_crt root)
        ∷ [];
  }

  unfoldable pub create_gateway_secret_from_root_secret :
      SecretClient → (root : Secret) → GatewayRun
  unfolding create_gateway_secret set_ca_bundle_time_annotation_to_now
  create_gateway_secret_from_root_secret client root =
      create_gateway_secret client (set_ca_bundle_time_annotation_to_now (new_gateway_secret root))

  unfoldable pub get_ca_bundled_at : Secret → Result ℕ
  get_ca_bundled_at s = elim (lookup ca_added_to_bundle_at_annotation s.annotations) [
    | none ↦ err (sentinel gateway_secret_missing_bundle_time_annotation)
    | some value ↦ wrapping "failed to parse caAddedToBundleAt annotation" (lib.parse_time value)
  ]

  unfoldable pub requires_cert_switching : (ca_bundled_at : ℕ) → Bool
  requires_cert_switching ca_bundled_at =
      ltb (ca_bundled_at + config.server_cert_switch_grace_period) clock.compared

  -- bundleCACerts, and the annotation that ManageGatewaySecret sets behind it.
  unfoldable pub bundle_ca_certs : Secret → (root : Secret) → Result Secret
  unfolding bundle set_ca_bundle_time_annotation_to_now
  bundle_ca_certs gw root = elim (bundle lib.pem (data_of ca_crt gw) (data_of tls_crt root)) [
    | err e ↦ err (wrap "failed to bundle root secret's tls.crt into gateway secret's ca.crt" e)
    | ok none ↦ ok gw
    | ok (some ca_bundle) ↦ ok (set_ca_bundle_time_annotation_to_now (set_data ca_crt ca_bundle gw))
  ]

  unfoldable pub drop_expired_certs_from_bundle : Secret → Result Secret
  unfolding drop_expired
  drop_expired_certs_from_bundle gw =
      elim (drop_expired lib.pem clock.dropped (data_of ca_crt gw)) [
        | err e ↦ err (wrap "failed to drop expired certs from gateway secret's ca.crt" e)
        | ok none ↦ ok gw
        | ok (some ca_bundle) ↦ ok (set_data ca_crt ca_bundle gw)
      ]

  unfoldable pub server_cert_close_to_expiry : Secret → Result Bool
  server_cert_close_to_expiry gw = elim (lib.pem.decode (data_of tls_crt gw)) [
    | none ↦ err (sentinel server_certificate_parsing_failure)
    | some (block, rest) ↦ elim (lib.pem.parse_certificate block.bytes) [
      | err e ↦ err (join (sentinel server_certificate_parsing_failure) e)
      | ok cert ↦ ok (ltb cert.not_after (clock.checked + config.server_cert_expiry_window))
    ]
  ]

  -- The secret that ManageGatewaySecret updates, from the one that it has read.
  unfoldable pub rotate : Secret → (root : Secret) → Result Secret
  unfolding bundle_ca_certs drop_expired_certs_from_bundle get_ca_bundled_at requires_cert_switching
      switch_certificate
  rotate gw root = do
    bundled ← bundle_ca_certs gw root
    dropped ← drop_expired_certs_from_bundle bundled
    ca_bundled_at ← get_ca_bundled_at dropped
    ok (if requires_cert_switching ca_bundled_at then switch_certificate dropped root else dropped)

  unfoldable pub manage_gateway_secret : SecretClient → (root : Secret) → GatewayRun
  unfolding create_gateway_secret_from_root_secret rotate server_cert_close_to_expiry
      update_gateway_secret is_not_found
  manage_gateway_secret client root = elim (get_gateway_secret client) [
    | err e ↦
        if is_not_found lib.errors (some e)
        then create_gateway_secret_from_root_secret client root
        else ([], some e)
    | ok gw ↦ elim (rotate gw root) [
      | err e ↦ ([], some e)
      | ok rotated ↦ elim (server_cert_close_to_expiry rotated) [
        | err e ↦ ([], some e)
        | ok close ↦
            let out = update_gateway_secret client rotated in
            (server_certificate_close_to_expiry close ∷ out.0, out.1)
      ]
    ]
  ]

  -- (r *Reconciler) Reconcile, with the two intervals: the calls, the interval and the error.
  unfoldable pub reconcile_root_secret :
      (on_success on_error : ℕ)
      → SecretClient
      → Result (Option Secret)
      → List GatewayCall × ℕ × Option Error
  unfolding manage_gateway_secret
  reconcile_root_secret on_success on_error client (err e) =
      ([], 0, some (wrap "failed to get istio gateway root secret" e))
  reconcile_root_secret on_success on_error client (ok none) =
      ([], on_error, some (sentinel root_secret_not_found))
  reconcile_root_secret on_success on_error client (ok (some root)) =
      let out = manage_gateway_secret client root in
      elim out.1 [
        | some e ↦ (out.0, on_error, some (wrap "failed to manage gateway secret" e))
        | none ↦ (out.0, on_success, none)
      ]
