-- ===== src/Certificates/Bundles.antt =====
-- internal/service/watcher/certificate/bundler.go
use lifecycle_manager.Prelude.{
  ℕ, zero, suc, ◌==◌, ltb, String, Bool, List, [], ◌∷◌, ◌++◌, Option, none, some, map, length,
  same_text, any, if◌then◌else◌,
}
use lifecycle_manager.Errors.{
  sentinel, wrap, join, Result, ok, err, invalid_pem, failed_to_parse_x509, x509_not_after_is_zero,
}

abbrev pub Bytes : Type 0
Bytes = List ℕ

-- A pem.Block.
pub record Block : Type 0 where
  pub block_type : String
  pub headers : List (String × String)
  pub bytes : Bytes

-- An x509.Certificate. Times are in nanoseconds from the zero time.
pub record Certificate : Type 0 where
  pub raw : Bytes
  pub not_after : ℕ

-- encoding/pem and crypto/x509: Decode gives the first block and what is behind it, or `none` for a
-- nil block.
pub record Pem : Type 0 where
  pub decode : Bytes → Option (Block × Bytes)
  pub encode_to_memory : Block → Bytes
  pub parse_certificate : Bytes → Result Certificate

abbrev pub certificate_block_type : String
certificate_block_type = "CERTIFICATE"

-- For chains of results.
infixl 2 ◌>>=◌
abbrev pub ◌>>=◌ : {A B : Type 0} → Result A → (A → Result B) → Result B
(ok a) >>= k = k a
(err e) >>= k = err e

abbrev pub wrapping : {A : Type 0} → String → Result A → Result A
wrapping m (ok a) = ok a
wrapping m (err e) = err (wrap m e)

unfoldable pub contains_cert : List Block → Block → Bool
contains_cert certs new = any (λ (c : Block). same_text c.bytes new.bytes) certs

abbrev pub prepend_cert : List Block → Block → List Block
prepend_cert certs new = new ∷ certs

abbrev pub expired : (now : ℕ) → Certificate → Result Bool
expired now cert =
    if cert.not_after == 0
    then err (sentinel x509_not_after_is_zero)
    else ok (ltb cert.not_after now)

unfoldable pub drop_expired_certs : (now : ℕ) → List Certificate → Result (List Certificate)
drop_expired_certs now [] = ok []
drop_expired_certs now (c ∷ cs) = elim (expired now c) [
  | err e ↦ err e
  | ok gone ↦ elim (drop_expired_certs now cs) [
    | err e ↦ err e
    | ok kept ↦ ok (if gone then kept else c ∷ kept)
  ]
]

abbrev pub encode_x509_to_pem : List Certificate → List Block
encode_x509_to_pem = map (λ (c : Certificate). record {
  block_type = certificate_block_type;
  headers = [];
  bytes = c.raw;
})

module _ (pem : Pem) where
  -- The loop of decodeCertsToPEM. Each round takes a block, so that as many rounds as there are
  -- bytes are enough.
  unfoldable pub decode_rounds : (rounds : ℕ) → Bytes → Result (List Block)
  decode_rounds rounds [] = ok []
  decode_rounds zero (c ∷ s) = err (sentinel invalid_pem)
  decode_rounds (suc n) (c ∷ s) = elim (pem.decode (c ∷ s)) [
    | none ↦ err (sentinel invalid_pem)
    | some (b, rest) ↦ elim (decode_rounds n rest) [ err e ↦ err e | ok bs ↦ ok (b ∷ bs) ]
  ]

  unfoldable pub decode_certs_to_pem : Bytes → Result (List Block)
  unfolding decode_rounds
  decode_certs_to_pem bundle = decode_rounds (length bundle) bundle

  unfoldable pub encode_pem_to_bytes : List Block → Bytes
  encode_pem_to_bytes [] = []
  encode_pem_to_bytes (b ∷ bs) = pem.encode_to_memory b ++ encode_pem_to_bytes bs

  unfoldable pub decode_pem_to_x509 : List Block → Result (List Certificate)
  decode_pem_to_x509 [] = ok []
  decode_pem_to_x509 (b ∷ bs) = elim (pem.parse_certificate b.bytes) [
    | err e ↦ err (join (sentinel failed_to_parse_x509) e)
    | ok c ↦ elim (decode_pem_to_x509 bs) [ err e ↦ err e | ok cs ↦ ok (c ∷ cs) ]
  ]

  -- (b Bundler) Bundle: the bundle with the certificate, or `none` if it was there.
  unfoldable pub bundle : Bytes → (new_cert : Bytes) → Result (Option Bytes)
  unfolding decode_certs_to_pem encode_pem_to_bytes contains_cert
  bundle old new_cert = elim (pem.decode new_cert) [
    | none ↦ err (wrap "invalid newCert" (sentinel invalid_pem))
    | some (new, rest) ↦ elim (decode_certs_to_pem old) [
      | err e ↦ err (wrap "invalid bundle" e)
      | ok certs ↦
          if contains_cert certs new
          then ok none
          else ok (some (encode_pem_to_bytes (prepend_cert certs new)))
    ]
  ]

  -- (b Bundler) DropExpiredCerts: the smaller bundle, or `none` if nothing was dropped.
  unfoldable pub drop_expired : (now : ℕ) → Bytes → Result (Option Bytes)
  unfolding decode_certs_to_pem encode_pem_to_bytes decode_pem_to_x509 drop_expired_certs
  drop_expired now old = do
    blocks ← decode_certs_to_pem old
    certs ← decode_pem_to_x509 blocks
    unexpired ← drop_expired_certs now certs
    if length unexpired == length certs
        then ok none
        else ok (some (encode_pem_to_bytes (encode_x509_to_pem unexpired)))
