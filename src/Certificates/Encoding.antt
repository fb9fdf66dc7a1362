-- ===== src/Certificates/Encoding.antt =====
-- A bundle that is written is read again.
use lifecycle_manager.Prelude.{
  ℕ, zero, suc, ◌≤◌, ◌<◌, ◌≡◌, refl, ap, ◌∙◌, List, [], ◌∷◌, ◌++◌, All, length, Option-cases, inl,
  inr, some, arith,
}
use lifecycle_manager.Errors.{Result, ok, err, sentinel, invalid_pem}
use lifecycle_manager.Certificates.Bundles.{
  Bytes, Block, Certificate, Pem, decode_rounds, decode_certs_to_pem, encode_pem_to_bytes,
}

-- A certificate block without headers.
abbrev pub IsPlain : Block → Type 0
IsPlain b = (b.block_type ≡ "CERTIFICATE") × (b.headers ≡ [])

-- What the documentation of encoding/pem and crypto/x509 says: a block that was encoded is decoded,
-- with what is behind it; a block takes bytes; Raw is the input of ParseCertificate.
pub record PemLaws (pem : Pem) : Type 0 where
  pub decode-encode :
      (b : Block) (rest : Bytes)
      → IsPlain b
      → pem.decode (pem.encode_to_memory b ++ rest) ≡ some (b, rest)
  pub decode_shrinks :
      (s : Bytes) (b : Block) (rest : Bytes)
      → pem.decode s ≡ some (b, rest)
      → length rest < length s
  pub parse_raw : (s : Bytes) (c : Certificate) → pem.parse_certificate s ≡ ok c → c.raw ≡ s

module _ (pem : Pem) (laws : PemLaws pem) where
  one_round :
      (n : ℕ) (s : Bytes) (b : Block) (rest : Bytes) (bs : List Block)
      → pem.decode s ≡ some (b, rest)
      → length s ≤ suc n
      → ((m : ℕ) → length rest ≤ m → decode_rounds pem m rest ≡ ok bs)
      → decode_rounds pem (suc n) s ≡ ok (b ∷ bs)
  unfolding decode_rounds
  one_round n [] b rest bs e le h = absurd (ground (arith, laws.decode_shrinks [] b rest e))
  one_round n (c ∷ s) b rest bs e le h =
      let shorter : length rest < suc (length s) = laws.decode_shrinks (c ∷ s) b rest e in
      let others : decode_rounds pem n rest ≡ ok bs = h n (omega arith) in
      rw (decode_rounds, e, others) refl

  rounds_enough :
      (bs : List Block)
      → All IsPlain bs
      → (n : ℕ) → length (encode_pem_to_bytes pem bs) ≤ n
      → decode_rounds pem n (encode_pem_to_bytes pem bs) ≡ ok bs
  unfolding decode_rounds encode_pem_to_bytes
  rounds_enough [] p zero le = refl
  rounds_enough [] p (suc n) le = refl
  rounds_enough (b ∷ bs) p zero le =
      let whole : Bytes = pem.encode_to_memory b ++ encode_pem_to_bytes pem bs in
      let shorter : length (encode_pem_to_bytes pem bs) < length whole =
        laws.decode_shrinks whole b _ (laws.decode-encode b (encode_pem_to_bytes pem bs) p.0) in
      absurd (omega arith)
  rounds_enough (b ∷ bs) p (suc n) le =
      one_round n (pem.encode_to_memory b ++ encode_pem_to_bytes pem bs) b
        (encode_pem_to_bytes pem bs) bs (laws.decode-encode b (encode_pem_to_bytes pem bs) p.0) le
        (rounds_enough bs p.1)

  -- Decoding the bytes of a bundle of certificates gives its blocks, in their order.
  pub decode_certs_to_pem-encode_pem_to_bytes :
      (bs : List Block)
      → All IsPlain bs
      → decode_certs_to_pem pem (encode_pem_to_bytes pem bs) ≡ ok bs
  unfolding decode_certs_to_pem
  decode_certs_to_pem-encode_pem_to_bytes bs p =
      rounds_enough bs p (length (encode_pem_to_bytes pem bs)) (omega arith)

  -- The first block of a bundle is the one that Decode gives of its bytes.
  pub first_block :
      (s : Bytes) (b : Block) (bs : List Block)
      → decode_certs_to_pem pem s ≡ ok (b ∷ bs)
      → (rest : Bytes) × (pem.decode s ≡ some (b, rest))
  unfolding decode_certs_to_pem decode_rounds
  first_block [] b bs h = cc
  first_block (c ∷ s) b bs h = elim (Option-cases (pem.decode (c ∷ s))) [
    | inl n ↦
        let bad : err (sentinel invalid_pem) ≡ ok (b ∷ bs) =
          rw (decode_certs_to_pem, decode_rounds, n) at h in
        cc
    | inr ((d, rest), e) ↦ (
      rest,
      e
          ∙ ap (λ x. some (x, rest))
              (same (decode_rounds pem (length s) rest) d
                (rw (decode_certs_to_pem, decode_rounds, e) at h)),
    )
  ]
    where
      same :
          (r : Result (List Block)) (d : Block)
          → elim r [ err e ↦ err e | ok ds ↦ ok (d ∷ ds) ] ≡ ok (b ∷ bs)
          → d ≡ b
      same (ok ds) d e = cc
      same (err x) d e = cc
