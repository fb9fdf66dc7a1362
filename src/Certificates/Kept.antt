-- ===== src/Certificates/Kept.antt =====
-- What Bundle and DropExpiredCerts keep of a bundle.
use lifecycle_manager.Prelude.{
  ℕ, ◌==◌, ◌<◌, ◌≡◌, refl, subst, ◌∙◌, if◌then◌else◌, Bool, true, false, List, [], ◌∷◌, All, length,
  same_text, same_text_lem, ◌⊎◌, inl, inr, Bool-cases, Option, none, some, arith,
}
use lifecycle_manager.Errors.{ok, err, Result-cases, sentinel, join, failed_to_parse_x509}
use lifecycle_manager.Certificates.Bundles.{
  Bytes, Block, Certificate, Pem, decode_certs_to_pem, encode_pem_to_bytes, contains_cert, bundle,
  drop_expired, drop_expired_certs, decode_pem_to_x509, encode_x509_to_pem, expired,
}
use lifecycle_manager.Certificates.Encoding.{
  IsPlain, PemLaws, decode_certs_to_pem-encode_pem_to_bytes,
}

-- One of the blocks has these bytes.
abbrev pub Has : Bytes → List Block → Type 0
Has x [] = ⊥
Has x (b ∷ bs) = (b.bytes ≡ x) ⊎ Has x bs

pub contains_cert-Has :
    (bs : List Block) (new : Block) → contains_cert bs new ≡ true → Has new.bytes bs
unfolding contains_cert
contains_cert-Has [] new h = cc
contains_cert-Has (b ∷ bs) new h = elim (Bool-cases (same_text b.bytes new.bytes)) [
  | inl same ↦ inl (same_text_lem b.bytes new.bytes same)
  | inr other ↦ inr (contains_cert-Has bs new (ground arith))
]

-- The bundle behind a call, from the one before it.
abbrev pub behind : Bytes → Option Bytes → Bytes
behind old none = old
behind old (some new) = new

module _ (pem : Pem) where
  -- The certificate has expired before that time.
  abbrev pub ExpiredBefore : ℕ → Bytes → Type 0
  ExpiredBefore now x = (c : Certificate) × (pem.parse_certificate x ≡ ok c) × (c.not_after < now)

  -- The bundle is the encoding of these certificates.
  abbrev pub Holds : Bytes → List Block → Type 0
  Holds bytes bs = (decode_certs_to_pem pem bytes ≡ ok bs) × All IsPlain bs

module _ (pem : Pem) (laws : PemLaws pem) where
  -- Behind Bundle the new certificate is in the bundle, as are all that were there.
  pub bundle_keeps :
      (old new_cert : Bytes) (bs : List Block) (new : Block) (rest : Bytes) (out : Option Bytes)
      → Holds pem old bs
      → pem.decode new_cert ≡ some (new, rest)
      → IsPlain new
      → bundle pem old new_cert ≡ ok out
      → (cs : List Block) × Holds pem (behind old out) cs
        × Has new.bytes cs
        × ((x : Bytes) → Has x bs → Has x cs)
  unfolding bundle
  bundle_keeps old new_cert bs new rest out h d p e = elim (Bool-cases (contains_cert bs new)) [
    | inl there ↦
        let same : ok none ≡ ok out = rw (bundle, d, h.0, there) at e in
        let bytes : none ≡ out = cc in
        (
          bs,
          subst (λ o. Holds pem (behind old o) bs) bytes h,
          contains_cert-Has bs new there,
          λ x i. i,
        )
    | inr absent ↦
        let same : ok (some (encode_pem_to_bytes pem (new ∷ bs))) ≡ ok out =
          rw (bundle, d, h.0, absent) at e in
        let bytes : some (encode_pem_to_bytes pem (new ∷ bs)) ≡ out = cc in
        (
          new ∷ bs,
          subst (λ o. Holds pem (behind old o) (new ∷ bs)) bytes
              (decode_certs_to_pem-encode_pem_to_bytes pem laws (new ∷ bs) (p, h.1), (p, h.1)),
          inl refl,
          λ x i. inr i,
        )
  ]

  -- The certificates are those of the blocks.
  abbrev Parsed : List Block → List Certificate → Type 0
  Parsed [] [] = Unit
  Parsed [] (c ∷ cs) = ⊥
  Parsed (b ∷ bs) [] = ⊥
  Parsed (b ∷ bs) (c ∷ cs) = (pem.parse_certificate b.bytes ≡ ok c) × Parsed bs cs

  decode-Parsed :
      (bs : List Block) (cs : List Certificate) → decode_pem_to_x509 pem bs ≡ ok cs → Parsed bs cs
  unfolding decode_pem_to_x509
  decode-Parsed [] cs h = let same : [] ≡ cs = cc in subst (Parsed []) same tt
  decode-Parsed (b ∷ bs) cs h = elim (Result-cases (pem.parse_certificate b.bytes)) [
    | inl (c, e) ↦ elim (Result-cases (decode_pem_to_x509 pem bs)) [
      | inl (ds, f) ↦
          let both : ok (c ∷ ds) ≡ ok cs = rw (decode_pem_to_x509, e, f) at h in
          let same : c ∷ ds ≡ cs = cc in subst (Parsed (b ∷ bs)) same (e, decode-Parsed bs ds f)
      | inr (x, f) ↦ let bad : err x ≡ ok cs = rw (decode_pem_to_x509, e, f) at h in cc
    ]
    | inr (x, e) ↦
        let bad : err (join (sentinel failed_to_parse_x509) x) ≡ ok cs =
          rw (decode_pem_to_x509, e) at h in
        cc
  ]

  abbrev Split : ℕ → List Block → List Certificate → Type 0
  Split now bs kept =
      (x : Bytes) → Has x bs → Has x (encode_x509_to_pem kept) ⊎ ExpiredBefore pem now x

  -- One more block, whose certificate has expired or is kept.
  more-Split :
      (now : ℕ) (b : Block) (bs : List Block) (c : Certificate) (kept : List Certificate)
      (gone : Bool)
      → pem.parse_certificate b.bytes ≡ ok c
      → expired now c ≡ ok gone
      → Split now bs kept
      → Split now (b ∷ bs) (if gone then kept else c ∷ kept)
  more-Split now b bs c kept true e g rest x (inl here) =
      inr (c, subst (λ y. pem.parse_certificate y ≡ ok c) here e, ground arith)
  more-Split now b bs c kept false e g rest x (inl here) =
      inl (inl (laws.parse_raw b.bytes c e ∙ here))
  more-Split now b bs c kept true e g rest x (inr there) = rest x there
  more-Split now b bs c kept false e g rest x (inr there) = elim (rest x there) [
    | inl i ↦ inl (inr i)
    | inr gone ↦ inr gone
  ]

  -- A certificate of the blocks is kept by DropExpiredCerts, or it has expired.
  drop-Split :
      (now : ℕ) (bs : List Block) (cs kept : List Certificate)
      → Parsed bs cs
      → drop_expired_certs now cs ≡ ok kept
      → Split now bs kept
  unfolding drop_expired_certs
  drop-Split now [] cs kept p h = λ x i. absurd i
  drop-Split now (b ∷ bs) [] kept p h = absurd p
  drop-Split now (b ∷ bs) (c ∷ cs) kept p h = elim (Result-cases (expired now c)) [
    | inl (gone, g) ↦ elim (Result-cases (drop_expired_certs now cs)) [
      | inl (ks, f) ↦
          let both : ok (if gone then ks else c ∷ ks) ≡ ok kept =
            rw (drop_expired_certs, g, f) at h in
          let same : (if gone then ks else c ∷ ks) ≡ kept = ground arith in
          subst (Split now (b ∷ bs)) same
            (more-Split now b bs c ks gone p.0 g (drop-Split now bs cs ks p.1 f))
      | inr (x, f) ↦ let bad : err x ≡ ok kept = rw (drop_expired_certs, g, f) at h in cc
    ]
    | inr (x, g) ↦ let bad : err x ≡ ok kept = rw (drop_expired_certs, g) at h in cc
  ]

  encode_x509_to_pem-IsPlain : (cs : List Certificate) → All IsPlain (encode_x509_to_pem cs)
  encode_x509_to_pem-IsPlain [] = tt
  encode_x509_to_pem-IsPlain (c ∷ cs) = ((refl, refl), encode_x509_to_pem-IsPlain cs)

  -- Behind DropExpiredCerts a certificate of the bundle is still there, unless it has expired.
  pub drop_expired_keeps :
      (now : ℕ) (old : Bytes) (bs : List Block) (out : Option Bytes)
      → Holds pem old bs
      → drop_expired pem now old ≡ ok out
      → (cs : List Block) × Holds pem (behind old out) cs
        × ((x : Bytes) → Has x bs → Has x cs ⊎ ExpiredBefore pem now x)
  unfolding drop_expired
  drop_expired_keeps now old bs out h e = elim (Result-cases (decode_pem_to_x509 pem bs)) [
    | inl (cs, f) ↦ elim (Result-cases (drop_expired_certs now cs)) [
      | inl (kept, g) ↦ elim (Bool-cases (length kept == length cs)) [
        | inl all ↦
            let same : ok none ≡ ok out = rw (drop_expired, h.0, f, g, all) at e in
            let bytes : none ≡ out = cc in
            (bs, subst (λ o. Holds pem (behind old o) bs) bytes h, λ x i. inl i)
        | inr fewer ↦
            let blocks = encode_x509_to_pem kept in
            let same : ok (some (encode_pem_to_bytes pem blocks)) ≡ ok out =
              rw (drop_expired, h.0, f, g, fewer) at e in
            let bytes : some (encode_pem_to_bytes pem blocks) ≡ out = cc in
            let plain = encode_x509_to_pem-IsPlain kept in
            let held = decode_certs_to_pem-encode_pem_to_bytes pem laws blocks plain in
            (
              blocks,
              subst (λ o. Holds pem (behind old o) blocks) bytes (held, plain),
              drop-Split now bs cs kept (decode-Parsed bs cs f) g,
            )
      ]
      | inr (x, g) ↦ let bad : err x ≡ ok out = rw (drop_expired, h.0, f, g) at e in cc
    ]
    | inr (x, f) ↦ let bad : err x ≡ ok out = rw (drop_expired, h.0, f) at e in cc
  ]
