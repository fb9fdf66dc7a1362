-- ===== src/Certificates/Sample.antt =====
-- A small encoding of blocks that obeys the laws, and root secrets with one certificate.
use lifecycle_manager.Prelude.{
  ℕ, zero, suc, ◌*◌, ◌/◌, ◌≤◌, ◌<◌, ◌≡◌, refl, sym, ap, ◌∙◌, String, List, [], ◌∷◌, ◌++◌, inl, inr,
  Option, none, some, Option-cases, length, arith,
}
use lifecycle_manager.Errors.{ok, err, foreign}
use lifecycle_manager.Samples.{sample_errors}
use lifecycle_manager.Certificates.Bundles.{Bytes, Block, Certificate, Pem}
use lifecycle_manager.Certificates.Gateway.{Secret, GatewayLib, SecretClient, GatewayConfig, Clock}
use lifecycle_manager.Certificates.Encoding.{IsPlain, PemLaws}
use lifecycle_manager.Certificates.Grace.{TimeLaw, whole_seconds}

-- The first n bytes and the others, if there are as many.
abbrev pub split : ℕ → Bytes → Option (Bytes × Bytes)
split zero s = some ([], s)
split (suc n) [] = none
split (suc n) (c ∷ s) = elim (split n s) [ none ↦ none | some (a, rest) ↦ some (c ∷ a, rest) ]

abbrev pub plain : Bytes → Block
plain bytes = record { block_type = "CERTIFICATE"; headers = []; bytes = bytes }

abbrev pub block_of : Option (Bytes × Bytes) → Option (Block × Bytes)
block_of none = none
block_of (some (a, rest)) = some (plain a, rest)

-- A block is its length and its bytes; a certificate expires at the time of its first byte.
abbrev pub decode_block : Bytes → Option (Block × Bytes)
decode_block [] = none
decode_block (n ∷ s) = block_of (split n s)

abbrev pub expiry : Bytes → ℕ
expiry [] = 0
expiry (c ∷ s) = c

abbrev pub pem : Pem
pem = record {
  decode = decode_block;
  encode_to_memory = λ b. length b.bytes ∷ b.bytes;
  parse_certificate = λ s. ok (record { raw = s; not_after = expiry s });
}

pub split-length : (a rest : Bytes) → split (length a) (a ++ rest) ≡ some (a, rest)
split-length [] rest = refl
split-length (c ∷ a) rest = rw (split, split-length a rest) refl

pub some_equal : {p q : Block × Bytes} → some p ≡ some q → p ≡ q
some_equal e = cc

pub ok_equal : {c d : Certificate} → ok c ≡ ok d → c ≡ d
ok_equal e = cc

pub some_same : {p q : Bytes × Bytes} → some p ≡ some q → p ≡ q
some_same e = cc

pub split_shrinks : (n : ℕ) (s a rest : Bytes) → split n s ≡ some (a, rest) → length rest ≤ length s
split_shrinks zero s a rest h =
    let same : s ≡ rest = ap (λ (p : Bytes × Bytes). p.1) (some_same h) in rw same (omega arith)
split_shrinks (suc n) [] a rest h = cc
split_shrinks (suc n) (c ∷ s) a rest h = elim (Option-cases (split n s)) [
  | inl e ↦ let bad : none ≡ some (a, rest) = rw (split, e) at h in cc
  | inr ((b, t), e) ↦
      let shorter : length t ≤ length s = split_shrinks n s b t e in
      let same : t ≡ rest = ap (λ (p : Bytes × Bytes). p.1) (some_same (rw (split, e) at h)) in
      rw (← same) (omega (arith, shorter))
]

pub plain_lem : (b : Block) → IsPlain b → plain b.bytes ≡ b
plain_lem b (t, h) = λ i. record { block_type = sym t i; headers = sym h i; bytes = b.bytes }

abbrev pub unary : ℕ → String
unary zero = ""
unary (suc n) = String.◌∷◌ "x" (unary n)

abbrev pub text_length : String → ℕ
text_length String.[] = 0
text_length (String.◌∷◌ c s) = suc (text_length s)

pub text_length-unary : (n : ℕ) → text_length (unary n) ≡ n
text_length-unary zero = refl
text_length-unary (suc n) = ap suc (text_length-unary n)

abbrev pub lib : GatewayLib
lib = record {
  pem = pem;
  errors = sample_errors;
  format_time = λ t. unary (t / 1000000000);
  parse_time = λ s. ok (text_length s * 1000000000);
}

pub times : TimeLaw lib
times t =
    ap (λ n. ok (n * 1000000000)) (text_length-unary (t / 1000000000)) ∙ ap (λ n. ok n) (seconds t)
  where
    seconds : (t : ℕ) → t / 1000000000 * 1000000000 ≡ whole_seconds t
    seconds t = omega arith

pub laws : PemLaws pem
laws = record {
  decode-encode = λ b rest p.
      ap block_of (split-length b.bytes rest) ∙ ap (λ c. some (c, rest)) (plain_lem b p);
  decode_shrinks = λ s b rest h. shrinks s b rest h;
  parse_raw = λ s c h. raw s c h;
}
  where
    shrinks :
        (s : Bytes) (b : Block) (rest : Bytes)
        → decode_block s ≡ some (b, rest)
        → length rest < length s
    shrinks [] b rest h = cc
    shrinks (n ∷ s) b rest h = elim (Option-cases (split n s)) [
      | inl e ↦ let bad : none ≡ some (b, rest) = sym (ap block_of e) ∙ h in cc
      | inr ((a, t), e) ↦
          let shorter : length t ≤ length s = split_shrinks n s a t e in
          let same : t ≡ rest =
            ap (λ (p : Block × Bytes). p.1) (some_equal (sym (ap block_of e) ∙ h)) in
          omega (arith, shorter, ap length same)
    ]

    raw : (s : Bytes) (c : Certificate) → pem.parse_certificate s ≡ ok c → c.raw ≡ s
    raw s c h = ap (λ (d : Certificate). d.raw) (ok_equal (sym h))

abbrev pub secret : List (String × Bytes) → Secret
secret contents = record {
  name = "root";
  namespace = "istio-system";
  annotations = [];
  contents = contents;
}

-- Root secrets with one certificate, which expires at that time.
abbrev pub root : ℕ → Secret
root expires =
    secret (("tls.crt", 1 ∷ expires ∷ []) ∷ ("tls.key", 7 ∷ []) ∷ ("ca.crt", 1 ∷ expires ∷ []) ∷ [])

abbrev pub config : GatewayConfig
config = record { server_cert_switch_grace_period = 5000000000; server_cert_expiry_window = 0 }

abbrev pub clock : ℕ → Clock
clock t = record { annotated = t; dropped = t; compared = t; checked = t }

abbrev pub missing : SecretClient
missing = record { get = err (foreign 404); create = λ s. none; update = λ s. none }

abbrev pub finds : Secret → SecretClient
finds s = record { get = ok s; create = λ t. none; update = λ t. none }
