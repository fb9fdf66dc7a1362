-- ===== src/Images/Printed.antt =====
-- The reference that the sources take apart is the one that they print.
use lifecycle_manager.Prelude.{
  ℕ, ◌⊎◌, ◌≡◌, ◌≢◌, refl, ap, ◌==◌, inl, inr, Bool-cases, Option-cases, ==_iff, sym, ◌∙◌, [], ◌∷◌,
  ◌++◌, append_assoc, append_nil, Option, none, some,
}
use lifecycle_manager.Images.Defs.{
  Text, slash, colon, at_sign, cut_last, Named, reference_of, DockerImageReference,
  extract_image_name, extract_repository_path, build_host_and_path, build_name_and_tag,
  extract_digest, print, digest_suffix,
}

abbrev pub tag_suffix : Option Text → Text
tag_suffix none = []
tag_suffix (some tag) = colon ∷ tag

abbrev pub named_suffix : Option Text → Text
named_suffix none = []
named_suffix (some d) = at_sign ∷ d

-- What the library prints of a reference: its domain, path, tag and digest.
abbrev pub canonical : Named → Text
canonical n = n.domain ++ slash ∷ (n.path ++ (tag_suffix n.tag ++ named_suffix n.named_digest))

-- What is behind the last slash, or all of a text.
abbrev pub last_segment : Text → Text
last_segment s = elim (cut_last s) [ some (before, after) ↦ after | none ↦ s ]

cut_last_lem :
    (s before after : Text) → cut_last s ≡ some (before, after) → s ≡ before ++ slash ∷ after
unfolding cut_last
cut_last_lem [] before after h = cc
cut_last_lem (c ∷ s) before after h = elim (Option-cases (cut_last s)) [
  | inr ((b, a), e) ↦
      let both : some (c ∷ b, a) ≡ some (before, after) = rw (cut_last, e) at h in
      let pair : (c ∷ b, a) ≡ (before, after) = cc in
      ap (λ r. c ∷ r) (cut_last_lem s b a e) ∙ ap (λ (p : Text × Text). p.0 ++ slash ∷ p.1) pair
  | inl n ↦ elim (Bool-cases (c == slash)) [
    | inl same ↦
        let both : some ([], s) ≡ some (before, after) = rw (cut_last, n, same) at h in
        let pair : ([], s) ≡ (before, after) = cc in
        let byte : c ≡ slash = (==_iff c slash).0 same in
        ap (λ d. d ∷ s) byte ∙ ap (λ (p : Text × Text). p.0 ++ slash ∷ p.1) pair
    | inr other ↦ let neither : none ≡ some (before, after) = rw (cut_last, n, other) at h in cc
  ]
]

-- A reference in the normal form of the library: it has a domain, its path does not begin with the
-- last slash, its familiar name ends as its path, and a digest is not empty.
abbrev pub IsNormalized : Named → Type 0
IsNormalized n =
    (n.domain ≢ [])
    × ((after : Text) → cut_last n.path ≢ some ([], after))
    × (last_segment n.familiar_name ≡ last_segment n.path)
    × (n.named_digest ≢ some [])

suffix_lem :
    (d : Option Text)
    → d ≢ some []
    → digest_suffix (elim d [ some s ↦ s | none ↦ [] ]) ≡ named_suffix d
suffix_lem none h = refl
suffix_lem (some []) h = absurd (h refl)
suffix_lem (some (c ∷ s)) h = refl

-- How the path is taken apart.
parts :
    (p : Text)
    → ((after : Text) → cut_last p ≢ some ([], after))
    → ((cut_last p ≡ none) × (last_segment p ≡ p))
      ⊎ ((c : ℕ) × (repo : Text) × (after : Text) × (cut_last p ≡ some (c ∷ repo, after))
          × (p ≡ (c ∷ repo) ++ slash ∷ after))
parts p h = elim (Option-cases (cut_last p)) [
  | inl n ↦ inl (n, rw (last_segment, n) refl)
  | inr (([], after), e) ↦ absurd (h after e)
  | inr ((c ∷ repo, after), e) ↦ inr (c, repo, after, e, cut_last_lem p (c ∷ repo) after e)
]

print_host :
    (ir : DockerImageReference) (c : ℕ) (s : Text)
    → ir.host_and_path ≡ c ∷ s
    → print ir ≡ (c ∷ s) ++ slash ∷ (ir.name_and_tag ++ digest_suffix ir.digest)
unfolding print
print_host ir c s e = rw (print, e) refl

host_alone :
    (n : Named) (c : ℕ) (s : Text)
    → n.domain ≡ c ∷ s
    → cut_last n.path ≡ none
    → (reference_of n).host_and_path ≡ c ∷ s
unfolding reference_of extract_repository_path build_host_and_path
host_alone n c s d e =
    let repo_path : extract_repository_path n ≡ [] = rw (extract_repository_path, e) refl in
    ap (λ r. build_host_and_path n r) repo_path ∙ rw (build_host_and_path, d) refl

host_and_repo :
    (n : Named) (c : ℕ) (s : Text) (b : ℕ) (repo after : Text)
    → n.domain ≡ c ∷ s
    → cut_last n.path ≡ some (b ∷ repo, after)
    → (reference_of n).host_and_path ≡ c ∷ (s ++ slash ∷ b ∷ repo)
unfolding reference_of extract_repository_path build_host_and_path
host_and_repo n c s b repo after d e =
    let repo_path : extract_repository_path n ≡ b ∷ repo = rw (extract_repository_path, e) refl in
    ap (λ r. build_host_and_path n r) repo_path ∙ rw (build_host_and_path, d) refl

tag_lem :
    (tag : Option Text) (name : Text)
    → elim tag [ some t ↦ name ++ colon ∷ t | none ↦ name ] ≡ name ++ tag_suffix tag
tag_lem none name = sym (append_nil name)
tag_lem (some t) name = refl

end_lem :
    (n : Named)
    → IsNormalized n
    → (reference_of n).name_and_tag ++ digest_suffix (reference_of n).digest
      ≡ last_segment n.path ++ (tag_suffix n.tag ++ named_suffix n.named_digest)
unfolding reference_of extract_image_name build_name_and_tag extract_digest
end_lem n (dom, cut, same, dig) =
    ap (λ e. (reference_of n).name_and_tag ++ e) (suffix_lem n.named_digest dig)
    ∙ ap (λ t. t ++ named_suffix n.named_digest) (tag_lem n.tag (last_segment n.familiar_name))
    ∙ append_assoc (last_segment n.familiar_name) (tag_suffix n.tag) (named_suffix n.named_digest)
    ∙ ap (λ t. t ++ (tag_suffix n.tag ++ named_suffix n.named_digest)) same

-- Taking the reference of a normal form apart and printing it gives what the library prints: its
-- domain, path, tag and digest.
pub print-reference_of : (n : Named) → IsNormalized n → print (reference_of n) ≡ canonical n
print-reference_of n h = go n.domain refl
  where
    suffixes : Text
    suffixes = tag_suffix n.tag ++ named_suffix n.named_digest

    go : (d : Text) → n.domain ≡ d → print (reference_of n) ≡ canonical n
    go [] e = absurd (h.0 e)
    go (c ∷ s) e = elim (parts n.path h.1) [
      | inl (none_cut, whole) ↦
          print_host (reference_of n) c s (host_alone n c s e none_cut)
          ∙ ap (λ t. (c ∷ s) ++ slash ∷ t) (end_lem n h)
          ∙ ap (λ p. (c ∷ s) ++ slash ∷ (p ++ suffixes)) whole
          ∙ ap (λ d. d ++ slash ∷ (n.path ++ suffixes)) (sym e)
      | inr (b, repo, after, some_cut, whole) ↦
          print_host (reference_of n) c (s ++ slash ∷ b ∷ repo)
            (host_and_repo n c s b repo after e some_cut)
          ∙ ap (λ t. (c ∷ (s ++ slash ∷ b ∷ repo)) ++ slash ∷ t) (end_lem n h)
          ∙ ap (λ p. (c ∷ (s ++ slash ∷ b ∷ repo)) ++ slash ∷ (p ++ suffixes))
              (rw (last_segment, some_cut) refl)
          ∙ append_assoc (c ∷ s) (slash ∷ b ∷ repo) (slash ∷ (after ++ suffixes))
          ∙ ap (λ t. (c ∷ s) ++ slash ∷ t) (sym (append_assoc (b ∷ repo) (slash ∷ after) suffixes))
          ∙ ap (λ p. (c ∷ s) ++ slash ∷ (p ++ suffixes)) (sym whole)
          ∙ ap (λ d. d ++ slash ∷ (n.path ++ suffixes)) (sym e)
    ]
