-- ===== src/Modules/Labels.antt =====
-- The names of manifests are DNS labels.
use lifecycle_manager.Prelude.{
  ℕ, zero, suc, ◌==◌, leb, ◌≤◌, ◌≡◌, refl, inl, inr, ◌&&◌, ◌||◌, ◌++◌, List, [], ◌∷◌, Bool, true,
  false, length, if◌then◌else◌, All, All-append, All-implies, ◌∙◌, Bool-cases, arith,
}
use lifecycle_manager.Modules.Names.{
  dash, take, after_last_slash, trim_dashes, cut_name, full_module_name, create_module_name,
}

abbrev pub is_lower : ℕ → Bool
is_lower c = leb 97 c && leb c 122

abbrev pub is_digit : ℕ → Bool
is_digit c = leb 48 c && leb c 57

abbrev pub is_label_byte : ℕ → Bool
is_label_byte c = is_lower c || is_digit c || c == dash

abbrev pub LabelByte : ℕ → Type 0
LabelByte c = is_label_byte c ≡ true

abbrev pub starts_lower : List ℕ → Bool
starts_lower [] = false
starts_lower (c ∷ s) = is_lower c

abbrev pub ends_in_dash : List ℕ → Bool
ends_in_dash [] = false
ends_in_dash (c ∷ []) = c == dash
ends_in_dash (c ∷ d ∷ s) = ends_in_dash (d ∷ s)

-- What RFC 1035 asks of a label: at most 63 lower-case letters, digits and dashes, where the first
-- is a letter and the last is no dash.
pub record IsLabel (s : List ℕ) : Type 0 where
  pub short : length s ≤ 63
  pub bytes : All LabelByte s
  pub first : starts_lower s ≡ true
  pub last : ends_in_dash s ≡ false

length-take : (n : ℕ) (s : List ℕ) → length (take n s) ≤ n
length-take zero s = omega arith
length-take (suc n) [] = omega arith
length-take (suc n) (c ∷ s) = let ih = length-take n s in omega arith

take-All : (P : ℕ → Type 0) (n : ℕ) (s : List ℕ) → All P s → All P (take n s)
take-All P zero s a = tt
take-All P (suc n) [] a = tt
take-All P (suc n) (c ∷ s) a = (a.0, take-All P n s a.1)

trim_length : (s : List ℕ) → length (trim_dashes s) ≤ length s
unfolding trim_dashes
trim_length [] = omega arith
trim_length (c ∷ s) = let ih = trim_length s in ground (arith, ih)

trim-All : (s : List ℕ) → All LabelByte s → All LabelByte (trim_dashes s)
unfolding trim_dashes
trim-All [] a = tt
trim-All (c ∷ s) a = go (trim_dashes s) (trim-All s a.1)
  where
    go :
        (rest : List ℕ)
        → All LabelByte rest
        → All LabelByte (elim rest [ [] ↦ if c == dash then [] else c ∷ [] | d ∷ t ↦ c ∷ d ∷ t ])
    go [] b = elim (Bool-cases (c == dash)) [
      | inl same ↦ rw same tt
      | inr other ↦ rw other (a.0, tt)
    ]
    go (d ∷ t) b = (a.0, b)

trim_last : (s : List ℕ) → ends_in_dash (trim_dashes s) ≡ false
unfolding trim_dashes
trim_last [] = refl
trim_last (c ∷ s) = go (trim_dashes s) (trim_last s)
  where
    go :
        (rest : List ℕ)
        → ends_in_dash rest ≡ false
        → ends_in_dash (elim rest [ [] ↦ if c == dash then [] else c ∷ [] | d ∷ t ↦ c ∷ d ∷ t ])
          ≡ false
    go [] b = ground arith
    go (d ∷ t) b = b

trim_first : (s : List ℕ) → starts_lower s ≡ true → starts_lower (trim_dashes s) ≡ true
unfolding trim_dashes
trim_first [] h = h
trim_first (c ∷ s) h = go (trim_dashes s)
  where
    go :
        (rest : List ℕ)
        → starts_lower (elim rest [ [] ↦ if c == dash then [] else c ∷ [] | d ∷ t ↦ c ∷ d ∷ t ])
          ≡ true
    go [] = ground (arith, h)
    go (d ∷ t) = h

take_first : (n : ℕ) (s : List ℕ) → starts_lower (take (suc n) s) ≡ starts_lower s
take_first n [] = refl
take_first n (c ∷ s) = refl

cut_short : (s : List ℕ) → length (cut_name s) ≤ 62
unfolding cut_name
cut_short s = elim (Bool-cases (leb 63 (length s))) [
  | inr fits ↦ rw fits (ground (arith, fits))
  | inl long ↦
      let cut = length-take 62 s in let trimmed = trim_length (take 62 s) in rw long (omega arith)
]

cut_bytes : (s : List ℕ) → All LabelByte s → All LabelByte (cut_name s)
unfolding cut_name
cut_bytes s a = elim (Bool-cases (leb 63 (length s))) [
  | inr fits ↦ rw fits a
  | inl long ↦ rw long (trim-All (take 62 s) (take-All LabelByte 62 s a))
]

cut_first : (s : List ℕ) → starts_lower s ≡ true → starts_lower (cut_name s) ≡ true
unfolding cut_name
cut_first s h = elim (Bool-cases (leb 63 (length s))) [
  | inr fits ↦ rw fits h
  | inl long ↦ rw long (trim_first (take 62 s) (take_first 61 s ∙ h))
]

cut_name_last : (s : List ℕ) → ends_in_dash s ≡ false → ends_in_dash (cut_name s) ≡ false
unfolding cut_name
cut_name_last s h = elim (Bool-cases (leb 63 (length s))) [
  | inr fits ↦ rw fits h
  | inl long ↦ rw long (trim_last (take 62 s))
]

ends_behind : (s : List ℕ) (c : ℕ) (t : List ℕ) → ends_in_dash (s ++ (c ∷ t)) ≡ ends_in_dash (c ∷ t)
ends_behind [] c t = refl
ends_behind (d ∷ []) c t = refl
ends_behind (d ∷ e ∷ s) c t = ends_behind (e ∷ s) c t

starts_before : (s t : List ℕ) → starts_lower s ≡ true → starts_lower (s ++ t) ≡ true
starts_before [] t h = absurd (ground (arith, h))
starts_before (c ∷ s) t h = h

digit_byte : (c : ℕ) → is_digit c ≡ true → LabelByte c
digit_byte c h = ground (arith, h)

digits_end :
    (s : List ℕ) → 1 ≤ length s → All (λ c. is_digit c ≡ true) s → ends_in_dash (dash ∷ s) ≡ false
digits_end [] h a = absurd (ground (arith, h))
digits_end (c ∷ []) h a = let d = a.0 in ground (arith, d)
digits_end (c ∷ d ∷ s) h a = digits_end (d ∷ s) (omega arith) a.1

module _ (sum32 : List ℕ → ℕ) (digits : ℕ → List ℕ) where
  -- The documented form of a decimal number.
  abbrev pub Decimal : ℕ → Type 0
  Decimal n = (1 ≤ length (digits n)) × All (λ c. is_digit c ≡ true) (digits n)

  -- If the prefix and the part of the component's name behind its last slash consist of lower-case
  -- letters, digits and dashes, and the prefix begins with a letter, then the name of the manifest
  -- is a DNS label, cut or not. It has at most 62 bytes, though a label may have 63.
  pub create_module_name-IsLabel :
      (comp_name prefix module_name : List ℕ)
      → starts_lower prefix ≡ true
      → All LabelByte prefix
      → All LabelByte (after_last_slash comp_name)
      → ((n : ℕ) → Decimal n)
      → IsLabel (create_module_name sum32 digits comp_name prefix module_name)
        × (length (create_module_name sum32 digits comp_name prefix module_name) ≤ 62)
  unfolding create_module_name full_module_name
  create_module_name-IsLabel comp_name prefix module_name h a b d =
      let number = digits (sum32 (comp_name ++ module_name)) in
      let segment = after_last_slash comp_name in
      let name = prefix ++ (dash ∷ (segment ++ (dash ∷ number))) in
      let decimal = d (sum32 (comp_name ++ module_name)) in
      let number_bytes =
        All-implies (λ c. is_digit c ≡ true) LabelByte number digit_byte decimal.1 in
      let tail_bytes = All-append LabelByte segment (dash ∷ number) b (refl, number_bytes) in
      let short = cut_short name in
      (
        record {
          short = omega arith;
          bytes = cut_bytes name (
              All-append LabelByte prefix (dash ∷ (segment ++ (dash ∷ number))) a
                (refl, tail_bytes));
          first = cut_first name (starts_before prefix _ h);
          last = cut_name_last name (
              ends_behind prefix dash (segment ++ (dash ∷ number))
              ∙ ends_behind (dash ∷ segment) dash number
              ∙ digits_end number decimal.0 decimal.1);
        },
        short,
      )
