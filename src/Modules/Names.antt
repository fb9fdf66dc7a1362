-- ===== src/Modules/Names.antt =====
-- CreateModuleName of pkg/module/common/module.go, on texts as lists of bytes.
use lifecycle_manager.Prelude.{
  ℕ, zero, suc, ◌-◌, ◌==◌, leb, ◌++◌, List, [], ◌∷◌, any, length, if◌then◌else◌,
}

abbrev pub slash : ℕ
slash = 47

abbrev pub dash : ℕ
dash = 45

abbrev pub take : ℕ → List ℕ → List ℕ
take zero s = []
take (suc n) [] = []
take (suc n) (c ∷ s) = c ∷ take n s

-- strings.CutLast(s, "/"): what is behind the last slash, or the whole text.
unfoldable pub after_last_slash : List ℕ → List ℕ
after_last_slash [] = []
after_last_slash (c ∷ s) =
    let rest = after_last_slash s in
    if any (λ d. d == slash) s then rest else if c == slash then s else c ∷ s

-- strings.TrimRight(s, "-")
unfoldable pub trim_dashes : List ℕ → List ℕ
trim_dashes [] = []
trim_dashes (c ∷ s) =
    let rest = trim_dashes s in
    elim rest [ [] ↦ if c == dash then [] else c ∷ [] | d ∷ t ↦ c ∷ d ∷ t ]

-- validation.DNS1035LabelMaxLength
abbrev pub max_module_name_length : ℕ
max_module_name_length = 63

-- The end of CreateModuleName, which cuts to 62 bytes and not to 63.
unfoldable pub cut_name : List ℕ → List ℕ
unfolding trim_dashes
cut_name name =
    if leb max_module_name_length (length name)
    then trim_dashes (take (max_module_name_length - 1) name)
    else name

-- The hash of fnv.New32 and the decimal digits of a number.
module _ (sum32 : List ℕ → ℕ) (digits : ℕ → List ℕ) where
  unfoldable pub full_module_name : (comp_name prefix module_name : List ℕ) → List ℕ
  unfolding after_last_slash
  full_module_name comp_name prefix module_name =
      prefix
      ++ (dash ∷ (after_last_slash comp_name ++ (dash ∷ digits (sum32 (comp_name ++ module_name)))))

  unfoldable pub create_module_name : (comp_name prefix module_name : List ℕ) → List ℕ
  unfolding full_module_name cut_name
  create_module_name comp_name prefix module_name =
      cut_name (full_module_name comp_name prefix module_name)
