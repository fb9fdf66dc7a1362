-- ===== src/Modules/Collisions.antt =====
-- What the cut of CreateModuleName loses.
use lifecycle_manager.Prelude.{
  ℕ, zero, suc, ◌+◌, ◌≤◌, ◌≡◌, refl, sym, ap, ◌∙◌, ◌++◌, List, [], ◌∷◌, true, length, leb, arith,
  append_assoc,
}
use lifecycle_manager.Modules.Names.{
  dash, take, after_last_slash, trim_dashes, cut_name, full_module_name, create_module_name,
}

take_before : (n : ℕ) (s t : List ℕ) → n ≤ length s → take n (s ++ t) ≡ take n s
take_before zero s t h = refl
take_before (suc n) [] t h = absurd (omega arith)
take_before (suc n) (c ∷ s) t h = ap (λ r. c ∷ r) (take_before n s t (omega arith))

length-append : (s t : List ℕ) → length (s ++ t) ≡ length s + length t
length-append [] t = omega arith
length-append (c ∷ s) t = let ih = length-append s t in omega arith

cut_long :
    (s t : List ℕ) → 62 ≤ length s → 1 ≤ length t → cut_name (s ++ t) ≡ trim_dashes (take 62 s)
unfolding cut_name
cut_long s t h g =
    let n = length-append s t in
    let long : leb 63 (length (s ++ t)) ≡ true = ground (arith, n, h, g) in
    rw long (ap trim_dashes (take_before 62 s t h))

module _ (sum32 : List ℕ → ℕ) (digits : ℕ → List ℕ) where
  -- If the prefix and the part of the component's name behind its last slash have at least 61 bytes
  -- together, then the name of the manifest does not depend on the name of the module, nor on the
  -- rest of the component's name: no byte of the hash is left in it.
  pub create_module_name_collides :
      (comp_name other_comp prefix module_name other_name : List ℕ)
      → after_last_slash comp_name ≡ after_last_slash other_comp
      → 61 ≤ length prefix + length (after_last_slash comp_name)
      → create_module_name sum32 digits comp_name prefix module_name
        ≡ create_module_name sum32 digits other_comp prefix other_name
  unfolding create_module_name full_module_name
  create_module_name_collides comp_name other_comp prefix module_name other_name same long =
      fixed comp_name module_name long
      ∙ ap (λ r. trim_dashes (take 62 (prefix ++ (dash ∷ r)))) same
      ∙ sym (fixed other_comp other_name (rw same at long))
    where
      fixed :
          (comp name : List ℕ)
          → 61 ≤ length prefix + length (after_last_slash comp)
          → cut_name
              (prefix ++ (dash ∷ (after_last_slash comp ++ (dash ∷ digits (sum32 (comp ++ name))))))
            ≡ trim_dashes (take 62 (prefix ++ (dash ∷ after_last_slash comp)))
      fixed comp name h =
          let segment = after_last_slash comp in
          let hash = dash ∷ digits (sum32 (comp ++ name)) in
          let n = length-append prefix (dash ∷ segment) in
          ap cut_name (sym (append_assoc prefix (dash ∷ segment) hash))
          ∙ cut_long (prefix ++ (dash ∷ segment)) hash (omega arith) (omega arith)
