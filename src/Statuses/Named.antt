-- ===== src/Statuses/Named.antt =====
-- The entries of the modules in the spec are not touched by DeleteNoLongerExistingModuleStatus.
use lifecycle_manager.Prelude.{
  String, str_eq, eq_iff, ◌≡◌, refl, sym, subst, ◌∙◌, inl, inr, true, false, not, List, [], ◌∷◌,
  Option, contains, keep, Bool-cases, Option-cases, All, arith,
}
use lifecycle_manager.Errors.{Error, ErrorLib, is_not_found}
use lifecycle_manager.Api.{
  State, ModuleStatus, TrackingObject, Kyma, last_of_names, get_module_status,
  get_no_longer_existing_module_status,
}
use lifecycle_manager.Statuses.Update.{
  get_module_error, without, with_state_of, delete_status, delete_statuses,
  delete_no_longer_existing_module_status,
}
use lifecycle_manager.Statuses.Names.{spec_names}

names_differ :
    (named : List String) (name other key : String)
    → contains named name ≡ true
    → contains named other ≡ false
    → str_eq key other ≡ true
    → str_eq key name ≡ false
names_differ named name other key h g same = elim (Bool-cases (str_eq key name)) [
  | inr other_name ↦ other_name
  | inl same_name ↦
      let e : other ≡ name = sym ((eq_iff key other).0 same) ∙ (eq_iff key name).0 same_name in
      let m : contains named name ≡ false = subst (λ n. contains named n ≡ false) e g in
      absurd (ground (arith, h, m))
]

module _ (lib : ErrorLib) (get : TrackingObject → Option Error × State) (named : List String) where
  without_other :
      (name other : String) (ss : List ModuleStatus)
      → contains named name ≡ true
      → contains named other ≡ false
      → get_module_status (without lib get other ss) name ≡ get_module_status ss name
  unfolding get_module_status
  without_other name other [] h g = refl
  without_other name other (s ∷ ss) h g =
      let ih = without_other name other ss h g in
      elim (Bool-cases (str_eq s.name other)) [
        | inr kept ↦ rw kept (rw ih refl)
        | inl dropped ↦
            let no = names_differ named name other s.name h g dropped in rw dropped (rw no ih)
      ]

  state_other :
      (name other : String) (state : State) (ss : List ModuleStatus)
      → contains named name ≡ true
      → contains named other ≡ false
      → get_module_status (with_state_of lib get other state ss) name ≡ get_module_status ss name
  unfolding get_module_status
  state_other name other state [] h g = refl
  state_other name other state (s ∷ ss) h g =
      let ih = state_other name other state ss h g in
      elim (Bool-cases (str_eq s.name other)) [
        | inr kept ↦ rw kept (rw ih refl)
        | inl changed ↦
            let no = names_differ named name other s.name h g changed in rw changed (rw no ih)
      ]

  delete_one_other :
      (name : String) (d : ModuleStatus) (ss : List ModuleStatus) (removed : List String)
      → contains named name ≡ true
      → contains named d.name ≡ false
      → get_module_status (delete_status lib get d (ss, removed)).0 name ≡ get_module_status ss name
  unfolding delete_status
  delete_one_other name d ss removed h g =
      let gone = without_other name d.name ss h g in
      elim (Option-cases d.manifest) [
        | inl bare ↦ rw (bare, delete_status) gone
        | inr (object, e) ↦
            elim (Bool-cases (is_not_found lib (get_module_error lib get (get object).0))) [
              | inl missing ↦ rw (e, delete_status) (rw missing gone)
              | inr present ↦
                  rw (e, delete_status) (rw present (state_other name d.name (get object).1 ss h g))
            ]
      ]

  delete-All_other :
      (name : String) (ds ss : List ModuleStatus) (removed : List String)
      → contains named name ≡ true
      → All (λ (d : ModuleStatus). contains named d.name ≡ false) ds
      → get_module_status (delete_statuses lib get ds (ss, removed)).0 name
        ≡ get_module_status ss name
  unfolding delete_statuses
  delete-All_other name [] ss removed h a = refl
  delete-All_other name (d ∷ ds) ss removed h a =
      delete-All_other name ds (delete_status lib get d (ss, removed)).0
        (delete_status lib get d (ss, removed)).1 h a.1
      ∙ delete_one_other name d ss removed h a.0

  gone_names :
      (ss : List ModuleStatus)
      → All
          (λ (d : ModuleStatus). contains named d.name ≡ false)
          (keep (λ (s : ModuleStatus). not (contains named s.name)) ss)
  gone_names [] = tt
  gone_names (s ∷ ss) = elim (Bool-cases (contains named s.name)) [
    | inl in_spec ↦ rw in_spec (gone_names ss)
    | inr gone ↦ rw gone (gone, gone_names ss)
  ]

-- The entry of a module that the spec names is, behind DeleteNoLongerExistingModuleStatus, the
-- last one that the status had for that name.
pub delete_no_longer_existing_module_status_named :
    (lib : ErrorLib) (get : TrackingObject → Option Error × State) (kyma : Kyma) (name : String)
    → contains (spec_names kyma) name ≡ true
    → get_module_status (delete_no_longer_existing_module_status lib get kyma).0 name
      ≡ get_module_status (last_of_names kyma.status.modules) name
unfolding delete_no_longer_existing_module_status get_no_longer_existing_module_status
delete_no_longer_existing_module_status_named lib get kyma name h =
    delete-All_other lib get (spec_names kyma) name _ (last_of_names kyma.status.modules) [] h
      (gone_names lib get (spec_names kyma) (last_of_names kyma.status.modules))
