-- ===== src/Statuses/Kept.antt =====
-- Which entries DeleteNoLongerExistingModuleStatus leaves in the status.
use lifecycle_manager.Prelude.{
  ℕ, String, str_eq, eq_iff, eq_refl, ◌≡◌, refl, sym, subst, ◌∙◌, ◌⊎◌, inl, inr, true, false, not,
  List, [], ◌∷◌, Option, some, All, Member, All-map, All-implies, All-Member, contains, keep,
  if◌then◌else◌, Bool-cases, Option-cases, arith,
}
use lifecycle_manager.Errors.{Error, ErrorLib, is_not_found, ok}
use lifecycle_manager.Modules.{CommonModule, Objects}
use lifecycle_manager.Api.{
  State, ModuleStatus, TrackingObject, Kyma, last_of_names, get_no_longer_existing_module_status,
}
use lifecycle_manager.Statuses.Update.{
  get_module_error, without, with_state_of, delete_status, delete_statuses,
  delete_no_longer_existing_module_status, update_module_statuses, with_module_statuses,
}
use lifecycle_manager.Statuses.Names.{
  UniqueNames, spec_names, has_name, last_UniqueNames, keep_missing, keep-UniqueNames,
  has_name-Member, keep-Member, All-keep,
}

module _ (lib : ErrorLib) (get : TrackingObject → Option Error × State) (named : List String) where
  -- The entry is of a module in the spec, or has a manifest that Get has not reported as missing.
  abbrev pub Accounted : ModuleStatus → Type 0
  Accounted s =
      (contains named s.name ≡ true)
      ⊎ ((object : TrackingObject) × (s.manifest ≡ some object)
          × (is_not_found lib (get_module_error lib get (get object).0) ≡ false))

  abbrev Pending : List ModuleStatus → ModuleStatus → Type 0
  Pending ds s = Accounted s ⊎ Member s ds

  other-Pending :
      (d s : ModuleStatus) (ds : List ModuleStatus)
      → Pending (d ∷ ds) s
      → str_eq s.name d.name ≡ false
      → Pending ds s
  other-Pending d s ds (inl a) h = inl a
  other-Pending d s ds (inr (inl e)) h = absurd (ground (arith, m, eq_refl d.name))
    where
      m : str_eq d.name d.name ≡ false
      m = subst (λ t. str_eq t.name d.name ≡ false) e h
  other-Pending d s ds (inr (inr i)) h = inr i

  without-Pending :
      (d : ModuleStatus) (ds ss : List ModuleStatus)
      → All (Pending (d ∷ ds)) ss
      → All (Pending ds) (without lib get d.name ss)
  without-Pending d ds ss a =
      All-implies (λ s. Pending (d ∷ ds) s × (not (str_eq s.name d.name) ≡ true)) (Pending ds)
        (without lib get d.name ss) (λ s p. other-Pending d s ds p.0 (ground (arith, p.1)))
        (All-keep (Pending (d ∷ ds)) (λ s. not (str_eq s.name d.name)) ss a)

  state-Pending :
      (d s : ModuleStatus) (ds : List ModuleStatus) (state : State)
      → has_name d.name ds ≡ false
      → Accounted d
      → Pending (d ∷ ds) s
      → Pending ds (if str_eq s.name d.name then record s { state = state } else s)
  state-Pending d s ds state u g p = elim (Bool-cases (str_eq s.name d.name)) [
    | inr other ↦ rw other (other-Pending d s ds p other)
    | inl same ↦ rw same (inl (accounted same p))
  ]
    where
      gone : str_eq s.name d.name ≡ true → Member s ds → ⊥
      gone same i =
          let e : s.name ≡ d.name = (eq_iff s.name d.name).0 same in
          let h : has_name d.name ds ≡ true =
            subst (λ n. has_name n ds ≡ true) e (has_name-Member s ds i) in
          absurd (ground (arith, h, u))

      accounted :
          str_eq s.name d.name ≡ true → Pending (d ∷ ds) s → Accounted (record s { state = state })
      accounted same (inl a) = a
      accounted same (inr (inl e)) = subst Accounted (sym e) g
      accounted same (inr (inr i)) = absurd (gone same i)

  without_missing :
      (name other : String) (ss : List ModuleStatus)
      → has_name name ss ≡ false
      → has_name name (without lib get other ss) ≡ false
  without_missing name other = keep_missing (λ s. not (str_eq s.name other)) name

  state_names :
      (name other : String) (state : State) (ss : List ModuleStatus)
      → has_name name (with_state_of lib get other state ss) ≡ has_name name ss
  state_names name other state [] = refl
  state_names name other state (s ∷ ss) =
      let ih = state_names name other state ss in ground (arith, ih)

  state_UniqueNames :
      (other : String) (state : State) (ss : List ModuleStatus)
      → UniqueNames ss
      → UniqueNames (with_state_of lib get other state ss)
  state_UniqueNames other state [] u = tt
  state_UniqueNames other state (s ∷ ss) u =
      let named_once = state_names s.name other state ss ∙ u.0 in
      (
        elim (Bool-cases (str_eq s.name other)) [
          | inl same ↦ rw same named_once
          | inr changed ↦ rw changed named_once
        ],
        state_UniqueNames other state ss u.1,
      )

  -- What the loop over the entries `ds` keeps of the map.
  abbrev Kept : List ModuleStatus → List ModuleStatus → Type 0
  Kept ds ss = UniqueNames ss × All (Pending ds) ss

  delete_one-Kept :
      (d : ModuleStatus) (ds ss : List ModuleStatus) (removed : List String)
      → has_name d.name ds ≡ false
      → Kept (d ∷ ds) ss
      → Kept ds (delete_status lib get d (ss, removed)).0
  unfolding delete_status
  delete_one-Kept d ds ss removed u (un, a) = elim (Option-cases d.manifest) [
    | inl bare ↦
        rw (bare, delete_status)
          (keep-UniqueNames (λ s. not (str_eq s.name d.name)) ss un, without-Pending d ds ss a)
    | inr (object, e) ↦
        elim (Bool-cases (is_not_found lib (get_module_error lib get (get object).0))) [
          | inl missing ↦
              rw (e, delete_status)
                (rw missing (
                  keep-UniqueNames (λ s. not (str_eq s.name d.name)) ss un,
                  without-Pending d ds ss a,
                ))
          | inr present ↦
              rw (e, delete_status)
                (rw present (
                  state_UniqueNames d.name (get object).1 ss un,
                  All-map (Pending (d ∷ ds)) (Pending ds)
                      (λ s. if str_eq s.name d.name then record s { state = (get object).1 } else s)
                      ss (λ s p. state-Pending d s ds (get object).1 u (inr (object, e, present)) p)
                      a,
                ))
        ]
  ]

  delete_all-Kept :
      (ds ss : List ModuleStatus) (removed : List String)
      → UniqueNames ds
      → Kept ds ss
      → Kept [] (delete_statuses lib get ds (ss, removed)).0
  unfolding delete_statuses
  delete_all-Kept [] ss removed u k = k
  delete_all-Kept (d ∷ ds) ss removed u k =
      delete_all-Kept ds (delete_status lib get d (ss, removed)).0
        (delete_status lib get d (ss, removed)).1 u.1 (delete_one-Kept d ds ss removed u.0 k)

  first-Pending :
      (ss all : List ModuleStatus)
      → All (λ s. Member s all) ss
      → All (Pending (keep (λ s. not (contains named s.name)) all)) ss
  first-Pending [] all a = tt
  first-Pending (s ∷ ss) all a = (
    elim (Bool-cases (contains named s.name)) [
      | inl in_spec ↦ inl (inl in_spec)
      | inr gone ↦ inr (keep-Member (λ t. not (contains named t.name)) s all a.0 (rw gone refl))
    ],
    first-Pending ss all a.1,
  )

  settled :
      (ss : List ModuleStatus)
      → Kept []
          (delete_statuses lib get
            (keep (λ s. not (contains named s.name)) (last_of_names ss))
            (last_of_names ss, [])).0
  settled ss =
      let names = last_UniqueNames ss in
      delete_all-Kept (keep (λ s. not (contains named s.name)) (last_of_names ss))
        (last_of_names ss) [] (keep-UniqueNames (λ s. not (contains named s.name)) _ names)
        (names, first-Pending (last_of_names ss) (last_of_names ss) (All-Member (last_of_names ss)))

  Accounted-of : (s : ModuleStatus) → Pending [] s → Accounted s
  Accounted-of s (inl a) = a
  Accounted-of s (inr i) = absurd i

-- The entry is of a module that the spec of the Kyma names, or has a manifest that Get has not
-- reported as missing.
abbrev pub AccountedFor :
    ErrorLib → (TrackingObject → Option Error × State) → Kyma → ModuleStatus → Type 0
AccountedFor lib get kyma = Accounted lib get (spec_names kyma)

deleted-Accounted :
    (lib : ErrorLib) (get : TrackingObject → Option Error × State) (kyma : Kyma)
    → UniqueNames (delete_no_longer_existing_module_status lib get kyma).0
      × All (AccountedFor lib get kyma) (delete_no_longer_existing_module_status lib get kyma).0
unfolding delete_no_longer_existing_module_status get_no_longer_existing_module_status
deleted-Accounted lib get kyma =
    let k = settled lib get (spec_names kyma) kyma.status.modules in
    (k.0, All-implies _ _ _ (Accounted-of lib get (spec_names kyma)) k.1)

-- UpdateModuleStatuses gives for every Kyma and all modules a Kyma with the same spec. In its
-- status no two entries have the same name, and each entry is of a module that the spec names, or
-- has a manifest that Get has not reported as missing.
pub update_module_statuses-Accounted :
    (lib : ErrorLib) (get : TrackingObject → Option Error × State) (text : Error → String)
    (objects : Objects) (room : ℕ) (modules : List CommonModule) (kyma : Kyma)
    → (new : Kyma) × (removed : List String) × (update_module_statuses lib get text objects room
          modules
          (some kyma)
        ≡ ok (new, removed))
      × (new.spec ≡ kyma.spec)
      × UniqueNames new.status.modules
      × All (AccountedFor lib get kyma) new.status.modules
unfolding update_module_statuses with_module_statuses
update_module_statuses-Accounted lib get text objects room modules kyma =
    let k = deleted-Accounted lib get (with_module_statuses text objects room modules kyma) in
    (_, _, refl, refl, k.0, k.1)
