-- ===== src/Statuses/Cells.antt =====
-- The cells of the loop of UpdateModuleStatuses: what a write changes, and which keys there are.
use lifecycle_manager.Prelude.{
  ℕ, String, str_eq, eq_iff, ◌≡◌, refl, ap, subst, ◌∙◌, true, false, List, [], ◌∷◌, none, some,
  if◌then◌else◌, Bool-cases, inl, inr, arith,
}
use lifecycle_manager.Errors.{Error}
use lifecycle_manager.Api.{ModuleStatus}
use lifecycle_manager.Modules.{CommonModule, Objects}
use lifecycle_manager.Statuses.Update.{
  Slice, values, get_module_status_map, has_key, pointee, write, new_module_status,
}

-- No two cells have the same key.
abbrev pub Unique : List (String × ModuleStatus) → Type 0
Unique [] = Unit
Unique ((key, s) ∷ cells) = (has_key key cells ≡ false) × Unique cells

abbrev pub plain : List (String × ModuleStatus) → List ModuleStatus → ℕ → Slice
plain cells added room = record { cells = cells; copied = none; added = added; room = room }

abbrev pub copy : List (String × ModuleStatus) → (entries added : List ModuleStatus) → ℕ → Slice
copy cells entries added room = record {
  cells = cells;
  copied = some entries;
  added = added;
  room = room;
}

abbrev pub slice_of : ℕ → List ModuleStatus → Slice
slice_of room ss = record {
  cells = get_module_status_map ss;
  copied = none;
  added = [];
  room = room;
}

pub write_keys :
    (k key : String) (new : ModuleStatus) (cells : List (String × ModuleStatus))
    → has_key k (write key new cells) ≡ has_key k cells
unfolding write
write_keys k key new [] = refl
write_keys k key new ((name, s) ∷ cells) = let ih = write_keys k key new cells in ground (arith, ih)

pub pointee_missing :
    (key : String) (cells : List (String × ModuleStatus))
    → has_key key cells ≡ false
    → pointee key cells ≡ none
unfolding pointee
pointee_missing key [] h = refl
pointee_missing key ((name, s) ∷ cells) h = ground (arith, h)

pub pointee_present :
    (key : String) (cells : List (String × ModuleStatus))
    → has_key key cells ≡ true
    → (s : ModuleStatus) × (pointee key cells ≡ some s)
unfolding pointee
pointee_present key [] h = absurd (ground (arith, h))
pointee_present key ((name, s) ∷ cells) h = elim (Bool-cases (has_key key cells)) [
  | inl later ↦ let (t, e) = pointee_present key cells later in (t, rw later e)
  | inr last ↦ (s, ground (arith, h, last))
]

pub values_keys : (ss : List ModuleStatus) → values (get_module_status_map ss) ≡ ss
values_keys [] = refl
values_keys (s ∷ ss) = ap (λ r. s ∷ r) (values_keys ss)

module _ (text : Error → String) (objects : Objects) where
  -- The new statuses of the modules that have none, in the order of the modules.
  abbrev pub fresh : List CommonModule → List (String × ModuleStatus) → List ModuleStatus
  fresh [] cells = []
  fresh (c ∷ cs) cells =
      let rest = fresh cs cells in
      if has_key c.module_name cells then rest else new_module_status text objects c none ∷ rest

  pub fresh_keys :
      (cs : List CommonModule) (a b : List (String × ModuleStatus))
      → ((k : String) → has_key k a ≡ has_key k b)
      → fresh cs a ≡ fresh cs b
  fresh_keys [] a b h = refl
  fresh_keys (c ∷ cs) a b h = rw (h c.module_name) (rw (fresh_keys cs a b h) refl)

  -- The status that the modules of that name give one after the other.
  abbrev pub refreshed : List CommonModule → String → ModuleStatus → ModuleStatus
  refreshed [] key s = s
  refreshed (c ∷ cs) key s =
      refreshed cs key
        (if str_eq key c.module_name then new_module_status text objects c (some s) else s)

  abbrev pub refresh_cells :
      List CommonModule → List (String × ModuleStatus) → List (String × ModuleStatus)
  refresh_cells cs [] = []
  refresh_cells cs ((key, s) ∷ cells) = (key, refreshed cs key s) ∷ refresh_cells cs cells

  pub refresh_missing :
      (c : CommonModule) (cells : List (String × ModuleStatus))
      → has_key c.module_name cells ≡ false
      → refresh_cells (c ∷ []) cells ≡ cells
  refresh_missing c [] h = refl
  refresh_missing c ((key, s) ∷ cells) h = elim (Bool-cases (str_eq key c.module_name)) [
    | inl same ↦ absurd (ground (arith, h, same))
    | inr other ↦
        rw other (ap (λ r. (key, s) ∷ r) (refresh_missing c cells (ground (arith, h, other))))
  ]

  same_key :
      (c : CommonModule) (key : String) (cells : List (String × ModuleStatus))
      → has_key key cells ≡ false
      → has_key c.module_name cells ≡ true
      → str_eq key c.module_name ≡ false
  same_key c key cells h g = elim (Bool-cases (str_eq key c.module_name)) [
    | inr other ↦ other
    | inl same ↦
        let e : key ≡ c.module_name = (eq_iff key c.module_name).0 same in
        let m : has_key c.module_name cells ≡ false = subst (λ k. has_key k cells ≡ false) e h in
        absurd (ground (arith, m, g))
  ]

  pub write_refresh :
      (c : CommonModule) (cells : List (String × ModuleStatus)) (s : ModuleStatus)
      → Unique cells
      → pointee c.module_name cells ≡ some s
      → write c.module_name (new_module_status text objects c (some s)) cells
        ≡ refresh_cells (c ∷ []) cells
  unfolding pointee write
  write_refresh c [] s u h = refl
  write_refresh c ((key, t) ∷ cells) s u h = elim (Bool-cases (has_key c.module_name cells)) [
    | inl later ↦
        let other = same_key c key cells u.0 later in
        rw later (
          rw other
            (ap (λ r. (key, t) ∷ r) (write_refresh c cells s u.1 (ground (arith, h, later)))))
    | inr last ↦ elim (Bool-cases (str_eq key c.module_name)) [
      | inl same ↦
          let e : t ≡ s = ground (arith, h, last, same) in
          rw last (rw same (rw e (rw (refresh_missing c cells last) refl)))
      | inr other ↦ absurd (ground (arith, h, last, other))
    ]
  ]

  pub refresh_then :
      (c : CommonModule) (cs : List CommonModule) (cells : List (String × ModuleStatus))
      → refresh_cells cs (refresh_cells (c ∷ []) cells) ≡ refresh_cells (c ∷ cs) cells
  refresh_then c cs [] = refl
  refresh_then c cs ((key, s) ∷ cells) =
      ap (λ r. (key, refreshed (c ∷ cs) key s) ∷ r) (refresh_then c cs cells)

  pub refresh_keys :
      (k : String) (cs : List CommonModule) (cells : List (String × ModuleStatus))
      → has_key k (refresh_cells cs cells) ≡ has_key k cells
  refresh_keys k cs [] = refl
  refresh_keys k cs ((key, s) ∷ cells) = rw (refresh_keys k cs cells) refl

  pub refresh_Unique :
      (cs : List CommonModule) (cells : List (String × ModuleStatus))
      → Unique cells
      → Unique (refresh_cells cs cells)
  refresh_Unique cs [] u = tt
  refresh_Unique cs ((key, s) ∷ cells) u =
      (refresh_keys key cs cells ∙ u.0, refresh_Unique cs cells u.1)

  pub refresh_none : (cells : List (String × ModuleStatus)) → refresh_cells [] cells ≡ cells
  refresh_none [] = refl
  refresh_none ((key, s) ∷ cells) = ap (λ r. (key, s) ∷ r) (refresh_none cells)
