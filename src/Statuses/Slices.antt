-- ===== src/Statuses/Slices.antt =====
-- The loop of UpdateModuleStatuses against what it means to do, and what an append to a full slice
-- does to it.
use lifecycle_manager.Prelude.{
  ℕ, suc, ◌-◌, ◌≤◌, String, ◌≡◌, refl, sym, ap, subst, ◌∙◌, true, false, List, [], ◌∷◌, ◌++◌, map,
  none, some, length, append_assoc, append_nil, Bool-cases, inl, inr, arith,
}
use lifecycle_manager.Errors.{Error}
use lifecycle_manager.Api.{ModuleStatus}
use lifecycle_manager.Modules.{CommonModule, Objects}
use lifecycle_manager.Statuses.Update.{
  Slice, values, visible, append, get_module_status_map, has_key, pointee, write, new_module_status,
  update_one, update_all,
}
use lifecycle_manager.Statuses.Cells.{
  Unique, plain, copy, slice_of, write_keys, pointee_missing, pointee_present, values_keys, fresh,
  fresh_keys, refreshed, refresh_cells, refresh_missing, write_refresh, refresh_then, refresh_keys,
  refresh_Unique, refresh_none,
}

module _ (text : Error → String) (objects : Objects) where
  one_present :
      (c : CommonModule) (sl : Slice) (s : ModuleStatus)
      → pointee c.module_name sl.cells ≡ some s
      → update_one text objects c sl ≡ record sl {
        cells = write c.module_name (new_module_status text objects c (some s)) sl.cells;
      }
  unfolding update_one
  one_present c sl s e = rw (e, update_one) refl

  one_missing :
      (c : CommonModule) (sl : Slice)
      → has_key c.module_name sl.cells ≡ false
      → update_one text objects c sl ≡ append (new_module_status text objects c none) sl
  unfolding update_one
  one_missing c sl h = rw (pointee_missing c.module_name sl.cells h, update_one) refl

  -- A module that the status does not have takes the next place behind it.
  fresh_missing :
      (c : CommonModule) (cs : List CommonModule) (cells : List (String × ModuleStatus))
      → has_key c.module_name cells ≡ false
      → fresh text objects (c ∷ cs) cells
        ≡ new_module_status text objects c none ∷ fresh text objects cs cells
  fresh_missing c cs cells h = rw h refl

  fresh_present :
      (c : CommonModule) (cs : List CommonModule) (cells : List (String × ModuleStatus))
      → has_key c.module_name cells ≡ true
      → fresh text objects (c ∷ cs) cells ≡ fresh text objects cs cells
  fresh_present c cs cells h = rw h refl

  -- Behind the copy, the loop only appends.
  loop_copied :
      (cs : List CommonModule) (cells : List (String × ModuleStatus))
      (entries added : List ModuleStatus) (room : ℕ)
      → visible (update_all text objects cs (copy cells entries added room))
        ≡ entries ++ (added ++ fresh text objects cs cells)
  unfolding update_all append visible
  loop_copied [] cells entries added room = ap (λ r. entries ++ r) (sym (append_nil added))
  loop_copied (c ∷ cs) cells entries added room = elim (Bool-cases (has_key c.module_name cells)) [
    | inl present ↦
        let (s, e) = pointee_present c.module_name cells present in
        let new = new_module_status text objects c (some s) in
        let written = write c.module_name new cells in
        ap (λ t. visible (update_all text objects cs t))
          (one_present c (copy cells entries added room) s e)
        ∙ loop_copied cs written entries added room
        ∙ ap (λ r. entries ++ (added ++ r))
            (fresh_keys text objects cs written cells (λ k. write_keys k c.module_name new cells)
              ∙ sym (fresh_present c cs cells present))
    | inr missing ↦
        let new = new_module_status text objects c none in
        ap (λ t. visible (update_all text objects cs t))
          (one_missing c (copy cells entries added room) missing)
        ∙ loop_copied cs cells entries (added ++ new ∷ []) room
        ∙ ap (λ r. entries ++ r)
            (append_assoc added (new ∷ []) (fresh text objects cs cells)
              ∙ ap (λ r. added ++ r) (sym (fresh_missing c cs cells missing)))
  ]

  append_room :
      (x : ModuleStatus) (cells : List (String × ModuleStatus)) (added : List ModuleStatus)
      (room : ℕ)
      → 1 ≤ room
      → append x (plain cells added room) ≡ plain cells (added ++ x ∷ []) (room - 1)
  unfolding append
  append_room x cells added room h = ground (arith, h)

  loop_room :
      (cs : List CommonModule) (cells : List (String × ModuleStatus)) (added : List ModuleStatus)
      (room : ℕ)
      → Unique cells
      → length (fresh text objects cs cells) ≤ room
      → visible (update_all text objects cs (plain cells added room))
        ≡ values (refresh_cells text objects cs cells) ++ (added ++ fresh text objects cs cells)
  unfolding update_all visible
  loop_room [] cells added room u h =
      rw (refresh_none text objects cells) (ap (λ r. values cells ++ r) (sym (append_nil added)))
  loop_room (c ∷ cs) cells added room u h = elim (Bool-cases (has_key c.module_name cells)) [
    | inl present ↦
        let (s, e) = pointee_present c.module_name cells present in
        let once = refresh_cells text objects (c ∷ []) cells in
        let keys : fresh text objects cs once ≡ fresh text objects (c ∷ cs) cells =
          fresh_keys text objects cs once cells (λ k. refresh_keys text objects k (c ∷ []) cells)
          ∙ sym (fresh_present c cs cells present) in
        ap (λ t. visible (update_all text objects cs t))
          (one_present c (plain cells added room) s e
            ∙ ap (λ r. plain r added room) (write_refresh text objects c cells s u e))
        ∙ loop_room cs once added room (refresh_Unique text objects (c ∷ []) cells u)
            (subst (λ l. length l ≤ room) (sym keys) h)
        ∙ ap (λ r. values r ++ (added ++ fresh text objects cs once))
            (refresh_then text objects c cs cells)
        ∙ ap (λ r. values (refresh_cells text objects (c ∷ cs) cells) ++ (added ++ r)) keys
    | inr missing ↦
        let new = new_module_status text objects c none in
        let more : suc (length (fresh text objects cs cells)) ≤ room =
          subst (λ l. length l ≤ room) (fresh_missing c cs cells missing) h in
        ap (λ t. visible (update_all text objects cs t))
          (one_missing c (plain cells added room) missing
            ∙ append_room new cells added room (omega arith))
        ∙ loop_room cs cells (added ++ new ∷ []) (room - 1) u (omega arith)
        ∙ ap (λ r. values (refresh_cells text objects cs cells) ++ r)
            (append_assoc added (new ∷ []) (fresh text objects cs cells)
              ∙ ap (λ r. added ++ r) (sym (fresh_missing c cs cells missing)))
        ∙ ap (λ r. values r ++ (added ++ fresh text objects (c ∷ cs) cells))
            (ap (λ r. refresh_cells text objects cs r)
                (sym (refresh_missing text objects c cells missing))
              ∙ refresh_then text objects c cs cells)
  ]

  abbrev refresh_status : List CommonModule → ModuleStatus → ModuleStatus
  refresh_status cs s = refreshed text objects cs s.name s

  refresh_map :
      (cs : List CommonModule) (ss : List ModuleStatus)
      → values (refresh_cells text objects cs (get_module_status_map ss))
        ≡ map (refresh_status cs) ss
  refresh_map cs [] = refl
  refresh_map cs (s ∷ ss) = ap (λ r. refresh_status cs s ∷ r) (refresh_map cs ss)

  -- If no name occurs twice in the status and the slice has room for the modules that it does not
  -- have yet, then the loop gives each entry the status of its modules, and appends one entry for
  -- each module that has none.
  pub update_all_room :
      (cs : List CommonModule) (ss : List ModuleStatus) (room : ℕ)
      → Unique (get_module_status_map ss)
      → length (fresh text objects cs (get_module_status_map ss)) ≤ room
      → visible (update_all text objects cs (slice_of room ss))
        ≡ map (λ (s : ModuleStatus). refreshed text objects cs s.name s) ss
          ++ fresh text objects cs (get_module_status_map ss)
  update_all_room cs ss room u h =
      loop_room cs (get_module_status_map ss) [] room u h
      ∙ ap (λ r. r ++ fresh text objects cs (get_module_status_map ss)) (refresh_map cs ss)

  -- If the slice is full and the first module is one that the status does not have, then no entry
  -- of the status changes, whatever modules come behind: their new statuses are lost, but for
  -- those of modules that the status does not have either.
  pub update_all_lost :
      (c : CommonModule) (cs : List CommonModule) (ss : List ModuleStatus)
      → has_key c.module_name (get_module_status_map ss) ≡ false
      → visible (update_all text objects (c ∷ cs) (slice_of 0 ss))
        ≡ ss
          ++ (new_module_status text objects c none
              ∷ fresh text objects cs (get_module_status_map ss))
  unfolding update_all append
  update_all_lost c cs ss h =
      let new = new_module_status text objects c none in
      ap (λ t. visible (update_all text objects cs t)) (one_missing c (slice_of 0 ss) h)
      ∙ loop_copied cs (get_module_status_map ss) (values (get_module_status_map ss)) (new ∷ []) 0
      ∙ ap (λ r. r ++ (new ∷ fresh text objects cs (get_module_status_map ss))) (values_keys ss)
