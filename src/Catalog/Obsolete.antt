-- ===== src/Catalog/Obsolete.antt =====
-- What the synchronization deletes in the runtime.
use lifecycle_manager.Prelude.{
  append_text, Bool-cases, ◌≡◌, ◌≢◌, ◌↔◌, refl, sym, ap, subst, ◌∙◌, String, str_eq, eq_iff, Bool,
  true, not, List, [], ◌∷◌, map, Member, any, keep, keep-Member, Member-keep, map-Member,
  Member-map, any_lem, none_lem, ◌⊎◌, inl, inr, none,
}
use lifecycle_manager.Errors.{ok}
use lifecycle_manager.Catalog.Sync.{
  Entry, CatalogCall, apply, remove, Kind, SkrCatalog, call_all, sync_concurrently,
  delete_concurrently, is_managed_by_kcp, entry_identity, prepare_for_ssa, not_existing_in,
  obsolete, sync_to_skr,
}

module _ {T : Type 0} (kind : Kind T) where
  -- The namespace and the name of the entry, written together.
  abbrev pub full_name : Entry T → String
  full_name e = append_text (kind.meta e.object).namespace (kind.meta e.object).name

  pub any-full_name :
      (e : Entry T) (es : List (Entry T))
      → any (λ k. str_eq (full_name k) (full_name e)) es ≡ true
      → (k : Entry T) × Member k es × (full_name k ≡ full_name e)
  any-full_name e [] h = cc
  any-full_name e (k ∷ es) h = elim (Bool-cases (str_eq (full_name k) (full_name e))) [
    | inl found ↦ (k, inl refl, (eq_iff _ _).0 found)
    | inr other ↦
        let rest = any-full_name e es (rw (any, other) at h) in (rest.0, inr rest.1, rest.2)
  ]

module _ {T : Type 0} (kind : Kind T) (namespace : String) (client : SkrCatalog T) where
  called-Member :
      (text : String) (cs calls : List (CatalogCall T)) (c : CatalogCall T)
      → Member c (call_all kind namespace client text cs calls).0
      → Member c cs ⊎ Member c calls
  called-Member text [] calls c i = inr i
  called-Member text (d ∷ cs) calls c i = elim (called-Member text cs (d ∷ calls) c i) [
    | inl later ↦ inl (inr later)
    | inr (inl here) ↦ inl (inl here)
    | inr (inr before) ↦ inr before
  ]

  earlier-Member :
      (text : String) (cs calls : List (CatalogCall T)) (c : CatalogCall T)
      → Member c calls
      → Member c (call_all kind namespace client text cs calls).0
  earlier-Member text [] calls c i = i
  earlier-Member text (d ∷ cs) calls c i = earlier-Member text cs (d ∷ calls) c (inr i)

  Member-called :
      (text : String) (cs calls : List (CatalogCall T)) (c : CatalogCall T)
      → Member c cs
      → Member c (call_all kind namespace client text cs calls).0
  Member-called text [] calls c i = absurd i
  Member-called text (d ∷ cs) calls c (inl here) = earlier-Member text cs (d ∷ calls) c (inl here)
  Member-called text (d ∷ cs) calls c (inr there) = Member-called text cs (d ∷ calls) c there

  -- The entry is managed by the synchronization, and none of the synchronized ones has its namespace
  -- and name, written together.
  abbrev pub IsObsolete : List (Entry T) → Entry T → Type 0
  IsObsolete kcp_modules e =
      (is_managed_by_kcp kind namespace e ≡ true)
      × ((k : Entry T)
          → Member k kcp_modules
          → full_name kind (prepare_for_ssa kind namespace k) ≢ full_name kind e)

  same_removed : {e f : Entry T} → remove e ≡ remove f → e ≡ f
  same_removed h = cc

  not_applied : {e f : Entry T} → remove e ≢ apply f
  not_applied h = cc

  pub obsolete_iff :
      (runtime kcp_modules : List (Entry T)) (e : Entry T)
      → Member e (obsolete kind namespace client runtime kcp_modules)
        ↔ (Member e runtime × IsObsolete kcp_modules e)
  unfolding obsolete not_existing_in
  obsolete_iff runtime kcp_modules e = (forth, back)
    where
      prepared : List (Entry T)
      prepared = map (prepare_for_ssa kind namespace) kcp_modules

      unnamed : Entry T → Bool
      unnamed f = not (
          any (λ k. str_eq (entry_identity kind namespace k) (entry_identity kind namespace f))
            prepared)

      forth :
          Member e (obsolete kind namespace client runtime kcp_modules)
          → Member e runtime × IsObsolete kcp_modules e
      forth i =
          let managed = keep-Member (is_managed_by_kcp kind namespace) (keep unnamed runtime) e i in
          let listed = keep-Member unnamed runtime e managed.0 in
          (
            listed.0,
            (
              managed.1,
              λ k m.
                  any_lem (entry_identity kind namespace) (entry_identity kind namespace e) prepared
                    listed.1 (prepare_for_ssa kind namespace k)
                    (Member-map (prepare_for_ssa kind namespace) kcp_modules k m),
            ),
          )

      back :
          (Member e runtime × IsObsolete kcp_modules e)
          → Member e (obsolete kind namespace client runtime kcp_modules)
      back (i, (managed, apart)) =
          Member-keep (is_managed_by_kcp kind namespace) (keep unnamed runtime) e
            (Member-keep unnamed runtime e i (
              none_lem (entry_identity kind namespace) (entry_identity kind namespace e) prepared
                (λ p m same.
                  let (k, km, eq) = map-Member (prepare_for_ssa kind namespace) kcp_modules p m in
                  apart k km (ap (entry_identity kind namespace) (sym eq) ∙ same))))
            managed

  -- If the synchronization has applied all entries without an error and has listed the runtime, it
  -- asks for the deletion of an entry exactly if that is in the runtime and managed by the
  -- synchronization, and its namespace and name, written together, are those of no entry that was
  -- applied.
  pub sync_to_skr_removes_iff :
      (kcp_modules runtime : List (Entry T))
      → (sync_concurrently kind namespace client kcp_modules []).1 ≡ none
      → client.list (sync_concurrently kind namespace client kcp_modules []).0 ≡ ok runtime
      → (e : Entry T)
      → Member (remove e) (sync_to_skr kind namespace client kcp_modules []).0
        ↔ (Member e runtime × IsObsolete kcp_modules e)
  unfolding sync_to_skr sync_concurrently delete_concurrently
  sync_to_skr_removes_iff kcp_modules runtime synced listed e = (forth, back)
    where
      calls : List (CatalogCall T)
      calls = (sync_concurrently kind namespace client kcp_modules []).0

      gone : List (Entry T)
      gone = obsolete kind namespace client runtime kcp_modules

      run :
          (sync_to_skr kind namespace client kcp_modules []).0
          ≡ (delete_concurrently kind namespace client gone calls).0
      run = rw (sync_to_skr, synced, listed) refl

      applied : List (CatalogCall T)
      applied = map (λ k. apply (prepare_for_ssa kind namespace k)) kcp_modules

      never : ¬ Member (remove e) calls
      never i = elim (called-Member kind.apply_text applied [] (remove e) i) [
        | inl m ↦
            let (k, km, eq) =
              map-Member (λ k. apply (prepare_for_ssa kind namespace k)) kcp_modules (remove e) m in
            not_applied eq
        | inr m ↦ m
      ]

      forth :
          Member (remove e) (sync_to_skr kind namespace client kcp_modules []).0
          → Member e runtime × IsObsolete kcp_modules e
      forth i =
          elim (called-Member kind.delete_text (map (λ f. remove f) gone) calls (remove e)
            (subst (Member (remove e)) run i)) [
              | inl deleted ↦
                  let (f, fm, eq) = map-Member (λ f. remove f) gone (remove e) deleted in
                  (obsolete_iff runtime kcp_modules e).0
                    (subst (λ x. Member x gone) (sym (same_removed eq)) fm)
              | inr before ↦ absurd (never before)
            ]

      back :
          (Member e runtime × IsObsolete kcp_modules e)
          → Member (remove e) (sync_to_skr kind namespace client kcp_modules []).0
      back h = subst (Member (remove e)) (sym run) (
          Member-called kind.delete_text (map (λ f. remove f) gone) calls (remove e)
            (Member-map (λ f. remove f) gone e ((obsolete_iff runtime kcp_modules e).1 h)))
