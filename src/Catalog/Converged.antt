-- ===== src/Catalog/Converged.antt =====
-- The runtime behind a synchronization whose calls are carried out.
use lifecycle_manager.Prelude.{
  ◌≡◌, refl, sym, ap, subst, ◌∙◌, String, str_eq, append_text, true, false, not, List, [], ◌∷◌, map,
  Member, any, keep, keep-Member, Member-keep, map-Member, Bool-cases, inl, inr, Option, none,
}
use lifecycle_manager.Catalog.Sync.{
  Entry, CatalogCall, apply, remove, Kind, SkrCatalog, call_all, sync_concurrently,
  delete_concurrently, is_managed_by_kcp, prepare_for_ssa, not_existing_in, obsolete, sync_to_skr,
}
use lifecycle_manager.Catalog.Obsolete.{full_name, any-full_name, obsolete_iff}
use lifecycle_manager.Catalog.Server.{
  SameKey, same_key, SameKey-same_key, same_key-SameKey, Distinct, carried-Distinct, keep-Distinct,
  Member-dropped, held, carried, Carries, Present,
}

module _ {T : Type 0} (kind : Kind T) (namespace : String) where
  abbrev prepared : Entry T → Entry T
  prepared k = prepare_for_ssa kind namespace k

  module _ (client : SkrCatalog T) (stored : Option (Entry T) → Entry T → Entry T)
      (runtime : List (Entry T)) (server : Carries kind client stored runtime) where
    abbrev after : List (CatalogCall T) → List (Entry T)
    after calls = carried kind stored calls runtime

    abbrev prepared_calls : List (Entry T) → List (CatalogCall T)
    prepared_calls ks = map (λ k. apply (prepared k)) ks

    abbrev removals : List (Entry T) → List (CatalogCall T)
    removals gone = map (λ f. remove f) gone

    abbrev called : (text : String) (cs calls : List (CatalogCall T)) → List (CatalogCall T)
    called text cs calls = (call_all kind namespace client text cs calls).0

    applied_no_errors :
        (text : String) (ks : List (Entry T)) (calls : List (CatalogCall T))
        → (call_all kind namespace client text (prepared_calls ks) calls).1 ≡ []
    applied_no_errors text [] calls = refl
    applied_no_errors text (k ∷ ks) calls =
        rw (call_all, server.applies (prepared k) calls)
          (applied_no_errors text ks (apply (prepared k) ∷ calls))

    removed_no_errors :
        (text : String) (gone : List (Entry T)) (calls : List (CatalogCall T))
        → Distinct kind gone
        → ((f : Entry T) → Member f gone → Member f (after calls))
        → (call_all kind namespace client text (removals gone) calls).1 ≡ []
    removed_no_errors text [] calls d h = refl
    removed_no_errors text (g ∷ gone) calls d h =
        rw (call_all, server.removes g calls (g, h g (inl refl), (refl, refl)))
          (removed_no_errors text gone (remove g ∷ calls) d.1 (λ f i.
            Member-dropped kind g f (after calls) (h f (inr i))
              (λ same. d.0 f i (sym same.0, sym same.1))))

    removed-Member :
        (text : String) (gone : List (Entry T)) (calls : List (CatalogCall T)) (e : Entry T)
        → Member e (after (called text (removals gone) calls))
        → Member e (after calls) × ((f : Entry T) → Member f gone → ¬ SameKey kind e f)
    removed-Member text [] calls e i = (i, λ f m. absurd m)
    removed-Member text (g ∷ gone) calls e i =
        let rest = removed-Member text gone (remove g ∷ calls) e i in
        let here = keep-Member (λ x. not (same_key kind x g)) (after calls) e rest.0 in
        (
          here.0,
          λ f m. elim m [
            | inl first ↦ λ same.
                let key : same_key kind e g ≡ true =
                  SameKey-same_key kind e g (subst (SameKey kind e) first same) in
                let bad : false ≡ true = rw key at here.1 in cc
            | inr there ↦ rest.1 f there
          ],
        )

    Member-removed :
        (text : String) (gone : List (Entry T)) (calls : List (CatalogCall T)) (e : Entry T)
        → Member e (after calls)
        → ((f : Entry T) → Member f gone → ¬ SameKey kind e f)
        → Member e (after (called text (removals gone) calls))
    Member-removed text [] calls e i apart = i
    Member-removed text (g ∷ gone) calls e i apart =
        Member-removed text gone (remove g ∷ calls) e
          (Member-dropped kind g e (after calls) i (apart g (inl refl))) (λ f m. apart f (inr m))

    applied-Present :
        (k p : Entry T) (calls : List (CatalogCall T))
        → Present kind p (after calls)
        → Present kind p (after (apply k ∷ calls))
    applied-Present k p calls (e, m, same) =
        let new = stored (held kind k (after calls)) k in
        elim (Bool-cases (same_key kind e k)) [
          | inl found ↦
              let key = same_key-SameKey kind e k found in
              let law = server.identified (held kind k (after calls)) k in
              (new, inl refl, (law.0 ∙ sym key.0 ∙ same.0, law.1 ∙ sym key.1 ∙ same.1))
          | inr other ↦ (
            e,
            inr (Member-keep (λ x. not (same_key kind x k)) (after calls) e m (rw other refl)),
            same,
          )
        ]

    kept-Present :
        (text : String) (ks : List (Entry T)) (calls : List (CatalogCall T)) (p : Entry T)
        → Present kind p (after calls)
        → Present kind p (after (called text (prepared_calls ks) calls))
    kept-Present text [] calls p h = h
    kept-Present text (k ∷ ks) calls p h =
        kept-Present text ks (apply (prepared k) ∷ calls) p (applied-Present (prepared k) p calls h)

    synced-Present :
        (text : String) (ks : List (Entry T)) (calls : List (CatalogCall T)) (k : Entry T)
        → Member k ks
        → Present kind (prepared k) (after (called text (prepared_calls ks) calls))
    synced-Present text [] calls k m = absurd m
    synced-Present text (j ∷ ks) calls k (inl here) =
        let old = held kind (prepared j) (after calls) in
        kept-Present text ks (apply (prepared j) ∷ calls) (prepared k) (
          stored old (prepared j),
          inl refl,
          subst (λ x. SameKey kind (stored old (prepared j)) (prepared x)) (sym here)
              (server.identified old (prepared j)),
        )
    synced-Present text (j ∷ ks) calls k (inr there) =
        synced-Present text ks (apply (prepared j) ∷ calls) k there

    -- Each entry that was applied is there, and a managed entry has the namespace and the name of one
    -- of them, written together.
    abbrev pub Converged : (kcp_modules final : List (Entry T)) → Type 0
    Converged kcp_modules final =
        ((k : Entry T)
          → Member k kcp_modules
          → Present kind (prepare_for_ssa kind namespace k) final)
        × ((e : Entry T)
            → Member e final
            → is_managed_by_kcp kind namespace e ≡ true
            → (k : Entry T) × Member k kcp_modules
              × (full_name kind (prepare_for_ssa kind namespace k) ≡ full_name kind e))

    module _ (kcp_modules : List (Entry T)) where
      abbrev calls : List (CatalogCall T)
      calls = called kind.apply_text (prepared_calls kcp_modules) []

      abbrev gone : List (Entry T)
      gone = obsolete kind namespace client (after calls) kcp_modules

      abbrev final : List (CatalogCall T)
      final = called kind.delete_text (removals gone) calls

      gone-Distinct : Distinct kind gone
      unfolding obsolete not_existing_in
      gone-Distinct = keep-Distinct kind (is_managed_by_kcp kind namespace) _ (
          keep-Distinct kind _ (after calls)
            (carried-Distinct kind client stored runtime server calls))

      steps_run : sync_to_skr kind namespace client kcp_modules [] ≡ (final, none)
      unfolding sync_to_skr sync_concurrently delete_concurrently
      steps_run =
          rw
            (
              sync_to_skr,
              applied_no_errors kind.apply_text kcp_modules [],
              server.lists calls,
              removed_no_errors kind.delete_text gone calls gone-Distinct
                  (λ f i. ((obsolete_iff kind namespace client (after calls) kcp_modules f).0 i).0),
            )
            refl

      present : (k : Entry T) → Member k kcp_modules → Present kind (prepared k) (after final)
      present k m =
          let (e, i, same) = synced-Present kind.apply_text kcp_modules [] k m in
          (
            e,
            Member-removed kind.delete_text gone calls e i (λ f g eq.
                ((obsolete_iff kind namespace client (after calls) kcp_modules f).0 g).1.1 k m (
                  ap (λ n. append_text n (kind.meta (prepared k).object).name) (sym same.0 ∙ eq.0)
                  ∙ ap (append_text (kind.meta f.object).namespace) (sym same.1 ∙ eq.1))),
            same,
          )

      named :
          (e : Entry T)
          → Member e (after final)
          → is_managed_by_kcp kind namespace e ≡ true
          → (k : Entry T) × Member k (map (prepare_for_ssa kind namespace) kcp_modules)
            × (full_name kind k ≡ full_name kind e)
      unfolding obsolete not_existing_in
      named e i managed =
          let ks = map (prepare_for_ssa kind namespace) kcp_modules in
          let (before, apart) = removed-Member kind.delete_text gone calls e i in
          elim (Bool-cases (any (λ k. str_eq (full_name kind k) (full_name kind e)) ks)) [
            | inl found ↦ any-full_name kind e ks found
            | inr absent ↦ absurd (
                apart e
                  (Member-keep (is_managed_by_kcp kind namespace)
                    (keep (λ x. not (any (λ k. str_eq (full_name kind k) (full_name kind x)) ks))
                      (after calls))
                    e
                    (Member-keep
                      (λ x. not (any (λ k. str_eq (full_name kind k) (full_name kind x)) ks))
                      (after calls) e before (rw absent refl))
                    managed)
                  (refl, refl))
          ]

      -- If the server of the runtime tells objects apart by namespace and name, lists what it has, and
      -- accepts each apply and each removal of an entry that it has, then the synchronization succeeds,
      -- and behind it the runtime has each entry that was to be applied, under its namespace and name. A managed entry
      -- there has a namespace and a name that, written together, are those of an applied entry.
      pub sync_to_skr-Converged :
          ((sync_to_skr kind namespace client kcp_modules []).1 ≡ none)
          × Converged kcp_modules
              (carried kind stored (sync_to_skr kind namespace client kcp_modules []).0 runtime)
      sync_to_skr-Converged = (
        ap (λ r. r.1) steps_run,
        subst (λ r. Converged kcp_modules (carried kind stored r.0 runtime)) (sym steps_run)
            (
              present,
              λ e i managed.
                  let (p, m, same) = named e i managed in
                  let (k, km, eq) = map-Member (prepare_for_ssa kind namespace) kcp_modules p m in
                  (k, km, ap (full_name kind) (sym eq) ∙ same),
            ),
      )
