-- ===== src/Catalog/Server.antt =====
-- An API server of a runtime that carries out the calls of the synchronization.
use lifecycle_manager.Prelude.{
  ◌≡◌, sym, ◌∙◌, str_eq, eq_iff, Bool, true, false, not, ◌&&◌, List, [], ◌∷◌, Member, keep,
  keep-Member, Member-keep, refl, Bool-cases, inl, inr, Option, none, some, arith, if◌then◌else◌,
}
use lifecycle_manager.Errors.{ok}
use lifecycle_manager.Catalog.Sync.{Entry, CatalogCall, apply, remove, Kind, SkrCatalog}

module _ {T : Type 0} (kind : Kind T) where
  -- The server tells its objects apart by their namespace and their name.
  abbrev pub SameKey : Entry T → Entry T → Type 0
  SameKey e f =
      ((kind.meta e.object).namespace ≡ (kind.meta f.object).namespace)
      × ((kind.meta e.object).name ≡ (kind.meta f.object).name)

  abbrev pub same_key : Entry T → Entry T → Bool
  same_key e f =
      str_eq (kind.meta e.object).namespace (kind.meta f.object).namespace
      && str_eq (kind.meta e.object).name (kind.meta f.object).name

  pub SameKey-same_key : (e f : Entry T) → SameKey e f → same_key e f ≡ true
  SameKey-same_key e f (n, m) =
      let first = (eq_iff (kind.meta e.object).namespace (kind.meta f.object).namespace).1 n in
      let second = (eq_iff (kind.meta e.object).name (kind.meta f.object).name).1 m in
      ground (arith, first, second)

  pub same_key-SameKey : (e f : Entry T) → same_key e f ≡ true → SameKey e f
  same_key-SameKey e f h =
      let first : str_eq (kind.meta e.object).namespace (kind.meta f.object).namespace ≡ true =
        ground (arith, h) in
      let second : str_eq (kind.meta e.object).name (kind.meta f.object).name ≡ true =
        ground (arith, h) in
      ((eq_iff _ _).0 first, (eq_iff _ _).0 second)

  -- Some entry has the key of this one.
  abbrev pub Present : Entry T → List (Entry T) → Type 0
  Present p es = (e : Entry T) × Member e es × SameKey e p

  abbrev pub dropped : Entry T → List (Entry T) → List (Entry T)
  dropped e es = keep (λ x. not (same_key x e)) es

  -- An entry is left by the removal of one with another key.
  pub Member-dropped :
      (g f : Entry T) (es : List (Entry T)) → Member f es → ¬ SameKey f g → Member f (dropped g es)
  Member-dropped g f es i apart =
      Member-keep (λ x. not (same_key x g)) es f i
        (elim (Bool-cases (same_key f g)) [
          | inl same ↦ absurd (apart (same_key-SameKey f g same))
          | inr other ↦ rw other refl
        ])

  abbrev pub held : Entry T → List (Entry T) → Option (Entry T)
  held e [] = none
  held e (f ∷ fs) = let rest = held e fs in if same_key f e then some f else rest

  -- What the runtime has when the calls, the last one first, have been carried out. What an apply
  -- makes of the entry that is stored, if there is one, and the applied one is `stored`.
  abbrev pub carried :
      (stored : Option (Entry T) → Entry T → Entry T)
      → List (CatalogCall T)
      → List (Entry T)
      → List (Entry T)
  carried stored [] runtime = runtime
  carried stored (apply e ∷ calls) runtime =
      let before = carried stored calls runtime in stored (held e before) e ∷ dropped e before
  carried stored (remove e ∷ calls) runtime = dropped e (carried stored calls runtime)

  abbrev pub Distinct : List (Entry T) → Type 0
  Distinct [] = Unit
  Distinct (e ∷ es) = ((f : Entry T) → Member f es → ¬ SameKey e f) × Distinct es

  -- The server accepts each apply, and each removal of an entry that it has. An apply keeps the key.
  -- At the start no two entries have the same key.
  pub record Carries (client : SkrCatalog T) (stored : Option (Entry T) → Entry T → Entry T)
      (runtime : List (Entry T)) : Type 0 where
    pub applies :
        (e : Entry T) (calls : List (CatalogCall T)) → client.answer (apply e) calls ≡ none
    pub removes :
        (e : Entry T) (calls : List (CatalogCall T))
        → Present e (carried stored calls runtime)
        → client.answer (remove e) calls ≡ none
    pub lists :
        (calls : List (CatalogCall T)) → client.list calls ≡ ok (carried stored calls runtime)
    pub identified : (old : Option (Entry T)) (e : Entry T) → SameKey (stored old e) e
    pub distinct : Distinct runtime

  pub keep-Distinct :
      (p : Entry T → Bool) (es : List (Entry T)) → Distinct es → Distinct (keep p es)
  keep-Distinct p [] d = tt
  keep-Distinct p (e ∷ es) d = elim (Bool-cases (p e)) [
    | inl passes ↦ rw (keep, passes) (λ f i. d.0 f (keep-Member p es f i).0, keep-Distinct p es d.1)
    | inr fails ↦ rw (keep, fails) (keep-Distinct p es d.1)
  ]

  pub carried-Distinct :
      (client : SkrCatalog T) (stored : Option (Entry T) → Entry T → Entry T)
      (runtime : List (Entry T))
      → Carries client stored runtime
      → (calls : List (CatalogCall T)) → Distinct (carried stored calls runtime)
  carried-Distinct client stored runtime server [] = server.distinct
  carried-Distinct client stored runtime server (remove e ∷ calls) =
      keep-Distinct (λ x. not (same_key x e)) (carried stored calls runtime)
        (carried-Distinct client stored runtime server calls)
  carried-Distinct client stored runtime server (apply e ∷ calls) =
      let before = carried stored calls runtime in
      let law = server.identified (held e before) e in
      (
        λ f i same.
            let other = (keep-Member (λ x. not (same_key x e)) before f i).1 in
            let key : same_key f e ≡ true =
              SameKey-same_key f e (sym same.0 ∙ law.0, sym same.1 ∙ law.1) in
            let bad : false ≡ true = rw key at other in cc,
        keep-Distinct (λ x. not (same_key x e)) before
            (carried-Distinct client stored runtime server calls),
      )
