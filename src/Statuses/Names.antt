-- ===== src/Statuses/Names.antt =====
-- The names of the entries of a status: which stay when entries are dropped.
use lifecycle_manager.Prelude.{
  String, str_eq, eq_refl, ◌≡◌, refl, sym, ap, subst, ◌∙◌, inl, inr, Bool, true, false, List, [],
  ◌∷◌, map, All, Member, any, keep, Bool-cases, arith,
}
use lifecycle_manager.Api.{Module, ModuleStatus, Kyma, last_of_names}

-- No two entries have the same name.
abbrev pub UniqueNames : List ModuleStatus → Type 0
UniqueNames [] = Unit
UniqueNames (s ∷ ss) =
    (any (λ (n : ModuleStatus). str_eq n.name s.name) ss ≡ false) × UniqueNames ss

abbrev pub spec_names : Kyma → List String
spec_names kyma = map (λ (m : Module). m.name) kyma.spec.modules

abbrev pub has_name : String → List ModuleStatus → Bool
has_name name = any (λ (n : ModuleStatus). str_eq n.name name)

pub last_missing :
    (name : String) (ss : List ModuleStatus)
    → has_name name ss ≡ false
    → has_name name (last_of_names ss) ≡ false
unfolding last_of_names
last_missing name [] h = refl
last_missing name (s ∷ ss) h =
    let ih = last_missing name ss (ground (arith, h)) in ground (arith, h, ih)

pub last_UniqueNames : (ss : List ModuleStatus) → UniqueNames (last_of_names ss)
unfolding last_of_names
last_UniqueNames [] = tt
last_UniqueNames (s ∷ ss) = elim (Bool-cases (has_name s.name ss)) [
  | inl later ↦ rw later (last_UniqueNames ss)
  | inr last ↦ rw last (last_missing s.name ss last, last_UniqueNames ss)
]

pub keep_missing :
    (p : ModuleStatus → Bool) (name : String) (ss : List ModuleStatus)
    → has_name name ss ≡ false
    → has_name name (keep p ss) ≡ false
keep_missing p name [] h = refl
keep_missing p name (s ∷ ss) h =
    let ih = keep_missing p name ss (ground (arith, h)) in ground (arith, h, ih)

pub keep-UniqueNames :
    (p : ModuleStatus → Bool) (ss : List ModuleStatus) → UniqueNames ss → UniqueNames (keep p ss)
keep-UniqueNames p [] u = tt
keep-UniqueNames p (s ∷ ss) u = elim (Bool-cases (p s)) [
  | inl kept ↦ rw kept (keep_missing p s.name ss u.0, keep-UniqueNames p ss u.1)
  | inr dropped ↦ rw dropped (keep-UniqueNames p ss u.1)
]

pub has_name-Member :
    (s : ModuleStatus) (ds : List ModuleStatus) → Member s ds → has_name s.name ds ≡ true
has_name-Member s [] i = absurd i
has_name-Member s (d ∷ ds) (inl e) = subst (λ t. has_name t.name (d ∷ ds) ≡ true) (sym e) first
  where
    first : has_name d.name (d ∷ ds) ≡ true
    first = rw (eq_refl d.name) refl
has_name-Member s (d ∷ ds) (inr i) = let h = has_name-Member s ds i in ground (arith, h)

pub keep-Member :
    (p : ModuleStatus → Bool) (s : ModuleStatus) (ss : List ModuleStatus)
    → Member s ss
    → p s ≡ true
    → Member s (keep p ss)
keep-Member p s [] i h = i
keep-Member p s (t ∷ ss) (inl e) h = rw (ap p (sym e) ∙ h) (inl e)
keep-Member p s (t ∷ ss) (inr i) h = elim (Bool-cases (p t)) [
  | inl kept ↦ rw kept (inr (keep-Member p s ss i h))
  | inr dropped ↦ rw dropped (keep-Member p s ss i h)
]

pub All-keep :
    (P : ModuleStatus → Type 0) (p : ModuleStatus → Bool) (ss : List ModuleStatus)
    → All P ss
    → All (λ s. P s × (p s ≡ true)) (keep p ss)
All-keep P p [] a = tt
All-keep P p (s ∷ ss) a = elim (Bool-cases (p s)) [
  | inl kept ↦ rw kept ((a.0, kept), All-keep P p ss a.1)
  | inr dropped ↦ rw dropped (All-keep P p ss a.1)
]
