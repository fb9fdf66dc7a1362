-- ===== src/Manifests/Diffs.antt =====
-- The resources that pruneDiff finds to delete.
use lifecycle_manager.Prelude.{
  String, str_eq, eq_refl, eq_iff, ◌≡◌, ◌⊎◌, inl, inr, Bool, true, false, ◌&&◌, List, [], ◌∷◌, All,
  arith, Bool-cases,
}
use lifecycle_manager.Api.{Resource}
use lifecycle_manager.Manifests.Resources.{same_id, has_id, difference, prune_resource}
use lifecycle_manager.Manifests.Steps.{diff_of, default_remote_namespace}

-- A predicate that does not depend on the list is one of each element.
All-map :
    (P Q : Resource → Type 0)
    → ((r : Resource) → P r → Q r)
    → (rs : List Resource) → All P rs
    → All Q rs
All-map P Q f [] h = tt
All-map P Q f (r ∷ rs) h = (f r h.0, All-map P Q f rs h.1)

difference_fresh :
    (rs target : List Resource) → All (λ r. has_id target r ≡ false) (difference rs target)
unfolding difference
difference_fresh [] target = tt
difference_fresh (r ∷ rs) target = elim (Bool-cases (has_id target r)) [
  | inl old ↦ rw old (difference_fresh rs target)
  | inr new ↦ rw new (new, difference_fresh rs target)
]

prune-All :
    (P : Resource → Type 0) (rs : List Resource) (type name : String)
    → All P rs
    → All P (prune_resource rs type name)
unfolding prune_resource
prune-All P [] type name h = tt
prune-All P (r ∷ rs) type name h = elim (Bool-cases (str_eq r.kind type && str_eq r.name name)) [
  | inl found ↦ rw found h.1
  | inr other ↦ rw other (h.0, prune-All P rs type name h.1)
]

same_id_refl : (r : Resource) → same_id r r ≡ true
same_id_refl r =
    ground (
      arith,
      eq_refl r.group,
      eq_refl r.version,
      eq_refl r.kind,
      eq_refl r.name,
      eq_refl r.namespace,
    )

-- The namespace of the runtime, which is never deleted.
abbrev pub is_remote_namespace : Resource → Bool
is_remote_namespace r = str_eq r.kind "Namespace" && str_eq r.name default_remote_namespace

-- A synced resource is in the target, or it is found to delete, or it is that namespace.
abbrev pub Covered : List Resource → List Resource → Resource → Type 0
Covered target diff r =
    (has_id target r ≡ true) ⊎ ((has_id diff r ≡ true) ⊎ (is_remote_namespace r ≡ true))

difference_grows :
    (r q : Resource) (rs target : List Resource)
    → has_id (difference rs target) q ≡ true
    → has_id (difference (r ∷ rs) target) q ≡ true
unfolding difference
difference_grows r q rs target h = ground (arith, h)

difference_new :
    (r : Resource) (rs target : List Resource)
    → (has_id target r ≡ true) ⊎ (has_id (difference (r ∷ rs) target) r ≡ true)
unfolding difference
difference_new r rs target = ground (arith, same_id_refl r)

difference_covers :
    (rs target : List Resource)
    → All (λ r. (has_id target r ≡ true) ⊎ (has_id (difference rs target) r ≡ true)) rs
difference_covers [] target = tt
difference_covers (r ∷ rs) target = (
  difference_new r rs target,
  All-map _ _
      (λ q h. elim h [ inl old ↦ inl old | inr new ↦ inr (difference_grows r q rs target new) ]) rs
      (difference_covers rs target),
)

same_namespace :
    (r q : Resource)
    → same_id r q ≡ true
    → is_remote_namespace q ≡ true
    → is_remote_namespace r ≡ true
same_namespace r q h n = ground (
  arith,
  h,
  n,
  eq_iff r.kind q.kind,
  eq_iff r.name q.name,
  eq_iff q.kind "Namespace",
  eq_iff q.name default_remote_namespace,
)

prune_covers :
    (r : Resource) (rs : List Resource)
    → has_id rs r ≡ true
    → (has_id (prune_resource rs "Namespace" default_remote_namespace) r ≡ true)
      ⊎ (is_remote_namespace r ≡ true)
unfolding prune_resource
prune_covers r [] h = absurd (no h)
  where
    no : false ≡ true → ⊥
    no h = cc
prune_covers r (q ∷ rs) h = ground (arith, h, prune_covers r rs, same_namespace r q)

-- What pruneDiff finds to delete: no resource of the target is among it, and each synced resource
-- that is not in the target is among it, unless it is the namespace kyma-system.
pub diff_of_exact :
    (current target : List Resource)
    → All (λ r. has_id target r ≡ false) (diff_of current target)
      × All (Covered target (diff_of current target)) current
diff_of_exact current target = (
  prune-All _ (difference current target) _ _ (difference_fresh current target),
  All-map _ _ (λ r h. elim h [ inl old ↦ inl old | inr new ↦ inr (prune_covers r _ new) ]) current
      (difference_covers current target),
)
