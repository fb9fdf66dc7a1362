-- ===== src/StateChecks/Found.antt =====
-- What ExistsStateCheck takes for existing.
use lifecycle_manager.Prelude.{
  ◌≡◌, refl, ◌↔◌, ◌⊎◌, inl, inr, arith, Bool-cases, Option-cases, true, List, [], ◌∷◌, All, none,
  some,
}
use lifecycle_manager.Errors.{Error}
use lifecycle_manager.Api.{ready}
use lifecycle_manager.StateChecks.Defs.{Client, exists_state}

module _ {O : Type 0} (clnt : Client O) where
  -- The client gives the object, or answers that there is none.
  abbrev pub FoundOrMissing : O → Type 0
  FoundOrMissing o =
      (clnt.get o ≡ none) ⊎ ((e : Error) × (clnt.get o ≡ some e) × (clnt.is_api_not_found e ≡ true))

  forth : (os : List O) → exists_state clnt os ≡ (ready, none) → All FoundOrMissing os
  unfolding exists_state
  forth [] h = tt
  forth (o ∷ os) h = elim (Option-cases (clnt.get o)) [
    | inl n ↦ (inl n, forth os (rw (exists_state, n) at h))
    | inr (e, p) ↦ elim (Bool-cases (clnt.is_api_not_found e)) [
      | inl missing ↦ (inr (e, p, missing), forth os (rw (exists_state, p, missing) at h))
      | inr other ↦ ground arith
    ]
  ]

  back : (os : List O) → All FoundOrMissing os → exists_state clnt os ≡ (ready, none)
  unfolding exists_state
  back [] h = refl
  back (o ∷ os) (inl n, h) = rw (exists_state, n) (back os h)
  back (o ∷ os) (inr (e, p, missing), h) = rw (exists_state, p, missing) (back os h)

  -- ExistsStateCheck gives Ready without an error exactly if the client finds each of the resources
  -- or answers that it does not exist.
  pub exists_state_ready_iff :
      (os : List O) → (exists_state clnt os ≡ (ready, none)) ↔ All FoundOrMissing os
  exists_state_ready_iff os = (forth os, back os)
