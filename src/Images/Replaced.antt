-- ===== src/Images/Replaced.antt =====
-- What the rewriting of environment variables changes.
use lifecycle_manager.Prelude.{
  ◌≡◌, refl, sym, same_text, same_text_lem, subst, ap, ◌⊎◌, inl, inr, Bool-cases, arith,
  Option-cases, Bool, true, false, List, [], ◌∷◌, Member, Option, none, some,
}
use lifecycle_manager.Images.Defs.{
  Text, DockerImageReference, ImageLib, EnvEntry, no_map, env_var, Field, missing, other_type,
  field, PodContainer, new_docker_image_reference, is_image_ref_for_replacement, first_target,
  print, rewrite_value, rewrite_entries, rewrite_envs,
}

module _ (lib : ImageLib) (targets : List DockerImageReference) where
  -- The value is a reference with the name and tag of a target, and is replaced by that target.
  abbrev pub Replaced : Text → Text → Type 0
  Replaced v w =
      (t : DockerImageReference) × (r : DockerImageReference) × Member t targets
      × (new_docker_image_reference lib v ≡ some r)
      × (r.name_and_tag ≡ t.name_and_tag)
      × (w ≡ print t)

  -- The entry is the same, or its value is replaced.
  abbrev pub EntryReplaced : EnvEntry → EnvEntry → Type 0
  EntryReplaced e f =
      (e ≡ f)
      ⊎ ((name : Text) × (v : Text) × (w : Text) × (e ≡ env_var name (field v))
          × (f ≡ env_var name (field w))
          × Replaced v w)

  abbrev pub EntriesReplaced : List EnvEntry → List EnvEntry → Type 0
  EntriesReplaced [] [] = Unit
  EntriesReplaced [] (f ∷ fs) = ⊥
  EntriesReplaced (e ∷ es) [] = ⊥
  EntriesReplaced (e ∷ es) (f ∷ fs) = EntryReplaced e f × EntriesReplaced es fs

  fits_lem :
      (v target : Text)
      → is_image_ref_for_replacement lib v target ≡ true
      → (r : DockerImageReference) × (new_docker_image_reference lib v ≡ some r)
        × (r.name_and_tag ≡ target)
  unfolding is_image_ref_for_replacement
  fits_lem v target h = elim (Option-cases (new_docker_image_reference lib v)) [
    | inl n ↦ let absent : false ≡ true = ground arith in cc
    | inr (r, e) ↦
        let same : same_text r.name_and_tag target ≡ true = ground arith in
        (r, e, same_text_lem r.name_and_tag target same)
  ]

  first_lem :
      (fits : DockerImageReference → Bool) (ts : List DockerImageReference)
      (t : DockerImageReference)
      → first_target fits ts ≡ some t
      → Member t ts × (fits t ≡ true)
  first_lem fits [] t h = cc
  first_lem fits (u ∷ us) t h = elim (Bool-cases (fits u)) [
    | inl fit ↦
        let found : u ≡ t = ground arith in (inl (sym found), subst (λ x. fits x ≡ true) found fit)
    | inr unfit ↦
        let found : first_target fits us ≡ some t = ground arith in
        let rest = first_lem fits us t found in (inr rest.0, rest.1)
  ]

  value_lem :
      (v : Text) → (v ≡ rewrite_value lib targets v) ⊎ Replaced v (rewrite_value lib targets v)
  unfolding rewrite_value
  value_lem v =
      let fits : DockerImageReference → Bool =
        λ t. is_image_ref_for_replacement lib v t.name_and_tag in
      elim (Option-cases (first_target fits targets)) [
        | inl n ↦ inl (rw (rewrite_value, n) refl)
        | inr (t, e) ↦
            let found = first_lem fits targets t e in
            let r = fits_lem v t.name_and_tag found.1 in
            inr (t, r.0, found.0, r.1, r.2, rw (rewrite_value, e) refl)
      ]

  field_lem :
      (name v : Text)
      → EntryReplaced (env_var name (field v)) (env_var name (field (rewrite_value lib targets v)))
  field_lem name v = elim (value_lem v) [
    | inl same ↦ inl (ap (λ w. env_var name (field w)) same)
    | inr replaced ↦ inr (name, v, rewrite_value lib targets v, refl, refl, replaced)
  ]

  -- What one more entry gives, for the result of the entries behind it.
  more :
      (e f : EnvEntry) (es : List EnvEntry) (out : Option (List EnvEntry)) (fs : List EnvEntry)
      → EntryReplaced e f
      → ((gs : List EnvEntry) → out ≡ some gs → EntriesReplaced es gs)
      → elim out [ none ↦ none | some gs ↦ some (f ∷ gs) ] ≡ some fs
      → EntriesReplaced (e ∷ es) fs
  more e f es none fs one rest h = cc
  more e f es (some gs) fs one rest h =
      let same : f ∷ gs ≡ fs = cc in subst (EntriesReplaced (e ∷ es)) same (one, rest gs refl)

  entries_lem :
      (es fs : List EnvEntry) → rewrite_entries lib targets es ≡ some fs → EntriesReplaced es fs
  unfolding rewrite_entries
  entries_lem [] fs h = let same : [] ≡ fs = cc in subst (EntriesReplaced []) same tt
  entries_lem (no_map ∷ es) fs h = cc
  entries_lem (env_var name other_type ∷ es) fs h = cc
  entries_lem (env_var name missing ∷ es) fs h =
      more _ _ es (rewrite_entries lib targets es) fs (inl refl) (λ gs. entries_lem es gs) h
  entries_lem (env_var name (field v) ∷ es) fs h =
      more _ _ es (rewrite_entries lib targets es) fs (field_lem name v) (λ gs. entries_lem es gs) h

  -- What the rewriting gives: the same container, or one with other entries and no error.
  abbrev pub EnvsReplaced : PodContainer → Type 0
  EnvsReplaced c =
      ((rewrite_envs lib targets c).0 ≡ c)
      ⊎ ((es : List EnvEntry) × (fs : List EnvEntry) × (c.env ≡ field es)
          × (rewrite_envs lib targets c ≡ (record c { env = field fs }, none))
          × EntriesReplaced es fs)

  -- The rewriting leaves the container as it is, or it has no error and changes only entries of env,
  -- whose number and names stay: each is the same, or its value is a reference with the name and tag
  -- of a target image and is replaced by the printed reference of that target.
  pub rewrite_envs-Replaced : (c : PodContainer) → EnvsReplaced c
  unfolding rewrite_envs
  rewrite_envs-Replaced c = go c.env refl
    where
      go : (e : Field (List EnvEntry)) → c.env ≡ e → EnvsReplaced c
      go missing e = inl (simp (rewrite_envs, e) refl)
      go other_type e = inl (simp (rewrite_envs, e) refl)
      go (field []) e = inl (simp (rewrite_envs, e) refl)
      go (field (x ∷ xs)) e = elim (Option-cases (rewrite_entries lib targets (x ∷ xs))) [
        | inl n ↦ inl (simp (rewrite_envs, e, n) refl)
        | inr (fs, f) ↦ elim (Bool-cases (lib.set_fails (record c { env = field fs }))) [
          | inl fails ↦ inl (simp (rewrite_envs, e, f, fails) refl)
          | inr works ↦
              inr (x ∷ xs, fs, e, simp (rewrite_envs, e, f, works) refl, entries_lem (x ∷ xs) fs f)
        ]
      ]
