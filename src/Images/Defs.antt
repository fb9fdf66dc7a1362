-- ===== src/Images/Defs.antt =====
-- internal/imagerewrite/rewrite.go, on texts as lists of bytes.
use lifecycle_manager.Prelude.{
  ℕ, ◌==◌, same_text, Bool, true, false, not, ◌&&◌, ◌||◌, List, [], ◌∷◌, ◌++◌, Option, none, some,
  if◌then◌else◌,
}

abbrev pub Text : Type 0
Text = List ℕ

abbrev pub slash : ℕ
slash = 47

abbrev pub colon : ℕ
colon = 58

abbrev pub at_sign : ℕ
at_sign = 64

abbrev pub is_prefix : Text → Text → Bool
is_prefix [] t = true
is_prefix (c ∷ s) [] = false
is_prefix (c ∷ s) (d ∷ t) = c == d && is_prefix s t

-- strings.Contains
abbrev pub contains : (text needle : Text) → Bool
contains [] needle = is_prefix needle []
contains (c ∷ s) needle = is_prefix needle (c ∷ s) || contains s needle

-- strings.CutLast(s, "/")
unfoldable pub cut_last : Text → Option (Text × Text)
cut_last [] = none
cut_last (c ∷ s) =
    let rest = cut_last s in
    elim rest [
      | some (before, after) ↦ some (c ∷ before, after)
      | none ↦ if c == slash then some ([], s) else none
    ]

-- What the sources read of a reference.Named of the library, with `none` for one that is not Tagged
-- or not Digested.
pub record Named : Type 0 where
  pub domain : Text
  pub path : Text
  pub familiar_name : Text
  pub tag : Option Text
  pub named_digest : Option Text

pub record DockerImageReference : Type 0 where
  pub name_and_tag : Text
  pub host_and_path : Text
  pub digest : Text

unfoldable pub extract_image_name : Named → Text
unfolding cut_last
extract_image_name n = elim (cut_last n.familiar_name) [
  | some (before, after) ↦ after
  | none ↦ n.familiar_name
]

unfoldable pub extract_repository_path : Named → Text
unfolding cut_last
extract_repository_path n = elim (cut_last n.path) [ some (before, after) ↦ before | none ↦ [] ]

unfoldable pub build_host_and_path : Named → (repo_path : Text) → Text
build_host_and_path n repo_path = elim n.domain [
  | [] ↦ repo_path
  | c ∷ s ↦ elim repo_path [ [] ↦ c ∷ s | d ∷ t ↦ (c ∷ s) ++ slash ∷ d ∷ t ]
]

unfoldable pub build_name_and_tag : Named → (image_name : Text) → Text
build_name_and_tag n image_name = elim n.tag [
  | some tag ↦ image_name ++ colon ∷ tag
  | none ↦ image_name
]

unfoldable pub extract_digest : Named → Text
extract_digest n = elim n.named_digest [ some d ↦ d | none ↦ [] ]

unfoldable pub reference_of : Named → DockerImageReference
unfolding extract_image_name extract_repository_path build_host_and_path build_name_and_tag
    extract_digest
reference_of n = record {
  host_and_path = build_host_and_path n (extract_repository_path n);
  name_and_tag = build_name_and_tag n (extract_image_name n);
  digest = extract_digest n;
}

-- (ir *DockerImageReference) Matches
abbrev pub matches : DockerImageReference → (name_and_tag : Text) → Bool
matches ir name_and_tag = same_text ir.name_and_tag name_and_tag

abbrev pub digest_suffix : Text → Text
digest_suffix [] = []
digest_suffix (c ∷ s) = at_sign ∷ c ∷ s

-- (ir *DockerImageReference) String
unfoldable pub print : DockerImageReference → Text
print ir =
    let end = ir.name_and_tag ++ digest_suffix ir.digest in
    elim ir.host_and_path [ [] ↦ end | c ∷ s ↦ (c ∷ s) ++ slash ∷ end ]

-- A field of an unstructured object: without it, with a value of another type, or with one.
pub data Field (A : Type 0) : Type 0 where
  missing other_type : Field A
  field : A → Field A

-- An entry of env: no map, or a map with its name and value.
pub data EnvEntry : Type 0 where
  no_map : EnvEntry
  env_var : (name : Text) → (value : Field Text) → EnvEntry

pub record PodContainer : Type 0 where
  pub image : Field Text
  pub env : Field (List EnvEntry)

pub data RewriteError : Type 0 where
  invalid_image_reference finding_image_in_pod_container : RewriteError
  finding_env_vars_in_pod_container unexpected_env_var_type : RewriteError
  failed_to_set_new_image_in_pod_container : RewriteError
  failed_to_set_new_env_list_in_pod_container : RewriteError

-- The calls of the libraries: ParseNormalizedNamed, with `none` for its error, and whether the
-- setting of a field of the unstructured object fails, which is given as it would be.
pub record ImageLib : Type 0 where
  pub parse_normalized_named : Text → Option Named
  pub set_fails : PodContainer → Bool

-- The loops over the target images, which end at the first that fits.
abbrev pub first_target :
    (DockerImageReference → Bool) → List DockerImageReference → Option DockerImageReference
first_target fits [] = none
first_target fits (t ∷ ts) = let rest = first_target fits ts in if fits t then some t else rest

module _ (lib : ImageLib) where
  -- NewDockerImageReference, whose one error is ErrInvalidImageReference.
  unfoldable pub new_docker_image_reference : Text → Option DockerImageReference
  unfolding reference_of
  new_docker_image_reference val = elim (lib.parse_normalized_named val) [
    | none ↦ none
    | some n ↦ some (reference_of n)
  ]

  unfoldable pub as_image_references : List Text → Option (List DockerImageReference)
  unfolding new_docker_image_reference
  as_image_references [] = some []
  as_image_references (val ∷ vals) =
      let rest = as_image_references vals in
      elim (new_docker_image_reference val) [
        | none ↦ none
        | some r ↦ elim rest [ none ↦ none | some rs ↦ some (r ∷ rs) ]
      ]

  unfoldable pub is_image_ref_for_replacement : (env_var_value target : Text) → Bool
  unfolding new_docker_image_reference
  is_image_ref_for_replacement value target =
      if not (contains value target) then false else elim (new_docker_image_reference value) [
        | none ↦ false
        | some source ↦ matches source target
      ]

  -- (r *PodContainerImageRewriter) Rewrite
  unfoldable pub rewrite_image :
      List DockerImageReference → PodContainer → PodContainer × Option RewriteError
  unfolding new_docker_image_reference print
  rewrite_image targets c = elim c.image [
    | other_type ↦ (c, some finding_image_in_pod_container)
    | missing ↦ (c, none)
    | field value ↦ elim (new_docker_image_reference value) [
      | none ↦ (c, some invalid_image_reference)
      | some existing ↦ elim (first_target (λ t. matches t existing.name_and_tag) targets) [
        | none ↦ (c, none)
        | some t ↦
            let new : PodContainer = record c { image = field (print t) } in
            if lib.set_fails new
            then (c, some failed_to_set_new_image_in_pod_container)
            else (new, none)
      ]
    ]
  ]

  unfoldable pub rewrite_value : List DockerImageReference → Text → Text
  unfolding is_image_ref_for_replacement print
  rewrite_value targets value =
      elim (first_target (λ t. is_image_ref_for_replacement value t.name_and_tag) targets) [
        | none ↦ value
        | some t ↦ print t
      ]

  -- The loop over the entries, with `none` for ErrUnexpectedEnvVarType.
  unfoldable pub rewrite_entries :
      List DockerImageReference → List EnvEntry → Option (List EnvEntry)
  unfolding rewrite_value
  rewrite_entries targets [] = some []
  rewrite_entries targets (no_map ∷ es) = none
  rewrite_entries targets (env_var name other_type ∷ es) = none
  rewrite_entries targets (env_var name missing ∷ es) = elim (rewrite_entries targets es) [
    | none ↦ none
    | some fs ↦ some (env_var name missing ∷ fs)
  ]
  rewrite_entries targets (env_var name (field value) ∷ es) = elim (rewrite_entries targets es) [
    | none ↦ none
    | some fs ↦ some (env_var name (field (rewrite_value targets value)) ∷ fs)
  ]

  -- (r *PodContainerEnvsRewriter) Rewrite, whose loop works on a copy of the entries.
  unfoldable pub rewrite_envs :
      List DockerImageReference → PodContainer → PodContainer × Option RewriteError
  unfolding rewrite_entries
  rewrite_envs targets c = elim c.env [
    | other_type ↦ (c, some finding_env_vars_in_pod_container)
    | missing ↦ (c, none)
    | field [] ↦ (c, none)
    | field (e ∷ es) ↦ elim (rewrite_entries targets (e ∷ es)) [
      | none ↦ (c, some unexpected_env_var_type)
      | some entries ↦
          let new : PodContainer = record c { env = field entries } in
          if lib.set_fails new
          then (c, some failed_to_set_new_env_list_in_pod_container)
          else (new, none)
    ]
  ]
