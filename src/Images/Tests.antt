-- ===== src/Images/Tests.antt =====
-- A sample reference: docker.io/kyma/operator:1 with a digest, with one letter for each word.
use lifecycle_manager.Prelude.{◌≡◌, ◌≢◌, refl, false, [], ◌∷◌, none, some}
use lifecycle_manager.Images.Defs.{
  Text, slash, colon, at_sign, cut_last, Named, DockerImageReference, reference_of, print, ImageLib,
  PodContainer, env_var, missing, field, rewrite_envs, rewrite_image,
}
use lifecycle_manager.Images.Printed.{canonical, IsNormalized, print-reference_of}
use lifecycle_manager.Images.Replaced.{EnvsReplaced, rewrite_envs-Replaced}

abbrev named : Named
named = record {
  domain = 100 ∷ [];
  path = 107 ∷ slash ∷ 111 ∷ [];
  familiar_name = 107 ∷ slash ∷ 111 ∷ [];
  tag = some (49 ∷ []);
  named_digest = some (115 ∷ []);
}

named-IsNormalized : IsNormalized named
unfolding cut_last
named-IsNormalized = ((λ h. cc), (λ after h. cut_clash after h), refl, (λ h. cc))
  where
    cut_clash : (after : Text) → cut_last named.path ≢ some ([], after)
    cut_clash after h = let clash : some (107 ∷ [], 111 ∷ []) ≡ some ([], after) = h in cc

print-reference_of_example : print (reference_of named) ≡ canonical named
print-reference_of_example = print-reference_of named named-IsNormalized

print_test :
    print (reference_of named) ≡ 100 ∷ slash ∷ 107 ∷ slash ∷ 111 ∷ colon ∷ 49 ∷ at_sign ∷ 115 ∷ []
unfolding print reference_of
print_test = refl

-- Each text is parsed as the sample reference.
abbrev lib : ImageLib
lib = record { parse_normalized_named = λ v. some named; set_fails = λ c. false }

abbrev target : DockerImageReference
target = record { host_and_path = 101 ∷ []; name_and_tag = 111 ∷ colon ∷ 49 ∷ []; digest = [] }

abbrev container : PodContainer
container = record {
  image = missing;
  env = field (
      env_var (65 ∷ []) missing
      ∷ env_var (66 ∷ []) (field (100 ∷ slash ∷ 111 ∷ colon ∷ 49 ∷ []))
      ∷ env_var (67 ∷ []) (field (100 ∷ slash ∷ 111 ∷ []))
      ∷ []);
}

rewrite_envs-Replaced_example : EnvsReplaced lib (target ∷ []) container
rewrite_envs-Replaced_example = rewrite_envs-Replaced lib (target ∷ []) container

envs_test :
    (rewrite_envs lib (target ∷ []) container).0.env
    ≡ field (
        env_var (65 ∷ []) missing
        ∷ env_var (66 ∷ []) (field (101 ∷ slash ∷ 111 ∷ colon ∷ 49 ∷ []))
        ∷ env_var (67 ∷ []) (field (100 ∷ slash ∷ 111 ∷ []))
        ∷ [])
unfolding rewrite_envs
envs_test = refl

image_test :
    rewrite_image lib (target ∷ []) (record container { image = field (100 ∷ []) })
    ≡ (record container { image = field (101 ∷ slash ∷ 111 ∷ colon ∷ 49 ∷ []) }, none)
unfolding rewrite_image
image_test = refl
