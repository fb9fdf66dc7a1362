-- ===== src/Errors/Classify.antt =====
-- pkg/util/error.go: which errors mean "not found", and which a broken connection.
use lifecycle_manager.Prelude.{
  ℕ, Bool, true, false, ◌&&◌, ◌||◌, List, [], ◌∷◌, Option, none, some, String, ◌==◌, any,
  if◌then◌else◌,
}
use Prim.Native.Char.{code}
use lifecycle_manager.Errors.Defs.{Error, errors_is, client_unauthorized, client_tls_cert_expired}

-- The predicates of the libraries on error values (k8s.io/apimachinery, client-go, net, syscall),
-- the groups of a discovery.ErrGroupDiscoveryFailed (empty for any other error), and the text of
-- an error in bytes.
pub record ErrorLib : Type 0 where
  pub is_not_registered : Error → Bool
  pub is_no_match : Error → Bool
  pub is_api_not_found : Error → Bool
  pub failed_groups : Error → List Error
  pub is_connection_refused : Error → Bool
  pub is_unauthorized : Error → Bool
  pub is_forbidden : Error → Bool
  pub is_dns_not_found : Error → Bool
  pub message : Error → List ℕ

abbrev pub codes : String → List ℕ
codes String.[] = []
codes (String.◌∷◌ c s) = code c ∷ codes s

-- strings.HasPrefix, strings.Contains and strings.HasSuffix.
unfoldable pub has_prefix : List ℕ → List ℕ → Bool
has_prefix s [] = true
has_prefix [] (p ∷ ps) = false
has_prefix (c ∷ s) (p ∷ ps) = c == p && has_prefix s ps

unfoldable pub contains_text : List ℕ → List ℕ → Bool
unfolding has_prefix
contains_text [] p = has_prefix [] p
contains_text (c ∷ s) p = has_prefix (c ∷ s) p || contains_text s p

abbrev same_text : List ℕ → List ℕ → Bool
same_text [] [] = true
same_text [] (d ∷ t) = false
same_text (c ∷ s) [] = false
same_text (c ∷ s) (d ∷ t) = c == d && same_text s t

unfoldable pub has_suffix : List ℕ → List ℕ → Bool
has_suffix [] p = same_text [] p
has_suffix (c ∷ s) p = same_text (c ∷ s) p || has_suffix s p

abbrev is_blank : ℕ → Bool
is_blank c = c == 32 || c == 10

-- strings.TrimRight(s, " \n"): a character is dropped when all behind it are.
unfoldable pub trim_right : List ℕ → List ℕ
trim_right [] = []
trim_right (c ∷ s) =
    let rest = trim_right s in
    elim rest [ [] ↦ if is_blank c then [] else c ∷ [] | d ∷ t ↦ c ∷ d ∷ t ]

unfoldable pub is_unauthorized_error : List ℕ → Bool
unfolding has_suffix trim_right
is_unauthorized_error m = has_suffix (trim_right m) (codes ": Unauthorized")

unfoldable pub is_tls_cert_expired_error : List ℕ → Bool
unfolding has_suffix trim_right
is_tls_cert_expired_error m = has_suffix (trim_right m) (codes "expired certificate")

module _ (lib : ErrorLib) where
  -- IsNotFound, on nil and on an error.
  unfoldable pub is_not_found : Option Error → Bool
  unfolding contains_text
  is_not_found none = false
  is_not_found (some e) =
      lib.is_not_registered e
      || lib.is_no_match e
      || lib.is_api_not_found e
      || any lib.is_api_not_found (lib.failed_groups e)
      || contains_text (lib.message e) (codes "failed to get restmapping")
      || contains_text (lib.message e) (codes "could not find the requested resource")

  unfoldable pub ignore_not_found : Option Error → Option Error
  unfolding is_not_found
  ignore_not_found e = if is_not_found e then none else e

  unfoldable pub is_raw_cert_related_error : Error → Bool
  unfolding is_unauthorized_error is_tls_cert_expired_error
  is_raw_cert_related_error e =
      is_unauthorized_error (lib.message e) || is_tls_cert_expired_error (lib.message e)

  -- IsConnectionRelatedError, on nil and on an error.
  unfoldable pub is_connection_related_error : Option Error → Bool
  unfolding is_raw_cert_related_error
  is_connection_related_error none = false
  is_connection_related_error (some e) =
      lib.is_connection_refused e
      || lib.is_unauthorized e
      || lib.is_forbidden e
      || lib.is_dns_not_found e
      || errors_is e client_tls_cert_expired
      || errors_is e client_unauthorized
      || is_raw_cert_related_error e
