-- ===== src/Manifests/Resources.antt =====
-- internal/controller/manifest/resource_list.go, internal/manifest/skrresources/sync.go (HasDiff),
-- internal/pkg/resources/cleanup.go (SplitResources) and pruneResource of the manifest controller.
use lifecycle_manager.Prelude.{
  String, str_eq, Bool, true, false, not, ◌&&◌, ◌||◌, ◌==◌, List, [], ◌∷◌, length, any,
  if◌then◌else◌,
}
use lifecycle_manager.Api.{Resource}

-- r.ID() == s.ID(): the ID joins the five texts.
abbrev pub same_id : Resource → Resource → Bool
same_id r s =
    str_eq r.group s.group
    && str_eq r.version s.version
    && str_eq r.kind s.kind
    && str_eq r.name s.name
    && str_eq r.namespace s.namespace

abbrev pub has_id : List Resource → Resource → Bool
has_id rs r = any (same_id r) rs

-- (r ResourceList) Difference: a rendered object stands for its resource.
unfoldable pub difference : List Resource → List Resource → List Resource
difference [] target = []
difference (r ∷ rs) target =
    let rest = difference rs target in if has_id target r then rest else r ∷ rest

unfoldable pub prune_resource : List Resource → String → String → List Resource
prune_resource [] type name = []
prune_resource (r ∷ rs) type name =
    let rest = prune_resource rs type name in
    if str_eq r.kind type && str_eq r.name name then rs else r ∷ rest

-- The map of HasDiff, from the ID of a resource to a Boolean; a missing key reads as false.
abbrev pub CountMap : Type 0
CountMap = List (Resource × Bool)

abbrev pub get_flag : Resource → CountMap → Bool
get_flag r [] = false
get_flag r ((q, b) ∷ m) = if same_id q r then b else get_flag r m

abbrev pub set_flag : Resource → Bool → CountMap → CountMap
set_flag r b [] = (r, b) ∷ []
set_flag r b ((q, c) ∷ m) = if same_id q r then (q, b) ∷ m else (q, c) ∷ set_flag r b m

-- The first two loops of HasDiff.
unfoldable pub mark_all : List Resource → CountMap → CountMap
mark_all [] m = m
mark_all (r ∷ rs) m = mark_all rs (set_flag r true m)

unfoldable pub clear_all : List Resource → CountMap → CountMap
clear_all [] m = m
clear_all (r ∷ rs) m = clear_all rs (if get_flag r m then set_flag r false m else m)

unfoldable pub has_diff : List Resource → List Resource → Bool
unfolding mark_all clear_all
has_diff old new =
    if not (length old == length new)
    then true
    else any (λ (e : Resource × Bool). e.1) (clear_all new (mark_all old []))

unfoldable pub is_operator_related_resources : String → Bool
is_operator_related_resources kind =
    str_eq kind "CustomResourceDefinition"
    || str_eq kind "Namespace"
    || str_eq kind "ServiceAccount"
    || str_eq kind "Role"
    || str_eq kind "ClusterRole"
    || str_eq kind "RoleBinding"
    || str_eq kind "ClusterRoleBinding"
    || str_eq kind "Service"
    || str_eq kind "Deployment"

-- SplitResources: the operator-related resources and those that the operator manages.
unfoldable pub split_resources : List Resource → List Resource × List Resource
unfolding is_operator_related_resources
split_resources [] = ([], [])
split_resources (r ∷ rs) =
    let rest = split_resources rs in
    if is_operator_related_resources r.kind then (r ∷ rest.0, rest.1) else (rest.0, r ∷ rest.1)
