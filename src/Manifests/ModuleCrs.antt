-- ===== src/Manifests/ModuleCrs.antt =====
-- internal/manifest/modulecr/client.go, and the finalizer of the default custom resource in
-- internal/manifest/finalizer/handler.go.
use lifecycle_manager.Prelude.{
  String, str_eq, Bool, true, false, not, ◌&&◌, ◌||◌, List, [], ◌∷◌, ◌++◌, Option, none, some, any,
  keep, contains, if◌then◌else◌,
}
use lifecycle_manager.Errors.{
  Error, sentinel, wrap, waiting_for_module_crs_deletion, requeue_required, is_not_found, Result,
  ok, err,
}
use lifecycle_manager.Api.{
  is_deleting, Resource, is_create_and_delete, Manifest, with_err, set_status,
}
use lifecycle_manager.Manifests.Status.{custom_resource_manager_finalizer}
use lifecycle_manager.Manifests.Env.{
  Calls, apply_finalizers, update_cr_finalizer, create_resource, delete_module_cr, Env, M, ◌>>=◌,
  ◌>>◌, pure, manifest, set_manifest, ask, call,
}

-- The default custom resource, unless there is none or the policy is Ignore.
abbrev pub managed_resource : Manifest → Option Resource
managed_resource m =
    if is_create_and_delete m.spec.custom_resource_policy then m.spec.resource else none

module _ (env : Env) where
  -- A version whose items cannot be listed is left out, whatever the error is, unless it is
  -- NotFound, when the empty list of items is added.
  unfoldable pub list_versions : String → String → List (String × Bool) → Calls → List Resource
  list_versions group kind [] c = []
  list_versions group kind ((version, scope) ∷ vs) c =
      let rest = list_versions group kind vs c in
      elim (env.list_items group version kind c) [ err e ↦ rest | ok items ↦ items ++ rest ]

  -- listResourcesByGroupKindInAllNamespaces
  unfoldable pub list_resources : Resource → Calls → Result (List Resource)
  unfolding list_versions
  list_resources r c = elim (env.rest_mappings r.group r.kind c) [
    | err e ↦ err (wrap "failed to get REST mappings" e)
    | ok mappings ↦ ok (list_versions r.group r.kind mappings c)
  ]

  abbrev pub is_cluster_scoped : Resource → Calls → Bool
  is_cluster_scoped r c = elim (env.rest_mappings r.group r.kind c) [
    | err e ↦ false
    | ok mappings ↦ any (λ (v : String × Bool). v.1) mappings
  ]

  unfoldable pub is_resource_the_default_cr : Resource → Resource → Calls → Bool
  is_resource_the_default_cr r default c =
      str_eq r.name default.name
      && (str_eq r.namespace "" || is_cluster_scoped r c || str_eq r.namespace default.namespace)
      && str_eq r.group default.group
      && str_eq r.kind default.kind

  -- GetAllModuleCRsExcludingDefaultCR
  unfoldable pub get_all_module_crs_excluding_default_cr : Manifest → Calls → Result (List Resource)
  unfolding list_resources is_resource_the_default_cr
  get_all_module_crs_excluding_default_cr m c = elim m.spec.resource [
    | none ↦ ok []
    | some default ↦ elim (list_resources default c) [
      | err e ↦ err (wrap "failed to list Module CRs by group kind" e)
      | ok items ↦
          if not (is_create_and_delete m.spec.custom_resource_policy)
          then ok items
          else ok (keep (λ r. not (is_resource_the_default_cr r default c)) items)
    ]
  ]

  unfoldable pub check_module_crs_deletion : Manifest → Calls → Option Error
  unfolding get_all_module_crs_excluding_default_cr is_not_found
  check_module_crs_deletion m c = elim (get_all_module_crs_excluding_default_cr m c) [
    | err e ↦
        if is_not_found env.errors (some e)
        then none
        else some (wrap "failed to fetch module CRs" e)
    | ok [] ↦ none
    | ok (r ∷ rs) ↦ some (sentinel waiting_for_module_crs_deletion)
  ]

  unfoldable pub check_default_cr_deletion : Manifest → Calls → Result Bool
  unfolding list_resources is_resource_the_default_cr is_not_found
  check_default_cr_deletion m c = elim (managed_resource m) [
    | none ↦ ok true
    | some default ↦ elim (list_resources default c) [
      | err e ↦
          if is_not_found env.errors (some e)
          then ok true
          else err (wrap "failed to list Module CRs by group kind" e)
      | ok items ↦ ok (not (any (λ r. is_resource_the_default_cr r default c) items))
    ]
  ]

  unfoldable pub first_default_cr : List Resource → Resource → Calls → Option Resource
  unfolding is_resource_the_default_cr
  first_default_cr [] default c = none
  first_default_cr (r ∷ rs) default c =
      let rest = first_default_cr rs default c in
      if is_resource_the_default_cr r default c then some r else rest

  -- deleteCR: true where the custom resource is gone.
  unfoldable pub delete_cr : M (Result Bool)
  unfolding list_resources first_default_cr is_not_found
  delete_cr = manifest >>= λ m. elim (managed_resource m) [
    | none ↦ pure (ok false)
    | some default ↦ ask (list_resources default) >>= λ listed. elim listed [
      | err e ↦ pure (
          if is_not_found env.errors (some e)
          then ok true
          else err (wrap "failed to list Module CRs by group kind" e))
      | ok items ↦ ask (first_default_cr items default) >>= λ found. elim found [
        | none ↦ pure (ok true)
        | some r ↦ call env (delete_module_cr r) >>= λ e. elim e [
          | none ↦ pure (ok false)
          | some e ↦ pure (
              if is_not_found env.errors (some e)
              then ok true
              else err (wrap "failed to delete resource" e))
        ]
      ]
    ]
  ]

  -- RemoveCRFinalizer, on the Manifest as the control plane has it.
  unfoldable pub remove_cr_finalizer : M (Option Error)
  unfolding is_not_found
  remove_cr_finalizer = manifest >>= λ m. elim (managed_resource m) [
    | none ↦ pure none
    | some default ↦ ask env.get_manifest >>= λ got. elim got [
      | err e ↦ pure (if is_not_found env.errors (some e) then none else some (wrap "deleteCR" e))
      | ok on_cluster ↦
          let out = env.lib.remove_finalizer on_cluster.meta custom_resource_manager_finalizer in
          if not out.1
          then pure none
          else call env (update_cr_finalizer (record on_cluster { meta = out.0 })) >>= λ e.
              pure (elim e [
                | none ↦ some (sentinel requeue_required)
                | some e ↦ some (wrap "failed to update resource" e)
              ])
    ]
  ]

  abbrev fail_with : Error → M (Option Error)
  fail_with e = do m ← manifest; set_manifest (set_status m (with_err m.status e)); pure (some e)

  unfoldable pub remove_default_module_cr : M (Option Error)
  unfolding delete_cr remove_cr_finalizer
  remove_default_module_cr = delete_cr >>= λ deleted. elim deleted [
    | err e ↦ fail_with e
    | ok false ↦ pure none
    | ok true ↦
        remove_cr_finalizer >>= λ removed. elim removed [ none ↦ pure none | some e ↦ fail_with e ]
  ]

  -- SyncDefaultModuleCR: only a failed creation is an error.
  unfoldable pub sync_default_module_cr : M (Option Error)
  unfolding is_not_found
  sync_default_module_cr = manifest >>= λ m. elim (managed_resource m) [
    | none ↦ pure none
    | some default ↦ ask (env.get_resource default) >>= λ got.
        if not (is_not_found env.errors got)
        then pure none
        else if is_deleting m.meta
        then pure none
        else call env (create_resource default) >>= λ e. pure (elim e [
          | none ↦ none
          | some e ↦
              if env.is_already_exists e then none else some (wrap "failed to create resource" e)
        ])
  ]

  unfoldable pub ensure_cr_finalizer : M (Option Error)
  ensure_cr_finalizer = manifest >>= λ m. elim (managed_resource m) [
    | none ↦ pure none
    | some default ↦
        if is_deleting m.meta || contains m.meta.finalizers custom_resource_manager_finalizer
        then pure none
        else call env
            (apply_finalizers (m.meta.finalizers ++ custom_resource_manager_finalizer ∷ []))
          >>= λ e. pure (elim e [
            | none ↦ some (sentinel requeue_required)
            | some e ↦ some (wrap "failed to patch resource" e)
          ])
  ]
