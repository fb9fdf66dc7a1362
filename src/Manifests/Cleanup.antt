-- ===== src/Manifests/Cleanup.antt =====
-- internal/pkg/resources/cleanup.go and SyncResources of internal/manifest/skrresources/sync.go.
use lifecycle_manager.Prelude.{String, Bool, not, List, [], ◌∷◌, Option, none, some, if◌then◌else◌}
use lifecycle_manager.Errors.{
  Error, sentinel, join, deletion_not_finished, is_error, is_not_found,
  warning_resource_sync_state_diff,
}
use lifecycle_manager.Api.{
  error, warning, processing, deleting, state_eq, is_deleting, Resource, Status, with_state,
  with_err, with_operation, set_status,
}
use lifecycle_manager.Manifests.Resources.{split_resources, has_diff}
use lifecycle_manager.Manifests.Env.{
  apply_resources, delete_resource, Env, M, ◌>>=◌, ◌>>◌, pure, manifest, set_manifest, call,
}

-- errors.Join
unfoldable pub join_all : List Error → Option Error
join_all [] = none
join_all (e ∷ es) = let rest = join_all es in elim rest [ none ↦ some e | some f ↦ some (join e f) ]

module _ (env : Env) where
  -- The goroutines of Run, in the order of the list.
  unfoldable pub delete_each : List Resource → M (List (Option Error))
  delete_each [] = pure []
  delete_each (r ∷ rs) = do e ← call env (delete_resource r); es ← delete_each rs; pure (e ∷ es)

  -- The errors other than NotFound among the results, and whether a result is nil.
  unfoldable pub failures : List (Option Error) → List Error
  unfolding is_not_found
  failures [] = []
  failures (none ∷ es) = failures es
  failures (some e ∷ es) =
      let rest = failures es in if is_not_found env.errors (some e) then rest else e ∷ rest

  unfoldable pub all_not_found : List (Option Error) → Bool
  unfolding is_not_found
  all_not_found [] = Bool.true
  all_not_found (e ∷ es) =
      let rest = all_not_found es in if is_not_found env.errors e then rest else Bool.false

  -- The end of Run: `count` is zero where each result is NotFound.
  unfoldable pub outcome : List (Option Error) → Option Error
  unfolding failures all_not_found join_all
  outcome es = elim (join_all (failures es)) [
    | some e ↦ some e
    | none ↦ if not (all_not_found es) then some (sentinel deletion_not_finished) else none
  ]

  unfoldable pub run : List Resource → M (Option Error)
  unfolding delete_each outcome
  run rs = do es ← delete_each rs; pure (outcome es)

  unfoldable pub cleanup_resources : List Resource → Status → M (Option Error)
  unfolding run
  cleanup_resources rs status = run rs >>= λ result. elim result [
    | none ↦ pure none
    | some e ↦ do
      m ← manifest
      set_manifest (
          set_status m (
            with_err
              (with_state status
                (if is_error (some e) deletion_not_finished then warning else error))
              e))
      pure (some e)
  ]

  unfoldable pub delete_diff_resources : List Resource → M (Option Error)
  unfolding cleanup_resources split_resources
  delete_diff_resources rs = manifest >>= λ m.
      cleanup_resources (split_resources rs).1 m.status >>= λ e. elim e [
        | some e ↦ pure (some e)
        | none ↦ cleanup_resources (split_resources rs).0 m.status
      ]

  unfoldable pub sync_resources : List Resource → M (Option Error)
  unfolding has_diff
  sync_resources target = manifest >>= λ m. call env (apply_resources target) >>= λ e. elim e [
    | some e ↦ do
      set_manifest (set_status m (with_err (with_state m.status error) e))
      pure (some e)
    | none ↦
        let synced : Status = record m.status { synced = target } in
        let message : String = "resource syncTarget state diff detected" in
        if not (has_diff m.status.synced target) then pure none else do
          set_manifest (
              if not (is_deleting m.meta)
              then set_status m (with_operation (with_state synced processing) message)
              else if not (state_eq m.status.state warning)
              then set_status m (with_operation (with_state synced deleting) message)
              else m)
          pure (some (sentinel warning_resource_sync_state_diff))
  ]
