-- ===== src/Modules/Runner.antt =====
-- pkg/module/sync/runner.go: ReconcileManifests.
use lifecycle_manager.Prelude.{List, [], ◌∷◌, Option, none, some, if◌then◌else◌}
use lifecycle_manager.Errors.{
  Error, sentinel, wrap, join, foreign, errors_is, Result, ok, err, is_not_found,
  template_not_allowed, manifest_ssa_failed, type_assert,
}
use lifecycle_manager.Api.{Kyma, Manifest, ModuleTemplate, Status, get_module_status, last_of_names}
use lifecycle_manager.Templates.{ModuleTemplateInfo}
use lifecycle_manager.Modules.Defs.{CommonModule}
use lifecycle_manager.Modules.Sync.{
  delete, SyncCalls, Runner, Sync, setup_module, get_manifest, sync_call, do_update_with_strategy,
}

-- getManifestStatus
abbrev pub get_manifest_status : Manifest → Option Manifest → Status
get_manifest_status m none = m.status
get_manifest_status m (some in_cluster) = in_cluster.status

-- The error that fmt.Errorf makes of a nil error.
abbrev pub nil_wrapped : Error
nil_wrapped = foreign 0

-- errs, with one more error behind them, as errors.Join gives them.
abbrev pub join_all : List Error → Error → Error
join_all [] last = last
join_all (e ∷ es) last = join e (join_all es last)

module _ (r : Runner) (kyma : Kyma) where
  -- The end of updateManifest, with the manifest that the cluster has.
  unfoldable pub update_found :
      CommonModule → ModuleTemplate → Manifest → Option Manifest → Sync CommonModule
  unfolding do_update_with_strategy
  update_found c t new old calls =
      let status = get_module_status (last_of_names kyma.status.modules) c.module_name in
      let out = do_update_with_strategy r c old new status t calls in
      elim out.1 [
        | err e ↦ (out.0, err e)
        | ok (applied, in_cluster) ↦ (
          out.0,
          ok (record c {
            manifest = some (record applied { status = get_manifest_status applied in_cluster });
          }),
        )
      ]

  -- updateManifest on a module with its manifest and template. The module in memory is used behind
  -- an error by no caller.
  unfoldable pub update_manifest :
      CommonModule → ModuleTemplateInfo → ModuleTemplate → Manifest → Sync CommonModule
  unfolding setup_module get_manifest update_found last_of_names get_module_status
  update_manifest c info t m calls = elim (setup_module r kyma c info t m) [
    | err e ↦ (calls, err e)
    | ok prepared ↦ elim (r.convert prepared) [
      | err e ↦ (calls, err (wrap "failed to convert object to version" e))
      | ok none ↦ (calls, err (sentinel type_assert))
      | ok (some new) ↦ elim (get_manifest r new.meta.name new.meta.namespace calls) [
        | err e ↦ (calls, err e)
        | ok old ↦ update_found c t new old calls
      ]
    ]
  ]

  -- deleteManifest: the error of a call that succeeds is wrapped too.
  unfoldable pub delete_manifest : Manifest → SyncCalls → SyncCalls × Option Error
  unfolding is_not_found
  delete_manifest m calls = elim (sync_call r (delete m) calls).1 [
    | err e ↦ (
      delete m ∷ calls,
      (if is_not_found r.errors (some e) then none else some (wrap "failed to delete manifest" e)),
    )
    | ok deleted ↦ (delete m ∷ calls, some (wrap "failed to delete manifest" nil_wrapped))
  ]

  abbrev pub settle_update :
      CommonModule → SyncCalls × Result CommonModule → SyncCalls × CommonModule × Option Error
  settle_update c (calls, ok updated) = (calls, updated, none)
  settle_update c (calls, err e) = (calls, c, some (wrap "could not update module" e))

  abbrev pub settle_delete :
      CommonModule → SyncCalls × Option Error → SyncCalls × CommonModule × Option Error
  settle_delete c (calls, e) = (calls, c, e)

  -- The goroutine of one module: the module behind it, and its error. A module without a template
  -- error has a template and a manifest, as one that is not allowed has a manifest: the parser sees
  -- to it, and without them the code panics.
  unfoldable pub reconcile_module :
      CommonModule → SyncCalls → SyncCalls × CommonModule × Option Error
  unfolding update_manifest delete_manifest
  reconcile_module c calls = elim c.template_info [
    | none ↦ (calls, c, none)
    | some info ↦ elim info.err [
      | some e ↦
          if errors_is e template_not_allowed
          then elim c.manifest [
            | none ↦ (calls, c, none)
            | some m ↦ settle_delete c (delete_manifest m calls)
          ]
          else (calls, c, none)
      | none ↦ elim info.template [
        | none ↦ (calls, c, none)
        | some t ↦ elim c.manifest [
          | none ↦ (calls, c, none)
          | some m ↦ settle_update c (update_manifest c info t m calls)
        ]
      ]
    ]
  ]

  -- The goroutines in the order in which they send their results: the calls, the modules and the
  -- errors behind them.
  unfoldable pub reconcile_modules :
      List CommonModule → SyncCalls → SyncCalls × List CommonModule × List Error
  unfolding reconcile_module
  reconcile_modules [] calls = (calls, [], [])
  reconcile_modules (c ∷ cs) calls =
      let one = reconcile_module c calls in
      let rest = reconcile_modules cs one.0 in
      (rest.0, one.1 ∷ rest.1, elim one.2 [ none ↦ rest.2 | some e ↦ e ∷ rest.2 ])

  unfoldable pub reconcile_manifests :
      List CommonModule → SyncCalls → SyncCalls × List CommonModule × Option Error
  unfolding reconcile_modules
  reconcile_manifests cs calls =
      let out = reconcile_modules cs calls in
      (
        out.0,
        out.1,
        elim out.2 [
          | [] ↦ none
          | e ∷ es ↦ some (join_all (e ∷ es) (wrap kyma.meta.name (sentinel manifest_ssa_failed)))
        ],
      )
