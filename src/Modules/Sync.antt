-- ===== src/Modules/Sync.antt =====
-- pkg/module/sync/runner.go: the manifests of a Kyma's modules, and the metadata that
-- ApplyDefaultMetaToManifest of pkg/module/common/module.go gives them.
use lifecycle_manager.Prelude.{
  ◌==◌, String, str_eq, Bool, true, false, not, ◌||◌, List, [], ◌∷◌, Option, none, some, lookup,
  insert, if◌then◌else◌,
}
use lifecycle_manager.Errors.{wrap, Result, ok, err, ErrorLib, is_not_found}
use lifecycle_manager.Api.{
  Kyma, Manifest, ModuleStatus, ModuleTemplate, is_unmanaged, is_mandatory_module, managed_by,
  operator_name, kyma_name_label, module_name_label, is_mandatory_module_label,
  unmanaged_annotation,
}
use lifecycle_manager.Templates.{ModuleTemplateInfo}
use lifecycle_manager.Modules.Defs.{CommonModule}

abbrev pub channel_label : String
channel_label = "operator.kyma-project.io/channel"

abbrev pub controller_name_label : String
controller_name_label = "operator.kyma-project.io/controller-name"

abbrev pub fqdn_annotation : String
fqdn_annotation = "operator.kyma-project.io/fqdn"

abbrev pub ocm_component_name_annotation : String
ocm_component_name_annotation = "operator.kyma-project.io/ocm-component-name"

-- (manifest *Manifest) IsSameChannel
unfoldable pub is_same_channel : Manifest → Manifest → Bool
is_same_channel m n = elim (lookup channel_label m.meta.labels) [
  | none ↦ false
  | some channel ↦ elim (lookup channel_label n.meta.labels) [
    | none ↦ false
    | some other ↦ str_eq channel other
  ]
]

abbrev insert_if : Bool → String → String → List (String × String) → List (String × String)
insert_if b key value m = if b then insert key value m else m

abbrev has_labels : List (String × String) → Bool
has_labels [] = false
has_labels (l ∷ ls) = true

abbrev label_of : String → List (String × String) → String
label_of key labels = elim (lookup key labels) [ none ↦ "" | some v ↦ v ]

-- ApplyDefaultMetaToManifest, on the template info with its template.
unfoldable pub default_labels :
    Kyma
    → CommonModule
    → ModuleTemplateInfo
    → ModuleTemplate
    → List (String × String)
    → List (String × String)
default_labels kyma c info t labels =
    let named = insert kyma_name_label kyma.meta.name labels in
    let controlled =
      insert_if (has_labels t.meta.labels) controller_name_label
        (label_of controller_name_label t.meta.labels) named in
    let of_module = insert module_name_label c.module_name controlled in
    let with_channel = insert_if (not t.mandatory) channel_label info.desired_channel of_module in
    let managed = insert managed_by operator_name with_channel in
    insert_if t.mandatory is_mandatory_module_label "true" managed

unfoldable pub default_annotations : CommonModule → List (String × String) → List (String × String)
default_annotations c annotations = insert_if c.is_unmanaged unmanaged_annotation "true" (
    insert ocm_component_name_annotation c.ocm_component_name
      (insert fqdn_annotation c.ocm_component_name annotations))

unfoldable pub apply_default_meta_to_manifest :
    Kyma → CommonModule → ModuleTemplateInfo → ModuleTemplate → Manifest → Manifest
unfolding default_labels default_annotations
apply_default_meta_to_manifest kyma c info t m = record m {
  meta = record m.meta {
    labels = default_labels kyma c info t m.meta.labels;
    annotations = default_annotations c m.meta.annotations;
  };
}

-- NeedToUpdate. A nil manifest or status is `none`.
unfoldable pub need_to_update :
    Option Manifest → Manifest → Option ModuleStatus → (is_unmanaged : Bool) → ModuleTemplate → Bool
unfolding is_same_channel
need_to_update none new status module_unmanaged t = not module_unmanaged
need_to_update (some old) new status module_unmanaged t =
    let diff_in_spec =
      not (str_eq new.spec.version old.spec.version) || not (is_same_channel new old) in
    if is_unmanaged old
    then not module_unmanaged
    else if module_unmanaged
    then true
    else if is_mandatory_module old
    then diff_in_spec
    else elim status [
      | none ↦ diff_in_spec
      | some s ↦ elim s.template [
        | none ↦ diff_in_spec
        | some tracked ↦ not (tracked.generation == t.meta.generation) || diff_in_spec
      ]
    ]

-- The calls of the runner that change a manifest on the control plane.
pub data SyncCall : Type 0 where
  patch update delete : Manifest → SyncCall

abbrev pub SyncCalls : Type 0
SyncCalls = List SyncCall

-- The API server, which may answer by all calls made before, and the calls of the libraries: the
-- predicates on errors, whether a manifest has owner references, SetControllerReference, and
-- ConvertToVersion, with `none` for an object that is no Manifest. A call that succeeds gives the
-- object that the client writes back into the one in memory.
pub record Runner : Type 0 where
  pub errors : ErrorLib
  pub has_owner_references : Manifest → Bool
  pub set_controller_reference : Kyma → Manifest → Result Manifest
  pub convert : Manifest → Result (Option Manifest)
  pub get : (name namespace : String) → SyncCalls → Result Manifest
  pub answer : SyncCall → SyncCalls → Result Manifest

-- What a step of the runner gives: the calls behind it, the last one first, and its result.
abbrev pub Sync : Type 0 → Type 0
Sync A = SyncCalls → SyncCalls × Result A

module _ (r : Runner) where
  unfoldable pub setup_module :
      Kyma → CommonModule → ModuleTemplateInfo → ModuleTemplate → Manifest → Result Manifest
  unfolding apply_default_meta_to_manifest
  setup_module kyma c info t m =
      let prepared = apply_default_meta_to_manifest kyma c info t m in
      if r.has_owner_references prepared
      then ok prepared
      else elim (r.set_controller_reference kyma prepared) [
        | ok owned ↦ ok owned
        | err e ↦ err (wrap "error setting owner reference" e)
      ]

  unfoldable pub get_manifest : (name namespace : String) → SyncCalls → Result (Option Manifest)
  unfolding is_not_found
  get_manifest name namespace calls = elim (r.get name namespace calls) [
    | ok m ↦ ok (some m)
    | err e ↦ if is_not_found r.errors (some e) then ok none else err (wrap "error get manifest" e)
  ]

  abbrev pub sync_call : SyncCall → Sync Manifest
  sync_call c calls = (c ∷ calls, r.answer c calls)

  -- patchManifest, with the manifest that the server answers.
  unfoldable pub patch_manifest : Manifest → Sync Manifest
  patch_manifest m calls = elim (sync_call (patch m) calls).1 [
    | ok patched ↦ ((sync_call (patch m) calls).0, ok patched)
    | err e ↦ ((sync_call (patch m) calls).0, err (wrap "error applying manifest" e))
  ]

  -- updateAvailableManifestSpec, with the manifest in the cluster behind it.
  unfoldable pub update_available_manifest_spec :
      Option Manifest → Manifest → Sync (Option Manifest)
  update_available_manifest_spec none new calls = (calls, ok none)
  update_available_manifest_spec (some old) new calls =
      let changed : Manifest = record old { spec = new.spec } in
      elim (sync_call (update changed) calls).1 [
        | ok updated ↦ ((sync_call (update changed) calls).0, ok (some updated))
        | err e ↦ ((sync_call (update changed) calls).0, err (wrap "error update manifest" e))
      ]

  -- doUpdateWithStrategy: the new manifest and the one in the cluster behind it. An update that
  -- fails with "not found" leaves the one in memory with the new spec.
  unfoldable pub do_update_with_strategy :
      CommonModule
      → Option Manifest
      → Manifest
      → Option ModuleStatus
      → ModuleTemplate
      → Sync (Manifest × Option Manifest)
  unfolding need_to_update patch_manifest update_available_manifest_spec is_not_found
  do_update_with_strategy c old new status t calls =
      if not (need_to_update old new status c.is_unmanaged t)
      then (calls, ok (new, old))
      else if c.enabled
      then elim (patch_manifest new calls).1 [
        | ok patched ↦ ((patch_manifest new calls).0, ok (patched, old))
        | err e ↦ ((patch_manifest new calls).0, err e)
      ]
      else elim (update_available_manifest_spec old new calls).1 [
        | ok updated ↦ ((update_available_manifest_spec old new calls).0, ok (new, updated))
        | err e ↦ (
          (update_available_manifest_spec old new calls).0,
          (if is_not_found r.errors (some e) then ok (new, with_spec old new) else err e),
        )
      ]
    where
      with_spec : Option Manifest → Manifest → Option Manifest
      with_spec none new = none
      with_spec (some old) new = some (record old { spec = new.spec })
