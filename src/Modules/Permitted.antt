-- ===== src/Modules/Permitted.antt =====
-- Which manifests ReconcileManifests changes, and for which modules.
use lifecycle_manager.Prelude.{
  ◌≡◌, refl, subst, sym, ◌⊎◌, inl, inr, true, false, List, [], ◌∷◌, Option, none, some, All, Member,
  All-implies, All-Member, Bool-cases, ap, ◌∙◌, Option-cases, arith,
}
use lifecycle_manager.Errors.{Error, errors_is, Result, ok, err, Result-cases, template_not_allowed}
use lifecycle_manager.Api.{
  Kyma, Manifest, ModuleStatus, ModuleTemplate, get_module_status, last_of_names,
}
use lifecycle_manager.Templates.{ModuleTemplateInfo}
use lifecycle_manager.Modules.Defs.{CommonModule}
use lifecycle_manager.Modules.Sync.{
  SyncCall, patch, update, delete, SyncCalls, Runner, setup_module, get_manifest, patch_manifest,
  update_available_manifest_spec, need_to_update, do_update_with_strategy,
}
use lifecycle_manager.Modules.Runner.{
  settle_update, settle_delete, update_found, update_manifest, delete_manifest, reconcile_module,
  reconcile_modules, reconcile_manifests,
}

-- The template of the module was looked up without an error.
abbrev pub Usable : CommonModule → Type 0
Usable c = (info : ModuleTemplateInfo) × (c.template_info ≡ some info) × (info.err ≡ none)

abbrev pub NotAllowed : CommonModule → Type 0
NotAllowed c =
    (info : ModuleTemplateInfo) × (e : Error) × (c.template_info ≡ some info)
    × (info.err ≡ some e)
    × (errors_is e template_not_allowed ≡ true)

-- A call for the module: an enabled one may be applied, of a disabled one the spec of its manifest
-- is updated, and that of one which is not allowed is deleted.
abbrev pub PermittedFor : CommonModule → SyncCall → Type 0
PermittedFor c (patch m) = Usable c × (c.enabled ≡ true)
PermittedFor c (update m) = Usable c × (c.enabled ≡ false)
PermittedFor c (delete m) = NotAllowed c × (c.manifest ≡ some m)

module _ (r : Runner) where
  -- The calls of a step are those before it, or one more that has the property.
  abbrev OneMore : (SyncCall → Type 0) → SyncCalls → SyncCalls → Type 0
  OneMore P before behind =
      (behind ≡ before) ⊎ ((call : SyncCall) × (behind ≡ (call ∷ before)) × P call)

  patch_calls : (m : Manifest) (calls : SyncCalls) → (patch_manifest r m calls).0 ≡ patch m ∷ calls
  unfolding patch_manifest
  patch_calls m calls = ground arith

  update_calls :
      (old : Option Manifest) (new : Manifest) (calls : SyncCalls)
      → ((update_available_manifest_spec r old new calls).0 ≡ calls)
        ⊎ ((m : Manifest) × ((update_available_manifest_spec r old new calls).0 ≡ update m ∷ calls))
  unfolding update_available_manifest_spec
  update_calls none new calls = inl refl
  update_calls (some old) new calls = inr (record old { spec = new.spec }, ground arith)

  do_update_calls :
      (c : CommonModule) (old : Option Manifest) (new : Manifest) (status : Option ModuleStatus)
      (t : ModuleTemplate) (calls : SyncCalls)
      → Usable c
      → OneMore (PermittedFor c) calls (do_update_with_strategy r c old new status t calls).0
  unfolding do_update_with_strategy
  do_update_calls c old new status t calls u =
      elim (Bool-cases (need_to_update old new status c.is_unmanaged t)) [
        | inr no_need ↦ inl (ground (arith, no_need))
        | inl need ↦ elim (Bool-cases c.enabled) [
          | inl on ↦
              let p = patch_calls new calls in inr (patch new, ground (arith, need, on, p), (u, on))
          | inr off ↦ elim (update_calls old new calls) [
            | inl same ↦ inl (ground (arith, need, off, same))
            | inr (m, more) ↦ inr (update m, ground (arith, need, off, more), (u, off))
          ]
        ]
      ]

  module _ (kyma : Kyma) where
    found_same :
        (c : CommonModule) (t : ModuleTemplate) (new : Manifest) (old : Option Manifest)
        (calls : SyncCalls)
        → (update_found r kyma c t new old calls).0
          ≡ (do_update_with_strategy r c old new
              (get_module_status (last_of_names kyma.status.modules) c.module_name)
              t
              calls).0
    unfolding update_found
    found_same c t new old calls = ground arith

    found_calls :
        (c : CommonModule) (t : ModuleTemplate) (new : Manifest) (old : Option Manifest)
        (calls : SyncCalls)
        → Usable c
        → OneMore (PermittedFor c) calls (update_found r kyma c t new old calls).0
    found_calls c t new old calls u =
        subst (OneMore (PermittedFor c) calls) (sym (found_same c t new old calls)) (
          do_update_calls c old new
            (get_module_status (last_of_names kyma.status.modules) c.module_name) t calls u)

    update_calls_of :
        (c : CommonModule) (info : ModuleTemplateInfo) (t : ModuleTemplate) (m : Manifest)
        (calls : SyncCalls)
        → Usable c
        → OneMore (PermittedFor c) calls (update_manifest r kyma c info t m calls).0
    unfolding update_manifest
    update_calls_of c info t m calls u = elim (Result-cases (setup_module r kyma c info t m)) [
      | inr (e, s) ↦ inl (ground (arith, s))
      | inl (prepared, s) ↦ elim (Result-cases (r.convert prepared)) [
        | inr (e, v) ↦ inl (ground (arith, s, v))
        | inl (none, v) ↦ inl (ground (arith, s, v))
        | inl (some new, v) ↦
            elim (Result-cases (get_manifest r new.meta.name new.meta.namespace calls)) [
              | inr (e, g) ↦ inl (ground (arith, s, v, g))
              | inl (old, g) ↦
                  rw (s, update_manifest) (rw v (rw g (found_calls c t new old calls u)))
            ]
      ]
    ]

    delete_calls :
        (m : Manifest) (calls : SyncCalls) → (delete_manifest r kyma m calls).0 ≡ delete m ∷ calls
    unfolding delete_manifest
    delete_calls m calls = ground arith

    updated_same :
        (c : CommonModule) (info : ModuleTemplateInfo) (t : ModuleTemplate) (m : Manifest)
        (calls : SyncCalls)
        → c.template_info ≡ some info
        → info.err ≡ none
        → info.template ≡ some t
        → c.manifest ≡ some m
        → reconcile_module r kyma c calls
          ≡ settle_update r kyma c (update_manifest r kyma c info t m calls)
    unfolding reconcile_module
    updated_same c info t m calls i fine p has = simp (i, fine, p, has, reconcile_module) refl

    settled_calls :
        (c : CommonModule) (p : SyncCalls × Result CommonModule)
        → (settle_update r kyma c p).0 ≡ p.0
    settled_calls c (calls, ok updated) = refl
    settled_calls c (calls, err e) = refl

    updated_calls :
        (c : CommonModule) (info : ModuleTemplateInfo) (t : ModuleTemplate) (m : Manifest)
        (calls : SyncCalls)
        → c.template_info ≡ some info
        → info.err ≡ none
        → info.template ≡ some t
        → c.manifest ≡ some m
        → (reconcile_module r kyma c calls).0 ≡ (update_manifest r kyma c info t m calls).0
    updated_calls c info t m calls i fine p has =
        ap (λ q. q.0) (updated_same c info t m calls i fine p has)
        ∙ settled_calls c (update_manifest r kyma c info t m calls)

    pub refused_same :
        (c : CommonModule) (m : Manifest) (calls : SyncCalls)
        → NotAllowed c
        → c.manifest ≡ some m
        → reconcile_module r kyma c calls ≡ settle_delete r kyma c (delete_manifest r kyma m calls)
    unfolding reconcile_module
    refused_same c m calls (info, e, i, h, refused) has =
        simp (i, h, refused, has, reconcile_module) refl

    module_calls :
        (c : CommonModule) (calls : SyncCalls)
        → OneMore (PermittedFor c) calls (reconcile_module r kyma c calls).0
    unfolding reconcile_module
    module_calls c calls = elim (Option-cases c.template_info) [
      | inl bare ↦ inl (ground (arith, bare))
      | inr (info, i) ↦ elim (Option-cases info.err) [
        | inr (e, h) ↦ elim (Bool-cases (errors_is e template_not_allowed)) [
          | inr other ↦ inl (ground (arith, i, h, other))
          | inl refused ↦ elim (Option-cases c.manifest) [
            | inl empty ↦ inl (ground (arith, i, h, refused, empty))
            | inr (m, has) ↦
                let refusal : NotAllowed c = (info, e, i, h, refused) in
                inr (
                  delete m,
                  ap (λ q. q.0) (refused_same c m calls refusal has) ∙ delete_calls m calls,
                  (refusal, has),
                )
          ]
        ]
        | inl fine ↦ elim (Option-cases info.template) [
          | inl no_template ↦ inl (ground (arith, i, fine, no_template))
          | inr (t, p) ↦ elim (Option-cases c.manifest) [
            | inl empty ↦ inl (ground (arith, i, fine, p, empty))
            | inr (m, has) ↦
                subst (OneMore (PermittedFor c) calls)
                  (sym (updated_calls c info t m calls i fine p has))
                  (update_calls_of c info t m calls (info, i, fine))
          ]
        ]
      ]
    ]

    module _ (Q : SyncCall → Type 0) where
      one_more :
          (c : CommonModule) (before behind : SyncCalls)
          → ((call : SyncCall) → PermittedFor c call → Q call)
          → OneMore (PermittedFor c) before behind
          → All Q before
          → All Q behind
      one_more c before behind q (inl same) a = subst (All Q) (sym same) a
      one_more c before behind q (inr (call, more, p)) a = subst (All Q) (sym more) (q call p, a)

      All-calls :
          (cs : List CommonModule) (calls : SyncCalls)
          → All (λ c. (call : SyncCall) → PermittedFor c call → Q call) cs
          → All Q calls
          → All Q (reconcile_modules r kyma cs calls).0
      unfolding reconcile_modules
      All-calls [] calls q a = a
      All-calls (c ∷ cs) calls q a =
          All-calls cs (reconcile_module r kyma c calls).0 q.1
            (one_more c calls (reconcile_module r kyma c calls).0 q.0 (module_calls c calls) a)

    -- Each call of ReconcileManifests is for one of the modules. It applies a manifest only for an
    -- enabled module and updates one only for a disabled module, both only if the template of the
    -- module was looked up without an error; it deletes only the manifest of a module whose
    -- template is not allowed.
    pub reconcile_manifests-PermittedFor :
        (cs : List CommonModule)
        → All
            (λ (call : SyncCall). (c : CommonModule) × Member c cs × PermittedFor c call)
            (reconcile_manifests r kyma cs []).0
    unfolding reconcile_manifests
    reconcile_manifests-PermittedFor cs =
        All-calls (λ call. (c : CommonModule) × Member c cs × PermittedFor c call) cs []
          (All-implies (λ c. Member c cs)
            (λ c.
              (call : SyncCall)
              → PermittedFor c call
              → (d : CommonModule) × Member d cs × PermittedFor d call)
            cs (λ c m call p. (c, m, p)) (All-Member cs))
          tt
