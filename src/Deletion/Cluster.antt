-- ===== src/Deletion/Cluster.antt =====
-- A concrete world for the deletion of one Kyma: clusters on which no call fails.
use lifecycle_manager.Prelude.{
  ◌≡◌, refl, ap, subst, sym, String, str_eq, Bool, true, false, not, List, [], ◌∷◌, Option, none,
  some, arith, contains, keep,
}
use lifecycle_manager.Errors.{Error, foreign, Result, ok, err, ErrorLib, is_not_found}
use lifecycle_manager.Api.{Kyma, State, ready, deleting, is_deleting, ObjectMeta, kyma_finalizer}
use lifecycle_manager.Deletion.UseCases.{
  SkrCrd, module_template_crd, module_release_meta_crd, kyma_crd, Repos, kyma_in_state_deleting,
}
use lifecycle_manager.Deletion.View.{View, collect}
use lifecycle_manager.Deletion.Convergence.{Behaves, ReadsState}

-- The Kyma in the control plane, flags for all else, and the CRD whose deletion is under way, which
-- its finalizer holds up. The flags of the Kyma itself are read from it.
pub record Cluster : Type 0 where
  pub kyma : Kyma
  pub flags : View
  pub leaving : Option SkrCrd

abbrev pub view : Cluster → View
view c = record c.flags {
  marked = is_deleting c.kyma.meta;
  deleting = kyma_in_state_deleting c.kyma;
  finalizer = contains c.kyma.meta.finalizers kyma_finalizer;
}

abbrev without : String → ObjectMeta → ObjectMeta
without f m = record m { finalizers = keep (λ g. not (str_eq g f)) m.finalizers }

abbrev pub with_flags : Cluster → View → Cluster × Option Error
with_flags c v = (record c { flags = v }, none)

abbrev pub in_deleting : Kyma → Kyma
in_deleting k = record k { status = record k.status { state = deleting } }

abbrev crd_flag : SkrCrd → View → Bool
crd_flag module_template_crd v = v.template_crd
crd_flag module_release_meta_crd v = v.release_crd
crd_flag kyma_crd v = v.kyma_crd

abbrev clear_crd : SkrCrd → View → View
clear_crd module_template_crd v = record v { template_crd = false }
clear_crd module_release_meta_crd v = record v { release_crd = false }
clear_crd kyma_crd v = record v { kyma_crd = false; skr_kyma = false; unmarked = false }

-- The error that the library takes for "not found" is `foreign 404`.
abbrev pub plain_lib : ErrorLib
plain_lib = record {
  is_not_registered = λ e. false;
  is_no_match = λ e. false;
  is_api_not_found = λ e. elim e [ foreign n ↦ true | _ ↦ false ];
  failed_groups = λ e. [];
  is_connection_refused = λ e. false;
  is_unauthorized = λ e. false;
  is_forbidden = λ e. false;
  is_dns_not_found = λ e. false;
  message = λ e. [];
}

abbrev skr_state : Bool → Result State
skr_state true = ok ready
skr_state false = err (foreign 404)

abbrev pub repos : Repos Cluster
repos = record {
  contains_finalizer = λ m f. contains m.finalizers f;
  update_status_deleting = λ k c. (in_deleting k, record c { kyma = in_deleting c.kyma }, none);
  skr_kyma_state = λ n c. skr_state c.flags.unmarked;
  set_state_deleting = λ n c. with_flags c (record c.flags { unmarked = false });
  exist_for_kyma_without_deletion_timestamp = λ n c. ok c.flags.live;
  delete_all_for_kyma = λ n c. with_flags c (record c.flags { live = false });
  certificate_exists = λ n c. ok c.flags.certificate;
  certificate_delete = λ n c. with_flags c (record c.flags { certificate = false });
  secret_exists = λ n c. ok c.flags.secret;
  secret_delete = λ n c. with_flags c (record c.flags { secret = false });
  resources_exist = λ n c. ok c.flags.webhook;
  delete_webhook_resources = λ n c. with_flags c (record c.flags { webhook = false });
  crd_exists = λ crd n c. ok (crd_flag crd c.flags);
  crd_delete = λ crd n c. (record c { leaving = some crd }, none);
  skr_kyma_exists = λ n c. ok c.flags.skr_kyma;
  skr_kyma_delete = λ n c. with_flags c (record c.flags { skr_kyma = false; unmarked = false });
  has_metrics = λ n c. ok c.flags.metrics;
  cleanup_metrics = λ n c. record c { flags = record c.flags { metrics = false } };
  exist_for_kyma = λ n c. ok c.flags.manifests;
  drop_finalizer =
      λ n f c. (record c { kyma = record c.kyma { meta = without f c.kyma.meta } }, none);
}

abbrev finished : Option SkrCrd → View → View
finished none v = v
finished (some crd) v = clear_crd crd v

-- The deletion under way is completed, and manifests in deletion go.
unfoldable pub others : Cluster → Cluster
unfolding collect
others c = record c { flags = collect (finished c.leaving c.flags); leaving = none }

abbrev pub Settled : Cluster → Type 0
Settled c = c.leaving ≡ none

contains-keep_other :
    (fs : List String) (f : String) → contains (keep (λ g. not (str_eq g f)) fs) f ≡ false
contains-keep_other [] f = refl
contains-keep_other (g ∷ fs) f = ground (arith, contains-keep_other fs f)

reads_state : (b : Bool) → ReadsState plain_lib b (skr_state b)
unfolding is_not_found
reads_state true = refl
reads_state false = (refl, refl)

-- The concrete world behaves as the convergence of the deletion asks, where no deletion is under way.
at_rest :
    (k : Kyma) (v : View)
    → Behaves plain_lib repos view others k (record { kyma = k; flags = v; leaving = none })
unfolding collect others
at_rest k v = record {
  marked = refl;
  deleting = refl;
  finalizer = refl;
  unmarked = reads_state v.unmarked;
  live = refl;
  manifests = refl;
  certificate = refl;
  secret = refl;
  webhook = refl;
  template_crd = refl;
  release_crd = refl;
  skr_kyma = refl;
  definition = refl;
  metrics = refl;
  rests = refl;
  sets_deleting = refl;
  marks = refl;
  deletes_manifests = refl;
  deletes_certificate = refl;
  deletes_secret = refl;
  deletes_webhook = refl;
  deletes_template_crd = refl;
  deletes_release_crd = refl;
  deletes_skr_kyma = refl;
  deletes_definition = refl;
  cleans_metrics = refl;
  drops =
      ap
        (λ (b : Bool).
          collect
            (record (view (record { kyma = k; flags = v; leaving = none })) { finalizer = b }))
        (contains-keep_other k.meta.finalizers kyma_finalizer);
}

pub cluster-Behaves : (c : Cluster) → Settled c → Behaves plain_lib repos view others c.kyma c
cluster-Behaves c settled =
    subst (λ l. Behaves plain_lib repos view others c.kyma (record c { leaving = l })) (sym settled)
      (at_rest c.kyma c.flags)

kyma_of_some : (a b : Kyma) → some a ≡ some b → a ≡ b
kyma_of_some a b e = cc

abbrev pub get_kyma : Cluster → Option Kyma
get_kyma c = some c.kyma

pub get_kyma-Behaves :
    (c : Cluster) (k : Kyma)
    → Settled c
    → get_kyma c ≡ some k
    → Behaves plain_lib repos view others k c
get_kyma-Behaves c k settled e =
    subst (λ k'. Behaves plain_lib repos view others k' c) (kyma_of_some c.kyma k e)
      (cluster-Behaves c settled)
