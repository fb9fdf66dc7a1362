-- ===== src/Deletion/View.antt =====
-- The deletion of a Kyma as an abstract machine: what is left of it, and what one call of Delete
-- does when no call of a repository fails.
use lifecycle_manager.Prelude.{
  ℕ, ◌+◌, ◌≤◌, ◌≡◌, Bool, true, false, not, ◌&&◌, ◌||◌, arith, if◌then◌else◌,
}

-- Flags for what the repositories report of one Kyma. `unmarked`: the Kyma of the SKR is not in
-- the state Deleting; `live`: there are manifests without a deletion timestamp.
pub record View : Type 0 where
  pub marked : Bool
  pub deleting : Bool
  pub unmarked : Bool
  pub live : Bool
  pub manifests : Bool
  pub certificate : Bool
  pub secret : Bool
  pub webhook : Bool
  pub template_crd : Bool
  pub release_crd : Bool
  pub skr_kyma : Bool
  pub kyma_crd : Bool
  pub metrics : Bool
  pub finalizer : Bool

-- The world behind a call and the completion of the deletion it asks for, past the webhook resources.
unfoldable pub advance_skr : View → View
advance_skr v =
    if v.marked && v.template_crd
    then record v { template_crd = false }
    else if v.marked && v.release_crd
    then record v { release_crd = false }
    else if v.marked && v.skr_kyma
    then record v { skr_kyma = false; unmarked = false }
    else if v.marked && v.kyma_crd
    then record v { kyma_crd = false; skr_kyma = false; unmarked = false }
    else if v.metrics
    then record v { metrics = false }
    else if v.manifests
    then v
    else if v.finalizer
    then record v { finalizer = false }
    else v

-- The world behind a call and the completion of the deletion it asks for.
unfoldable pub advance : View → View
unfolding advance_skr
advance v =
    if v.marked && not v.deleting
    then record v { deleting = true }
    else if v.marked && v.unmarked
    then record v { unmarked = false }
    else if v.live
    then record v { live = false }
    else if v.marked && v.deleting && (v.certificate || v.secret)
    then record v { certificate = false; secret = false }
    else if v.marked && v.deleting && v.webhook
    then record v { webhook = false }
    else advance_skr v

-- The other controllers remove the manifests that are in deletion.
unfoldable pub collect : View → View
collect v = record v { manifests = v.manifests && v.live }

abbrev count : Bool → ℕ
count true = 1
count false = 0

-- How many calls are still to be made.
pub pending : View → ℕ
pending v =
    count (not v.deleting)
    + count v.unmarked
    + count v.live
    + count v.manifests
    + count (v.certificate || v.secret)
    + count v.webhook
    + count v.template_crd
    + count v.release_crd
    + count v.skr_kyma
    + count v.kyma_crd
    + count v.metrics
    + count v.finalizer

pub pending-le : (v : View) → pending v ≤ 12
unfolding pending
pending-le v = ground arith

pub advance-marked : (v : View) → (collect (advance v)).marked ≡ v.marked
unfolding advance collect
advance-marked v = ground arith

pub finalizer_of_pending : (v : View) → pending v ≤ 0 → v.finalizer ≡ false
unfolding pending
finalizer_of_pending v h = ground arith

pub pending-advance :
    (v : View) (n : ℕ) → v.marked ≡ true → pending v ≤ n + 1 → pending (collect (advance v)) ≤ n
unfolding pending advance collect
pending-advance v n m h = ground arith
