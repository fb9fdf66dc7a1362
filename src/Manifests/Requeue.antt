-- ===== src/Manifests/Requeue.antt =====
-- pkg/queue/requeue_intervals.go.
use lifecycle_manager.Prelude.{ℕ, Option, none, some}
use lifecycle_manager.Api.{State, ready, processing, error, deleting, warning, unmanaged, unset}

-- Durations in seconds; `jitter` is Jitter.Apply at the random numbers that it draws.
pub record RequeueIntervals : Type 0 where
  pub success : ℕ
  pub busy : ℕ
  pub warned : ℕ
  pub failed : ℕ
  pub jitter : Option (ℕ → ℕ)

abbrev pub interval_of : State → RequeueIntervals → ℕ
interval_of error i = i.failed
interval_of deleting i = i.busy
interval_of processing i = i.busy
interval_of warning i = i.warned
interval_of ready i = i.success
interval_of unmanaged i = i.success
interval_of unset i = i.success

unfoldable pub determine_requeue_interval : State → RequeueIntervals → ℕ
determine_requeue_interval s i = elim i.jitter [
  | none ↦ interval_of s i
  | some apply ↦ apply (interval_of s i)
]
