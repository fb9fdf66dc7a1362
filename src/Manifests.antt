-- ===== src/Manifests.antt =====
-- The manifest controller: internal/controller/manifest and what it calls.
mod Requeue
mod Status
mod Resources
mod Env
mod Cleanup
mod ModuleCrs
mod Endings
mod Steps
mod Install
mod Delete
mod Reconcile
mod Quiet
pub mod Diffs
pub mod Order
pub mod Pruned
pub mod Guards
pub mod Deleting
pub mod Crs
mod Tests
unfoldable pub use Requeue.*
pub use Env.{RequeueType, intended_requeue, unexpected_requeue}
