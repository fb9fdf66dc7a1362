-- ===== src/Statuses.antt =====
-- The status of the modules in a Kyma: internal/service/kyma/status/modules.
mod Generate
mod Update
pub mod Names
pub mod FromError
pub mod Kept
pub mod Named
pub mod Cells
pub mod Slices
mod Tests
unfoldable pub use Update.{update_module_statuses}
