-- ===== src/Catalog.antt =====
-- The module catalog of a Kyma: internal/remote and internal/util/collections.
mod Selection
mod Sync
mod Remote
pub mod Selected
pub mod Obsolete
mod Server
pub mod Converged
mod Tests
