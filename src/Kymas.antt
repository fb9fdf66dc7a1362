-- ===== src/Kymas.antt =====
-- The Kyma controller: internal/controller/kyma/controller.go and pkg/status.
mod Conditions
mod Env
mod Status
mod Removal
mod Remote
mod Processing
mod Deleting
mod Reconcile
pub mod Triples
pub mod Aggregated
pub mod Shown
pub mod Unreported
mod Quiet
pub mod Untouched
pub mod Forgotten
mod Tests
