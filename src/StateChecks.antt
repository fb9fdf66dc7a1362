-- ===== src/StateChecks.antt =====
-- internal/manifest/statecheck: the state of a module by its resources in the runtime.
mod Defs
pub mod Rollout
pub mod Pods
pub mod Found
mod Tests
