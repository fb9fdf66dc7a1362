-- ===== src/Certificates.antt =====
-- The certificates of the runtime watcher: internal/service/watcher/certificate,
-- internal/gatewaysecret and internal/controller/istiogatewaysecret.
mod Bundles
mod Gateway
mod Renewal
pub mod Encoding
pub mod Kept
pub mod Rotated
mod Server
pub mod Trusted
pub mod Grace
pub mod Overdue
mod Sample
mod Tests
