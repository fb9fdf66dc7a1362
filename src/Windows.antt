-- ===== src/Windows.antt =====
-- Maintenance windows: maintenancewindows/resolver and internal/maintenancewindows.
mod Time
mod Policy
mod Active
pub mod Days
pub mod Week
pub mod Rules
pub mod Midnight
mod Tests
unfoldable pub use Time.*
unfoldable pub use Policy.*
unfoldable pub use Active.*
