-- ===== src/Modules.antt =====
-- pkg/module: the modules of a Kyma with their templates and manifests.
mod Defs
mod Names
mod Sync
mod Runner
pub mod Permitted
pub mod Deleted
mod Tests
pub mod Labels
pub mod Collisions
unfoldable pub use Defs.*
unfoldable pub use Names.*
unfoldable pub use Sync.*
unfoldable pub use Runner.*
