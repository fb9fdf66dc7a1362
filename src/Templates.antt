-- ===== src/Templates.antt =====
-- The lookup of module templates: pkg/templatelookup and internal/service/restrictedmodule.
mod Infos
mod Lookup
mod Strategy
pub mod Given
pub mod Released
pub mod Allowed
mod Tests
unfoldable pub use Infos.*
unfoldable pub use Lookup.*
unfoldable pub use Strategy.*
