-- ===== src/Api.antt =====
-- The custom resources of api/shared and api/v1beta2, with the methods that the controllers use.
mod States
mod Meta
mod Kymas
mod Manifests
mod Modules
pub mod KymaStates
mod Tests
unfoldable pub use States.*
unfoldable pub use Meta.*
unfoldable pub use Kymas.*
unfoldable pub use Manifests.*
unfoldable pub use Modules.*
