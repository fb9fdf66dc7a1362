-- ===== src/Deletion.antt =====
-- The deletion of a Kyma: internal/service/kyma/deletion, its use cases, their composition in
-- cmd/composition/service/kyma/deletion, and processDeletion of internal/controller/kyma.
mod Defs
mod UseCases
mod Controller
pub mod Selection
pub mod Safety
pub mod View
pub mod Convergence
pub mod Rounds
mod Cluster
mod Tests
unfoldable pub use Defs.*
unfoldable pub use UseCases.*
unfoldable pub use Controller.*
