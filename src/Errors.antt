-- ===== src/Errors.antt =====
-- Go's error values (package errors), as the sources under internal/ and pkg/ build them, and the
-- classification of errors in pkg/util/error.go.
mod Defs
mod Classify
unfoldable pub use Defs.*
unfoldable pub use Classify.*
