-- ===== src/Images.antt =====
-- References of images, and their rewriting in containers: internal/imagerewrite/rewrite.go.
mod Defs
pub mod Printed
pub mod Replaced
mod Tests
