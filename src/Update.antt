-- ===== src/Update.antt =====
-- update_provider.go: the signed manifest of updates, the choice of a download, and its verification.
pub mod Manifest
pub mod Patch
pub mod Provider
pub mod Check
pub mod Download
mod Tests
