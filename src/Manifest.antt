-- ===== src/Manifest.antt =====
-- The application manifest of `crates/blobyard-core/src/application_manifest`.
pub mod Patterns
