-- ===== src/Cli.antt =====
-- The client's side of an upload: `crates/blobyard-cli/src/runner/transfers`.
pub mod Parts
