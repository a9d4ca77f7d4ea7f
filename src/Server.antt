-- ===== src/Server.antt =====
-- Parts of `crates/blobyard-server/src`.
pub mod Expiry
