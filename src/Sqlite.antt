-- ===== src/Sqlite.antt =====
-- The SQLite metadata adapter, `crates/blobyard-repository-sqlite/src`.
mod Table
pub mod Database
pub mod Transfers
pub mod Retention
pub mod Sharing
pub mod Lifecycle
pub mod Inboxes
pub mod Ci
