-- ===== src/Sqlite/Inboxes/Tables.antt =====
-- The records of `crates/blobyard-contract/src/inboxes.rs` and the tables of
-- `crates/blobyard-repository-sqlite/migrations/0012_inboxes.sql`.
use blobyard_core.Sqlite.Sharing.{ShareDatabase}
use blobyard_core.Base.{ℕ, Bool, true, false, Option, List, Str}

pub data InboxStatus : Type 0 where
  active revoked : InboxStatus

pub data LinkStatus : Type 0 where
  reserved complete aborted : LinkStatus

pub record NewInbox : Type 0 where
  pub id : Str
  pub workspace_id : Str
  pub project_id : Str
  pub name : Str
  pub capability_hash : Str
  pub expires_at_ms : ℕ
  pub maximum_files : ℕ
  pub maximum_bytes : ℕ
  pub created_at_ms : ℕ

-- A row of `inboxes`; `InboxRecord` is the row without its capability.
pub record InboxRow : Type 0 where
  pub id : Str
  pub workspace_id : Str
  pub project_id : Str
  pub name : Str
  pub capability_hash : Str
  pub expires_at_ms : ℕ
  pub status : InboxStatus
  pub current_files : ℕ
  pub current_bytes : ℕ
  pub reserved_files : ℕ
  pub reserved_bytes : ℕ
  pub maximum_files : ℕ
  pub maximum_bytes : ℕ
  pub created_at_ms : ℕ
  pub revoked_at_ms : Option ℕ

pub record InboxRecord : Type 0 where
  pub id : Str
  pub workspace_id : Str
  pub project_id : Str
  pub name : Str
  pub expires_at_ms : ℕ
  pub status : InboxStatus
  pub current_files : ℕ
  pub current_bytes : ℕ
  pub reserved_files : ℕ
  pub reserved_bytes : ℕ
  pub maximum_files : ℕ
  pub maximum_bytes : ℕ
  pub created_at_ms : ℕ
  pub revoked_at_ms : Option ℕ

pub record NewInboxUpload : Type 0 where
  pub capability_hash : Str
  pub fingerprint_hash : Str
  pub now_ms : ℕ

-- A row of `inbox_uploads`.
pub record LinkRow : Type 0 where
  pub upload_id : Str
  pub inbox_id : Str
  pub fingerprint_hash : Str
  pub reserved_size : ℕ
  pub status : LinkStatus
  pub created_at_ms : ℕ

-- `stored` holds the tables of uploads and of audit events.
pub record InboxDatabase : Type 0 where
  pub stored : ShareDatabase
  pub inboxes : List InboxRow
  pub links : List LinkRow

abbrev pub inbox_key : InboxRow → Str
inbox_key i = i.id

abbrev pub link_key : LinkRow → Str
link_key l = l.upload_id

abbrev pub is_open_inbox : InboxStatus → Bool
is_open_inbox active = true
is_open_inbox revoked = false

abbrev pub is_reserved : LinkStatus → Bool
is_reserved reserved = true
is_reserved _ = false

abbrev pub is_complete_link : LinkStatus → Bool
is_complete_link complete = true
is_complete_link _ = false

-- `inbox_queries::row`.
abbrev pub inbox_record : InboxRow → InboxRecord
inbox_record i = record {
  id = i.id;
  workspace_id = i.workspace_id;
  project_id = i.project_id;
  name = i.name;
  expires_at_ms = i.expires_at_ms;
  status = i.status;
  current_files = i.current_files;
  current_bytes = i.current_bytes;
  reserved_files = i.reserved_files;
  reserved_bytes = i.reserved_bytes;
  maximum_files = i.maximum_files;
  maximum_bytes = i.maximum_bytes;
  created_at_ms = i.created_at_ms;
  revoked_at_ms = i.revoked_at_ms;
}
