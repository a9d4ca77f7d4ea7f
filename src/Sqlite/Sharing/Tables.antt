-- ===== src/Sqlite/Sharing/Tables.antt =====
-- The records of `crates/blobyard-contract/src/sharing.rs` and the tables that shares use.
use blobyard_core.Contract.{StoredObjectRecord}
use blobyard_core.Sqlite.Database.{Database}
use blobyard_core.Sqlite.Sharing.Audit.{NewAuditEvent}
use blobyard_core.Base.{ℕ, Bool, true, false, Option, List, Str}

pub data ShareStatus : Type 0 where
  active exhausted revoked : ShareStatus

abbrev pub is_active : ShareStatus → Bool
is_active active = true
is_active _ = false

abbrev pub is_revoked : ShareStatus → Bool
is_revoked revoked = true
is_revoked _ = false

pub record NewShare : Type 0 where
  pub id : Str
  pub workspace_id : Str
  pub version_id : Str
  pub capability_hash : Str
  pub expires_at_ms : ℕ
  pub maximum_downloads : Option ℕ
  pub created_at_ms : ℕ

-- A row of `shares`. A deleted version leaves `version_id` null.
pub record ShareRow : Type 0 where
  pub id : Str
  pub workspace_id : Str
  pub version_id : Option Str
  pub capability_hash : Str
  pub expires_at_ms : ℕ
  pub status : ShareStatus
  pub consumed_count : ℕ
  pub maximum_downloads : Option ℕ
  pub created_at_ms : ℕ
  pub revoked_at_ms : Option ℕ

pub record ShareRecord : Type 0 where
  pub id : Str
  pub workspace_id : Str
  pub version_id : Option Str
  pub expires_at_ms : ℕ
  pub status : ShareStatus
  pub consumed_count : ℕ
  pub maximum_downloads : Option ℕ
  pub created_at_ms : ℕ
  pub revoked_at_ms : Option ℕ

pub record ShareTarget : Type 0 where
  pub share : ShareRecord
  pub object : StoredObjectRecord

-- The tables that shares use. `workspaces` lists each project with its workspace.
pub record ShareDatabase : Type 0 where
  pub uploads : Database
  pub workspaces : List (Str × Str)
  pub shares : List ShareRow
  pub events : List NewAuditEvent

abbrev pub share_key : ShareRow → Str
share_key s = s.id

-- `rows::share`.
abbrev pub share_record : ShareRow → ShareRecord
share_record s = record {
  id = s.id;
  workspace_id = s.workspace_id;
  version_id = s.version_id;
  expires_at_ms = s.expires_at_ms;
  status = s.status;
  consumed_count = s.consumed_count;
  maximum_downloads = s.maximum_downloads;
  created_at_ms = s.created_at_ms;
  revoked_at_ms = s.revoked_at_ms;
}
