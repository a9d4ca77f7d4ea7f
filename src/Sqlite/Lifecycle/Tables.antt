-- ===== src/Sqlite/Lifecycle/Tables.antt =====
-- The records of `crates/blobyard-contract/src/lifecycle.rs`, and the tables of
-- `crates/blobyard-repository-sqlite/migrations/0005_object_lifecycle.sql` as
-- `0016_yard_cleanup.sql` changes them.
use blobyard_core.Sqlite.Sharing.{ShareDatabase}
use blobyard_core.Base.{ℕ, Bool, true, false, Option, List, Str}

pub record ObjectDeletionTarget : Type 0 where
  pub project_id : Str
  pub object_path : Str
  pub version : Option ℕ

pub record NewObjectDeletion : Type 0 where
  pub id : Str
  pub target : ObjectDeletionTarget
  pub actor : Str
  pub request_id : Str
  pub created_at_ms : ℕ

pub record DeletionItem : Type 0 where
  pub version_id : Str
  pub storage_key : Str
  pub version : ℕ

pub record DeletionPlan : Type 0 where
  pub id : Str
  pub items : List DeletionItem
  pub complete : Bool
  pub actor : Str
  pub request_id : Str

pub data Reason : Type 0 where
  object_delete retention yard_cleanup : Reason

pub data OperationStatus : Type 0 where
  pending complete : OperationStatus

-- A row of `deletion_operations`.
pub record OperationRow : Type 0 where
  pub id : Str
  pub project_id : Str
  pub object_path : Str
  pub selected_version : Option ℕ
  pub reason : Reason
  pub status : OperationStatus
  pub actor : Str
  pub request_id : Str
  pub created_at_ms : ℕ
  pub completed_at_ms : Option ℕ

-- A row of `deletion_items`.
pub record ItemRow : Type 0 where
  pub operation_id : Str
  pub version_id : Str
  pub storage_key : Str
  pub version : ℕ

-- A row of `retention_policies`.
pub record PolicyRow : Type 0 where
  pub project_id : Str
  pub keep_latest : ℕ
  pub path_glob : Option Str
  pub branch_glob : Option Str
  pub enabled : Bool
  pub created_at_ms : ℕ
  pub updated_at_ms : ℕ

pub data RunStatus : Type 0 where
  running complete failed : RunStatus

-- A row of `retention_runs`.
pub record RunRow : Type 0 where
  pub id : Str
  pub project_id : Str
  pub candidate_count : ℕ
  pub deleted_count : ℕ
  pub status : RunStatus
  pub started_at_ms : ℕ
  pub completed_at_ms : Option ℕ
  pub error_summary : Option Str

-- `stored` holds the tables of uploads and shares. Its `deleted` is the join of `items` with
-- `operations`, so that a new item is added to both.
pub record LifecycleDatabase : Type 0 where
  pub stored : ShareDatabase
  pub operations : List OperationRow
  pub items : List ItemRow
  pub policies : List PolicyRow
  pub runs : List RunRow

abbrev pub operation_key : OperationRow → Str
operation_key o = o.id

abbrev pub policy_key : PolicyRow → Str
policy_key p = p.project_id

abbrev pub run_key : RunRow → Str
run_key r = r.id

abbrev pub is_done : OperationStatus → Bool
is_done pending = false
is_done complete = true

abbrev pub is_object_delete : Reason → Bool
is_object_delete object_delete = true
is_object_delete _ = false

abbrev pub is_retention : Reason → Bool
is_retention retention = true
is_retention _ = false
