-- ===== src/Sqlite/Lifecycle/Finish.antt =====
-- `finish` of `crates/blobyard-repository-sqlite/src/lifecycle_deletion.rs`, with
-- `lifecycle_operation.rs`.
use blobyard_core.Contract.{
  Repo, not_found, conflict, invalid_input, ObjectVersionRecord, UploadState,
}
use blobyard_core.Sqlite.Database.{ReservationRow, PartRow, DownloadRow, to_i64, validate_text}
use blobyard_core.Sqlite.Table.{find_row, update_row}
use blobyard_core.Sqlite.Sharing.{ShareRow, ShareDatabase, workspace_of}
use blobyard_core.Sqlite.Sharing.Audit.{NewAuditEvent, insert_event}
use blobyard_core.Sqlite.Lifecycle.{
  Reason, object_delete, retention, yard_cleanup, OperationRow, OperationStatus, ItemRow, RunRow,
  RunStatus, LifecycleDatabase, operation_key, run_key, is_done, is_object_delete, is_retention,
  find_operation, operation_items, at_target,
}
use blobyard_core.Base.{
  ℕ, Bool, true, false, not, ◌&&◌, Option, none, some, List, [], ◌∷◌, map, leb, if◌then◌else◌,
  length, any, keep, Str, lit, str_eq, ok_or, ◌>>=◌, ◌>>◌, guard, is_none_or, ok,
}

abbrev pub finished_action : Reason → Str
finished_action retention = lit "retention.enforced"
finished_action yard_cleanup = lit "yard.cleanup_completed"
finished_action object_delete = lit "object.deleted"

-- `lifecycle_operation::validate_event`.
unfoldable pub validate_finished :
    OperationRow → NewAuditEvent → LifecycleDatabase → Repo (Unit {0})
validate_finished operation event db = do
  workspace ← ok_or (workspace_of operation.project_id db.stored) not_found
  guard
      (str_eq operation.actor event.actor
        && str_eq operation.request_id event.request_id
        && str_eq workspace event.workspace_id
        && str_eq event.action (finished_action operation.reason))
      invalid_input

-- `DELETE FROM download_grants`.
unfoldable pub delete_grants : (Str → Bool) → ShareDatabase → ShareDatabase
delete_grants test db = record db {
  uploads = record db.uploads {
    downloads = keep (λ (d : DownloadRow). not (test d.version_id)) db.uploads.downloads;
  };
}

-- `DELETE FROM upload_reservations`, for a test of `version_id`.
unfoldable pub delete_reservations : (Str → Bool) → ShareDatabase → ShareDatabase
delete_reservations test db = record db {
  uploads = record db.uploads {
    reservations = keep (λ (r : ReservationRow). not (test r.version_id)) db.uploads.reservations;
    parts =
        keep
          (λ (p : PartRow). not (
            any (λ (r : ReservationRow). test r.version_id && str_eq r.id p.upload_id)
              db.uploads.reservations))
          db.uploads.parts;
  };
}

-- A version that passes the test has this identifier.
abbrev pub names : (ObjectVersionRecord → Bool) → List ObjectVersionRecord → Str → Bool
names test versions id = any (λ (v : ObjectVersionRecord). test v && str_eq v.id id) versions

-- `ON DELETE SET NULL`.
abbrev pub forget : (Str → Bool) → Option Str → Option Str
forget test none = none
forget test (some id) = if test id then none else some id

abbrev pub without_version : (Str → Bool) → ShareRow → ShareRow
without_version test s = record s { version_id = forget test s.version_id }

-- `DELETE FROM object_versions`.
unfoldable pub delete_versions : (ObjectVersionRecord → Bool) → ShareDatabase → Repo ShareDatabase
delete_versions test db =
    let named = names test db.uploads.versions in
    guard (not (any (λ (r : ReservationRow). named r.version_id) db.uploads.reservations)) conflict
    >> ok (record db {
      uploads = record db.uploads {
        versions = keep (λ (v : ObjectVersionRecord). not (test v)) db.uploads.versions;
        downloads = keep (λ (d : DownloadRow). not (named d.version_id)) db.uploads.downloads;
      };
      shares = map (without_version named) db.shares;
    })

abbrev pub has_id : Str → Str → Bool
has_id id k = str_eq k id

-- The three statements for one version.
unfoldable pub delete_version : Str → ShareDatabase → Repo ShareDatabase
delete_version id db =
    delete_versions (λ (v : ObjectVersionRecord). str_eq v.id id)
      (delete_reservations (has_id id) (delete_grants (has_id id) db))

-- The loop of `delete_selected_metadata`.
unfoldable pub delete_each : List ItemRow → ShareDatabase → Repo ShareDatabase
delete_each [] db = ok db
delete_each (i ∷ items) db = delete_version i.version_id db >>= delete_each items

abbrev pub is_aborted : UploadState → Bool
is_aborted UploadState.aborted = true
is_aborted _ = false

abbrev pub aborted_target : OperationRow → ObjectVersionRecord → Bool
aborted_target o v = at_target o.project_id o.object_path o.selected_version v && is_aborted v.state

unfoldable pub delete_aborted_target : OperationRow → ShareDatabase → Repo ShareDatabase
delete_aborted_target operation db =
    delete_versions (aborted_target operation)
      (delete_reservations (names (aborted_target operation) db.uploads.versions) db)

unfoldable pub delete_selected_metadata : OperationRow → LifecycleDatabase → Repo LifecycleDatabase
delete_selected_metadata operation db = do
  without_items ← delete_each (operation_items operation.id db.items) db.stored
  stored ←
      if is_object_delete operation.reason
      then delete_aborted_target operation without_items
      else ok without_items
  ok (record db { stored = stored })

abbrev pub finished_row : ℕ → OperationRow → OperationRow
finished_row at o = record o { status = OperationStatus.complete; completed_at_ms = some at }

abbrev pub mark_complete : Str → ℕ → LifecycleDatabase → LifecycleDatabase
mark_complete id at db = record db {
  operations =
      (update_row operation_key id (λ o. not (is_done o.status)) (finished_row at) db.operations).1;
}

abbrev pub finished_run : ℕ → ℕ → RunRow → RunRow
finished_run count at r = record r {
  deleted_count = count;
  status = RunStatus.complete;
  completed_at_ms = some at;
  error_summary = none;
}

-- With `CHECK(deleted_count <= candidate_count)` on the row that changes.
unfoldable pub complete_run : OperationRow → ℕ → LifecycleDatabase → Repo LifecycleDatabase
complete_run operation at db =
    let count = length (operation_items operation.id db.items) in
    if is_retention operation.reason
    then guard
        (is_none_or (find_row run_key operation.id db.runs) (λ r. leb count r.candidate_count))
        conflict
      >> ok (record db {
        runs = (update_row run_key operation.id (λ r. true) (finished_run count at) db.runs).1;
      })
    else ok db

-- `finish` on an operation that is still pending.
unfoldable pub finish_pending :
    OperationRow → ℕ → NewAuditEvent → LifecycleDatabase → Repo LifecycleDatabase
finish_pending operation at event db = do
  validate_finished operation event db
  without_rows ← delete_selected_metadata operation db
  with_run ← complete_run operation at (mark_complete operation.id at without_rows)
  events ← insert_event event with_run.stored.events
  ok (record with_run { stored = record with_run.stored { events = events } })

unfoldable pub finish : Str → ℕ → NewAuditEvent → LifecycleDatabase → Repo LifecycleDatabase
finish id at event db = do
  operation ← ok_or (find_operation id db) not_found
  if is_done operation.status then ok db else finish_pending operation at event db

unfoldable pub finish_deletion :
    Str → ℕ → NewAuditEvent → LifecycleDatabase → Repo LifecycleDatabase
finish_deletion id completed_at_ms event db = do
  validate_text id
  at ← to_i64 completed_at_ms
  finish id at event db
