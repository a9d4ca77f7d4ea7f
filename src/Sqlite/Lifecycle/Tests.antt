-- ===== src/Sqlite/Lifecycle/Tests.antt =====
-- Deletions and retentions of `crates/blobyard-repository-sqlite/src/lifecycle_deletion.rs` and
-- `lifecycle_retention_plan.rs` on a database with two objects of one version each.
use mathlib.Core.Path.{subst}
use blobyard_core.Contract.{
  is_complete, ObjectVersionRecord, NewUploadReservation, StoredObjectRecord,
}
use blobyard_core.Sqlite.Database.{
  reservation_record, ReservationRow, DownloadRow, Database, version_key, reservation_key,
}
use blobyard_core.Sqlite.Table.{IsUnique}
use blobyard_core.Sqlite.Transfers.{next_version, new_reservation_row, new_version_row, reserve}
use blobyard_core.Sqlite.Transfers.Rows.{IsConsistent, IsLinked}
use blobyard_core.Sqlite.Transfers.Downloads.{download_by_capability, stored_object}
use blobyard_core.Sqlite.Transfers.Tests.{
  digest, other_digest, upload_a, done_version, done_row, transfer_runs, first,
}
use blobyard_core.Sqlite.Sharing.{ShareDatabase}
use blobyard_core.Sqlite.Sharing.Audit.{
  NewAuditEvent, validate_metadata, validate_audit, insert_event,
}
use blobyard_core.Sqlite.Lifecycle.{
  NewObjectDeletion, DeletionPlan, OperationRow, LifecycleDatabase, find_operation,
  validate_deletion, selected_versions, pending_operation, completed_operation, operation_items,
  deletion_plan, insert_operation, deletion_row, item_of, deleted_version, insert_item,
  insert_items, begin_new, begin, begin_object_deletion,
}
use blobyard_core.Sqlite.Lifecycle.Finish.{
  validate_finished, delete_grants, delete_reservations, delete_versions, delete_version,
  delete_each, delete_aborted_target, delete_selected_metadata, finished_row, complete_run,
  finish_pending, finish,
}
use blobyard_core.Sqlite.Lifecycle.Doomed.{is_doomed, names_doomed}
use blobyard_core.Sqlite.Lifecycle.Completion.{IsFinished, finish_lem, finish-finish}
use blobyard_core.Sqlite.Lifecycle.Finishing.{finish_total, CanLog, RunCovers}
use blobyard_core.Sqlite.Lifecycle.Remaining.{finish-download_by_capability, finish-IsConsistent}
use blobyard_core.Sqlite.Lifecycle.Again.{begin_object_deletion-begin_object_deletion}
use blobyard_core.Sqlite.Lifecycle.Deleting.{is_requested_version}
use blobyard_core.Sqlite.Lifecycle.Deletion.{begin_object_deletion-finish}
use blobyard_core.Sqlite.Lifecycle.Numbering.{begin_object_deletion-next_version}
use blobyard_core.Sqlite.Transfers.Steps.{start, onward, reserving}
use blobyard_core.Base.{
  ◌++◌, ◌↔◌, ◌<◌, ◌≡◌, refl, inl, inr, true, false, not, ◌&&◌, none, some, [], ◌∷◌, arith,
  Bool-cases, any, keep, All, Str, lit, str_eq, str_eq_iff, ok,
}

unfoldable pub lifecycle_runs : Unit {0}
unfolding transfer_runs download_by_capability validate_metadata validate_audit insert_event
    validate_deletion selected_versions pending_operation completed_operation operation_items
    deletion_plan insert_operation insert_item insert_items begin_new begin begin_object_deletion
    validate_finished delete_grants delete_reservations delete_versions delete_version delete_each
    delete_aborted_target delete_selected_metadata complete_run finish_pending finish
lifecycle_runs = tt

abbrev pub upload_b : Str
upload_b = lit "upload-b"

abbrev pub other_version : ObjectVersionRecord
other_version = record done_version {
  id = upload_b;
  object_path = lit "site/other.html";
  storage_key = lit "key/b";
  created_at_ms = 1500;
}

abbrev other_row : ReservationRow
other_row = record done_row { id = upload_b; version_id = upload_b; capability_hash = other_digest }

abbrev grant_of : Str → Str → DownloadRow
grant_of capability id = record {
  capability_hash = capability;
  version_id = id;
  expires_at_ms = 9000;
}

abbrev pub two_objects : Database
two_objects = record {
  projects = lit "project" ∷ [];
  versions = done_version ∷ other_version ∷ [];
  reservations = done_row ∷ other_row ∷ [];
  parts = [];
  downloads = grant_of digest upload_a ∷ grant_of other_digest upload_b ∷ [];
  deleted = [];
}

abbrev pub two_shared : ShareDatabase
two_shared = record {
  uploads = two_objects;
  workspaces = (lit "project", lit "workspace") ∷ [];
  shares = [];
  events = [];
}

abbrev pub idle : LifecycleDatabase
idle = record { stored = two_shared; operations = []; items = []; policies = []; runs = [] }

abbrev deletion : NewObjectDeletion
deletion = record {
  id = lit "deletion";
  target = record {
    project_id = lit "project";
    object_path = lit "site/index.html";
    version = none;
  };
  actor = lit "operator";
  request_id = lit "request";
  created_at_ms = 3000;
}

abbrev waiting_row : OperationRow
waiting_row = deletion_row deletion (record { selected_version = none; created_at_ms = 3000 })

abbrev begun : LifecycleDatabase
begun = record idle {
  stored = record two_shared {
    uploads = record two_objects { deleted = deleted_version waiting_row done_version ∷ [] };
  };
  operations = waiting_row ∷ [];
  items = item_of (lit "deletion") done_version ∷ [];
}

abbrev plan_a : DeletionPlan
plan_a = record {
  id = lit "deletion";
  items =
      record { version_id = upload_a; storage_key = done_version.storage_key; version = 1 } ∷ [];
  complete = false;
  actor = lit "operator";
  request_id = lit "request";
}

abbrev pub ended_event : Str → NewAuditEvent
ended_event action = record {
  id = lit "event-1";
  workspace_id = lit "workspace";
  actor = lit "operator";
  action = action;
  request_id = lit "request";
  target_type = lit "object";
  metadata = [];
  created_at_ms = 4000;
}

abbrev deleted_event : NewAuditEvent
deleted_event = ended_event (lit "object.deleted")

abbrev done : LifecycleDatabase
done = record begun {
  stored = record two_shared {
    uploads = record two_objects {
      versions = other_version ∷ [];
      reservations = other_row ∷ [];
      downloads = grant_of other_digest upload_b ∷ [];
      deleted = deleted_version waiting_row done_version ∷ [];
    };
    events = deleted_event ∷ [];
  };
  operations = finished_row 4000 waiting_row ∷ [];
}

run_begin : begin_object_deletion deletion idle ≡ ok (plan_a, begun)
unfolding lifecycle_runs
run_begin = refl

finishing_run : finish (lit "deletion") 4000 deleted_event begun ≡ ok done
unfolding lifecycle_runs
finishing_run = refl

IsUnique-versions : IsUnique version_key two_objects.versions
unfolding lifecycle_runs IsUnique
IsUnique-versions = (refl, (refl, tt))

IsUnique-reservations : IsUnique reservation_key two_objects.reservations
unfolding lifecycle_runs IsUnique
IsUnique-reservations = (refl, (refl, tt))

nothing_waits : pending_operation deletion.target none idle ≡ none
unfolding lifecycle_runs
nothing_waits = refl

some_requested : any (is_requested_version deletion) two_objects.versions ≡ true
unfolding lifecycle_runs
some_requested = refl

begin_object_deletion-finish_example :
    done.stored.uploads.versions
    ≡ keep (λ w. not (is_requested_version deletion w)) two_objects.versions
begin_object_deletion-finish_example =
    begin_object_deletion-finish deletion 4000 deleted_event idle begun done plan_a run_begin
      nothing_waits refl IsUnique-versions some_requested finishing_run

waits : find_operation (lit "deletion") begun ≡ some waiting_row
unfolding lifecycle_runs
waits = refl

finish_lem_example : IsFinished 4000 deleted_event waiting_row begun done
finish_lem_example =
    finish_lem (lit "deletion") 4000 deleted_event waiting_row begun done waits refl finishing_run

finish-finish_example : finish (lit "deletion") 5000 (ended_event (lit "other")) done ≡ ok done
finish-finish_example =
    finish-finish (lit "deletion") 4000 5000 deleted_event (ended_event (lit "other")) begun done
      finishing_run

fits : validate_finished waiting_row deleted_event begun ≡ ok tt
unfolding lifecycle_runs
fits = refl

can_log : CanLog deleted_event begun
unfolding lifecycle_runs
can_log = (refl, omega arith, refl)

covered : RunCovers waiting_row begun
unfolding lifecycle_runs
covered = refl

finish_total_example :
    ((db : LifecycleDatabase) × (finish (lit "deletion") 4000 deleted_event begun ≡ ok db)) ↔ (
      (validate_finished waiting_row deleted_event begun ≡ ok tt)
      × CanLog deleted_event begun
      × RunCovers waiting_row begun)
finish_total_example = finish_total (lit "deletion") 4000 deleted_event waiting_row begun waits refl

finished_somehow :
    (db : LifecycleDatabase) × (finish (lit "deletion") 4000 deleted_event begun ≡ ok db)
finished_somehow =
    (finish_total (lit "deletion") 4000 deleted_event waiting_row begun waits refl).1
      (fits, can_log, covered)

abbrev second_request : NewObjectDeletion
second_request = record deletion { id = lit "again"; actor = lit "other"; created_at_ms = 3500 }

checked_again :
    validate_deletion second_request ≡ ok (record { selected_version = none; created_at_ms = 3500 })
unfolding lifecycle_runs
checked_again = refl

begin_object_deletion-begin_object_deletion_example :
    begin_object_deletion second_request begun ≡ ok (plan_a, begun)
begin_object_deletion-begin_object_deletion_example =
    begin_object_deletion-begin_object_deletion deletion second_request
      (record { selected_version = none; created_at_ms = 3500 }) idle begun plan_a run_begin refl
      checked_again

abbrev object_b : StoredObjectRecord
object_b = stored_object other_version other_row

finish-download_by_capability_example :
    (download_by_capability other_digest 4500 done.stored.uploads ≡ ok object_b
      → is_doomed waiting_row begun.items object_b.version ≡ false)
    × (download_by_capability other_digest 4500 begun.stored.uploads ≡ ok object_b
        → names_doomed waiting_row begun.items begun.stored.uploads.versions object_b.version.id
          ≡ false
        → download_by_capability other_digest 4500 done.stored.uploads ≡ ok object_b)
finish-download_by_capability_example =
    finish-download_by_capability (lit "deletion") 4000 deleted_event waiting_row begun done
      other_digest 4500 object_b waits refl finishing_run

IsLinked-a : IsLinked upload_a begun.stored.uploads done_row
unfolding lifecycle_runs
IsLinked-a = record {
  own = refl;
  version = done_version;
  found = refl;
  agrees = (refl, refl, refl);
}

IsLinked-b : IsLinked upload_b begun.stored.uploads other_row
unfolding lifecycle_runs
IsLinked-b = record {
  own = refl;
  version = other_version;
  found = refl;
  agrees = (refl, refl, refl);
}

-- The row of an identifier is linked, given the row that has been found.
IsLinked-of_row :
    (k id : Str) (row r : ReservationRow)
    → str_eq k id ≡ true
    → some row ≡ some r
    → IsLinked k begun.stored.uploads row
    → IsLinked id begun.stored.uploads r
IsLinked-of_row k id row r own found linked =
    let row' : row ≡ r = cc in
    subst (λ j. IsLinked j begun.stored.uploads r) ((str_eq_iff k id).0 own)
      (subst (λ x. IsLinked k begun.stored.uploads x) row' linked)

consistent : IsConsistent begun.stored.uploads
unfolding lifecycle_runs
consistent id r found = elim (Bool-cases (str_eq upload_a id)) [
  | inl own ↦ IsLinked-of_row upload_a id done_row r own (rw own at found) IsLinked-a
  | inr apart ↦ elim (Bool-cases (str_eq upload_b id)) [
    | inl own ↦ IsLinked-of_row upload_b id other_row r own (rw (apart, own) at found) IsLinked-b
    | inr neither ↦ absurd (let bad : none ≡ some r = rw (apart, neither) at found in cc)
  ]
]

finish-IsConsistent_example : IsConsistent done.stored.uploads
finish-IsConsistent_example =
    finish-IsConsistent (lit "deletion") 4000 deleted_event waiting_row begun done waits refl
      finishing_run IsUnique-reservations consistent

abbrev next_upload : NewUploadReservation
next_upload = record first { id = lit "upload-c" }

counted : next_version next_upload done.stored.uploads ≡ ok 2
unfolding lifecycle_runs
counted = refl

abbrev next_row : ReservationRow
next_row =
    new_reservation_row next_upload
      (record { expected_size = 5; expires_at_ms = 2000; created_at_ms = 1000; part_size = none })

abbrev later : Database
later = record done.stored.uploads {
  versions = done.stored.uploads.versions ++ new_version_row next_upload 2 1000 ∷ [];
  reservations = done.stored.uploads.reservations ++ next_row ∷ [];
}

run_next :
    reserve next_upload done.stored.uploads
    ≡ ok (reservation_record next_row (new_version_row next_upload 2 1000), later)
unfolding lifecycle_runs
run_next = refl

counted_again : next_version next_upload later ≡ ok 3
unfolding lifecycle_runs
counted_again = refl

begin_object_deletion-next_version_example :
    All
      (λ (v : ObjectVersionRecord).
        (is_requested_version deletion v && is_complete v.state) ≡ true → v.version < 3)
      two_objects.versions
begin_object_deletion-next_version_example =
    begin_object_deletion-next_version deletion 4000 deleted_event next_upload 3 idle begun done
      plan_a later run_begin nothing_waits some_requested finishing_run refl refl
      (onward start (
        reserving next_upload (reservation_record next_row (new_version_row next_upload 2 1000))
          run_next))
      counted_again
