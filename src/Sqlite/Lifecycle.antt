-- ===== src/Sqlite/Lifecycle.antt =====
-- The deletion of objects: `crates/blobyard-repository-sqlite/src/lifecycle_deletion.rs` and
-- `lifecycle_operation.rs`. A statement that deletes versions or reservations follows the foreign
-- keys: parts and grants go with their row, a share loses its version, and a version that a
-- reservation names cannot go.
mod Tables
pub mod Finish
pub mod Purge
pub mod Doomed
pub mod Completion
pub mod Finishing
pub mod Remaining
pub mod Planning
pub mod Again
pub mod Deleting
pub mod Deletion
pub mod Numbering
pub mod Policies
pub mod Runs
pub mod Enforcing
pub mod Enforced
pub mod Renumbered
pub mod Waiting
pub mod Guarded
pub mod Tests
pub mod RunTests
pub use Tables.*
use mathlib.Core.Option
use blobyard_core.Contract.{
  Repo, not_found, conflict, invalid_input, ObjectVersionRecord, UploadState, is_complete,
  is_pending,
}
use blobyard_core.Sqlite.Database.{
  ReservationRow, PartRow, DownloadRow, DeletedVersion, Database, to_i64, optional_i64,
  validate_text, validate_texts,
}
use blobyard_core.Sqlite.Table.{find_row, update_row, insert_row}
use blobyard_core.Sqlite.Transfers.{text_in}
use blobyard_core.Sqlite.Sharing.{ShareRow, ShareDatabase, workspace_of}
use blobyard_core.Sqlite.Sharing.Audit.{NewAuditEvent, insert_event}
use blobyard_core.Base.{
  ℕ, zero, suc, ◌+◌, ◌-◌, ◌*◌, ◌/◌, ◌%◌, ◌^◌, ◌≤◌, ◌<◌, min, max, ◌≡◌, refl, sym, ap, ◌∙◌, ◌≡⟨◌⟩◌,
  ◌∎, ◌≢◌, ◌↔◌, ◌⊎◌, inl, inr, Bool, true, false, not, ◌&&◌, ◌||◌, Option, none, some, List, [],
  ◌∷◌, ◌++◌, map, reverse, reverse-cons, arith, ltb, leb, ◌==◌, if◌then◌else◌, ltb→lt, lt→ltb,
  leb→le, le→leb, ==_iff, tests, Bool-cases, Option-cases, length, is_empty, get_elem?, take, drop,
  all, any, keep, find?, place_by, order_by, length-append, All, Any, drop_elem, drop_end,
  get_elem?-lt, get_elem?-end, plus_one, plus_two, Str, lit, str_eq, str_eq_iff, str_eq_refl,
  str_lt, add_first, split, strip_prefix, is_digit, is_lower, is_upper, is_alphabetic,
  is_alphanumeric, Result, ok_or, ◌>>=◌, ◌>>◌, guard, ok-injective, guard-eq-ok, ok_or-eq-ok,
  >>=-eq-ok, >>-eq-ok, chars, is_control, is_whitespace, has_control, is_utf8, contains, set_insert,
  to_set, sort, lookup, has_key, contains-append, contains-reverse, contains-set_insert,
  contains-to_set, contains-sort, has_key_iff, has_key_of_lookup, has_key_of_none, first_is,
  last_is, split_once, rsplit_once, strip_suffix, starts_with, ends_with, is_some_and, is_none_or,
  one_of, ok, err, text_runs,
}

abbrev pub find_operation : Str → LifecycleDatabase → Option OperationRow
find_operation id db = find_row operation_key id db.operations

pub record ValidatedDeletion : Type 0 where
  pub selected_version : Option ℕ
  pub created_at_ms : ℕ

abbrev pub is_zero : Option ℕ → Bool
is_zero none = false
is_zero (some n) = n == 0

unfoldable pub validate_deletion : NewObjectDeletion → Repo ValidatedDeletion
validate_deletion value = do
  validate_texts (
      value.id ∷ value.target.project_id ∷ value.target.object_path ∷ value.actor ∷ value.request_id
      ∷ [])
  guard (not (is_zero value.target.version)) invalid_input
  selected ← optional_i64 value.target.version
  created ← to_i64 value.created_at_ms
  ok (record { selected_version = selected; created_at_ms = created })

-- `?3 IS NULL OR version = ?3`.
abbrev pub selects : Option ℕ → ℕ → Bool
selects none version = true
selects (some n) version = version == n

abbrev pub at_target : Str → Str → Option ℕ → ObjectVersionRecord → Bool
at_target project path selected v =
    str_eq v.project_id project && str_eq v.object_path path && selects selected v.version

unfoldable pub selected_versions :
    ObjectDeletionTarget → Option ℕ → LifecycleDatabase → List ObjectVersionRecord
selected_versions target selected db =
    order_by (λ (v : ObjectVersionRecord) (w : ObjectVersionRecord). ltb v.version w.version)
      (keep (at_target target.project_id target.object_path selected) db.stored.uploads.versions)

abbrev pub same_selection : Option ℕ → Option ℕ → Bool
same_selection none none = true
same_selection (some m) (some n) = m == n
same_selection _ _ = false

-- The condition of both queries of `target_operation`.
abbrev pub is_target_operation : ObjectDeletionTarget → Option ℕ → Bool → OperationRow → Bool
is_target_operation target selected done o =
    str_eq o.project_id target.project_id
    && str_eq o.object_path target.object_path
    && is_object_delete o.reason
    && (if done then is_done o.status else not (is_done o.status))
    && same_selection o.selected_version selected

-- At most one pending operation has a target, by the unique indexes: the first row is the row.
unfoldable pub pending_operation :
    ObjectDeletionTarget → Option ℕ → LifecycleDatabase → Option OperationRow
pending_operation target selected db =
    find? (is_target_operation target selected false) db.operations

abbrev pub time_or_zero : Option ℕ → ℕ
time_or_zero none = 0
time_or_zero (some t) = t

-- `ORDER BY completed_at_ms DESC, id DESC`.
abbrev pub later_done : OperationRow → OperationRow → Bool
later_done o p =
    ltb (time_or_zero p.completed_at_ms) (time_or_zero o.completed_at_ms)
    || (time_or_zero p.completed_at_ms == time_or_zero o.completed_at_ms && str_lt p.id o.id)

unfoldable pub completed_operation :
    ObjectDeletionTarget → Option ℕ → LifecycleDatabase → Option OperationRow
completed_operation target selected db =
    get_elem? (order_by later_done (keep (is_target_operation target selected true) db.operations))
      0

-- `item_row`.
abbrev pub deletion_item : ItemRow → DeletionItem
deletion_item i = record {
  version_id = i.version_id;
  storage_key = i.storage_key;
  version = i.version;
}

-- The items of an operation, `ORDER BY version_id`.
unfoldable pub operation_items : Str → List ItemRow → List ItemRow
operation_items id items =
    order_by (λ (i : ItemRow) (j : ItemRow). str_lt i.version_id j.version_id)
      (keep (λ (i : ItemRow). str_eq i.operation_id id) items)

unfoldable pub deletion_plan : Str → LifecycleDatabase → Repo DeletionPlan
deletion_plan id db = do
  operation ← ok_or (find_operation id db) not_found
  ok (record {
    id = id;
    items = map deletion_item (operation_items id db.items);
    complete = is_done operation.status;
    actor = operation.actor;
    request_id = operation.request_id;
  })

-- The project is a foreign key, and a target has one pending operation.
unfoldable pub insert_operation : OperationRow → Bool → LifecycleDatabase → Repo LifecycleDatabase
insert_operation row taken db = do
  guard (text_in row.project_id db.stored.uploads.projects && not taken) conflict
  rows ← ok_or (insert_row operation_key row db.operations) conflict
  ok (record db { operations = rows })

abbrev pub deletion_row : NewObjectDeletion → ValidatedDeletion → OperationRow
deletion_row value validated = record {
  id = value.id;
  project_id = value.target.project_id;
  object_path = value.target.object_path;
  selected_version = validated.selected_version;
  reason = object_delete;
  status = OperationStatus.pending;
  actor = value.actor;
  request_id = value.request_id;
  created_at_ms = validated.created_at_ms;
  completed_at_ms = none;
}

abbrev pub item_of : Str → ObjectVersionRecord → ItemRow
item_of operation v = record {
  operation_id = operation;
  version_id = v.id;
  storage_key = v.storage_key;
  version = v.version;
}

abbrev pub deleted_version : OperationRow → ObjectVersionRecord → DeletedVersion
deleted_version operation v = record {
  project_id = operation.project_id;
  object_path = operation.object_path;
  version = v.version;
}

abbrev pub add_item : OperationRow → ObjectVersionRecord → LifecycleDatabase → LifecycleDatabase
add_item operation v db = record db {
  stored = record db.stored {
    uploads = record db.stored.uploads {
      deleted = db.stored.uploads.deleted ++ deleted_version operation v ∷ [];
    };
  };
  items = db.items ++ item_of operation.id v ∷ [];
}

-- With the primary key of both identifiers and the check of the version.
unfoldable pub insert_item :
    OperationRow → ObjectVersionRecord → LifecycleDatabase → Repo LifecycleDatabase
insert_item operation v db =
    guard
      (ltb 0 v.version
        && not (
            any (λ (i : ItemRow). str_eq i.operation_id operation.id && str_eq i.version_id v.id)
              db.items))
      conflict
    >> ok (add_item operation v db)

unfoldable pub insert_items :
    OperationRow → List ObjectVersionRecord → LifecycleDatabase → Repo LifecycleDatabase
insert_items operation [] db = ok db
insert_items operation (v ∷ versions) db =
    insert_item operation v db >>= insert_items operation versions

abbrev pub planned_again :
    OperationRow → LifecycleDatabase → Repo (DeletionPlan × LifecycleDatabase)
planned_again operation db = deletion_plan operation.id db >>= λ plan. ok (plan, db)

-- The last deletion of a target that has no versions.
abbrev pub done_before :
    ObjectDeletionTarget → Option ℕ → LifecycleDatabase → Repo (DeletionPlan × LifecycleDatabase)
done_before target selected db =
    ok_or (completed_operation target selected db) not_found >>= λ operation.
    planned_again operation db

-- `begin` where no operation of the target is pending.
unfoldable pub begin_new :
    NewObjectDeletion
    → ValidatedDeletion
    → List ObjectVersionRecord
    → LifecycleDatabase
    → Repo (DeletionPlan × LifecycleDatabase)
begin_new value validated [] db = done_before value.target validated.selected_version db
begin_new value validated versions db = do
  guard (not (any (λ (v : ObjectVersionRecord). is_pending v.state) versions)) conflict
  with_operation ←
      insert_operation (deletion_row value validated)
        (any (is_target_operation value.target validated.selected_version false) db.operations) db
  with_items ←
      insert_items (deletion_row value validated)
        (keep (λ (v : ObjectVersionRecord). is_complete v.state) versions) with_operation
  plan ← deletion_plan value.id with_items
  ok (plan, with_items)

abbrev pub begin_at :
    Option OperationRow
    → NewObjectDeletion
    → ValidatedDeletion
    → LifecycleDatabase
    → Repo (DeletionPlan × LifecycleDatabase)
begin_at (some operation) value validated db = planned_again operation db
begin_at none value validated db =
    begin_new value validated (selected_versions value.target validated.selected_version db) db

unfoldable pub begin :
    NewObjectDeletion
    → ValidatedDeletion
    → LifecycleDatabase
    → Repo (DeletionPlan × LifecycleDatabase)
begin value validated db =
    begin_at (pending_operation value.target validated.selected_version db) value validated db

unfoldable pub begin_object_deletion :
    NewObjectDeletion → LifecycleDatabase → Repo (DeletionPlan × LifecycleDatabase)
begin_object_deletion value db = validate_deletion value >>= λ validated. begin value validated db
