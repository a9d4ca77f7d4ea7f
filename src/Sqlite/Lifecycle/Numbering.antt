-- ===== src/Sqlite/Lifecycle/Numbering.antt =====
-- The number of a version that follows a deletion: `next_version` of
-- `crates/blobyard-repository-sqlite/src/transfer_reservations.rs` after `begin` and `finish` of
-- `lifecycle_deletion.rs`.
use blobyard_core.Contract.{ObjectVersionRecord, NewUploadReservation, is_complete}
use blobyard_core.Sqlite.Database.{Database, DeletedVersion}
use blobyard_core.Sqlite.Transfers.{next_version}
use blobyard_core.Sqlite.Transfers.Steps.{Run}
use blobyard_core.Sqlite.Transfers.Deleted.{Run-deleted}
use blobyard_core.Sqlite.Transfers.Versions.{next_version-IsNewest}
use blobyard_core.Sqlite.Sharing.Audit.{NewAuditEvent}
use blobyard_core.Sqlite.Lifecycle.{
  NewObjectDeletion, DeletionPlan, OperationRow, LifecycleDatabase, find_operation, at_target,
  pending_operation, deletion_row, deleted_version, begin_object_deletion, is_done,
}
use blobyard_core.Sqlite.Lifecycle.Finish.{finish}
use blobyard_core.Sqlite.Lifecycle.Purge.{purge}
use blobyard_core.Sqlite.Lifecycle.Completion.{purged, finish_lem}
use blobyard_core.Sqlite.Lifecycle.Deleting.{
  is_requested_version, any_selected, begun_operation, begin_object_deletion-new,
}
use blobyard_core.Base.{
  ℕ, ◌<◌, ◌≡◌, refl, sym, ap, ◌∙◌, Bool, true, false, not, ◌&&◌, none, some, arith, ltb, lt→ltb,
  any, keep, any-keep, All, All-map, All-of_any, any_of_All, All-of_append_map, Str, ok,
}

purged_deleted :
    (o : OperationRow) (db : LifecycleDatabase)
    → (purged o db).uploads.deleted ≡ db.stored.uploads.deleted
unfolding purge
purged_deleted o db = refl

pub finish-deleted :
    (id : Str) (at : ℕ) (event : NewAuditEvent) (o : OperationRow) (db db' : LifecycleDatabase)
    → find_operation id db ≡ some o
    → is_done o.status ≡ false
    → finish id at event db ≡ ok db'
    → db'.stored.uploads.deleted ≡ db.stored.uploads.deleted
finish-deleted id at event o db db' row open_now h =
    ap (λ (d : Database). d.deleted) (finish_lem id at event o db db' row open_now h).uploads
    ∙ purged_deleted o db

number_below :
    (a c : Bool) (x n : ℕ) → (a && (c && not (ltb x n))) ≡ false → (a && c) ≡ true → x < n
number_below a c x n apart chosen = ground arith

-- After a deletion that is begun where no other waits for its target, and then finished, the number
-- of a new version of the object is above that of every complete version which the deletion was
-- for, also after any sequence of the operations on uploads, parts and downloads. Nothing is said of
-- the aborted versions that the deletion removes, of which no record stays, nor of what comes after
-- further deletions or retentions.
pub begin_object_deletion-next_version :
    (value : NewObjectDeletion) (at : ℕ) (event : NewAuditEvent) (upload : NewUploadReservation)
    (n : ℕ) (db db' db'' : LifecycleDatabase) (plan : DeletionPlan) (later : Database)
    → begin_object_deletion value db ≡ ok (plan, db')
    → pending_operation value.target value.target.version db ≡ none
    → any (is_requested_version value) db.stored.uploads.versions ≡ true
    → finish plan.id at event db' ≡ ok db''
    → upload.project_id ≡ value.target.project_id
    → upload.object_path ≡ value.target.object_path
    → Run db''.stored.uploads later
    → next_version upload later ≡ ok n
    → All
        (λ (v : ObjectVersionRecord).
          (is_requested_version value v && is_complete v.state) ≡ true → v.version < n)
        db.stored.uploads.versions
begin_object_deletion-next_version value at event upload n db db' db'' plan later h absent
      some_there ended project path between counted =
    let (validated, versions, selected, found, b, named) =
      begin_object_deletion-new value db db' plan h absent some_there in
    let row = deletion_row value validated in
    let complete_ones = λ (v : ObjectVersionRecord). is_complete v.state in
    let below = λ (v : ObjectVersionRecord). ltb v.version n in
    let deleted =
      Run-deleted db''.stored.uploads later between
      ∙ finish-deleted value.id at event row db' db''
          (begun_operation value validated versions db db' plan b) refl
          (ap (λ k. finish k at event db') (sym named) ∙ ended)
      ∙ b.deleted in
    let newest = (next_version-IsNewest upload later n counted).1 in
    let chosen =
      All-of_append_map
        (λ (d : DeletedVersion).
          d.project_id ≡ upload.project_id → d.object_path ≡ upload.object_path → d.version < n)
        (deleted_version row) db.stored.uploads.deleted (keep complete_ones versions)
        (rw deleted at newest) in
    let none_above : any (λ (v : ObjectVersionRecord). not (below v)) (keep complete_ones versions)
        ≡ false =
      any_of_All (λ (v : ObjectVersionRecord). not (below v)) (keep complete_ones versions)
        (All-map (keep complete_ones versions)
          (λ v less. ap not (lt→ltb v.version n (less (sym project) (sym path)))) chosen) in
    let in_table : any
          (λ (v : ObjectVersionRecord).
            is_requested_version value v && (is_complete v.state && not (below v)))
          db.stored.uploads.versions
        ≡ false =
      (λ i.
        any
          (λ (v : ObjectVersionRecord).
            at_target value.target.project_id value.target.object_path (sym selected i) v
            && (is_complete v.state && not (below v)))
          db.stored.uploads.versions)
      ∙ sym (
          any_selected (λ (v : ObjectVersionRecord). is_complete v.state && not (below v))
            value.target validated.selected_version db)
      ∙ ap (any (λ (v : ObjectVersionRecord). is_complete v.state && not (below v))) found
      ∙ sym (any-keep (λ (v : ObjectVersionRecord). not (below v)) complete_ones versions)
      ∙ none_above in
    All-map db.stored.uploads.versions
      (λ v apart chosen_v.
        number_below (is_requested_version value v) (is_complete v.state) v.version n apart
          chosen_v)
      (All-of_any
        (λ (v : ObjectVersionRecord).
          is_requested_version value v && (is_complete v.state && not (below v)))
        db.stored.uploads.versions in_table)
