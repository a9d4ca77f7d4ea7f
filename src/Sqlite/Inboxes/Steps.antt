-- ===== src/Sqlite/Inboxes/Steps.antt =====
-- Every sequence of inbox operations: `crates/blobyard-repository-sqlite/src/inboxes.rs`,
-- `inbox_uploads.rs`, and the arrival of an upload's bytes in `transfers.rs`.
use blobyard_core.Contract.{
  conflict, invalid_input, NewUploadReservation, UploadReservationRecord, ObjectVersionRecord,
  is_requested,
}
use blobyard_core.Sqlite.Database.{Database, to_i64, validate_upload_integrity}
use blobyard_core.Sqlite.Transfers.{reservation_by_id, record_uploaded_bytes, received}
use blobyard_core.Sqlite.Sharing.Audit.{NewAuditEvent}
use blobyard_core.Sqlite.Inboxes.{
  NewInbox, InboxRecord, NewInboxUpload, InboxDatabase, create_inbox, revoke_inbox,
}
use blobyard_core.Sqlite.Inboxes.Uploads.{
  reserve_inbox_upload, complete_inbox_upload, abort_inbox_upload,
}
use blobyard_core.Sqlite.Inboxes.Ledger.{IsLedger}
use blobyard_core.Sqlite.Inboxes.Keeping.{KeepsSizes, KeepsSizes-update}
use blobyard_core.Sqlite.Inboxes.Owning.{create_inbox-IsLedger, revoke_inbox-IsLedger}
use blobyard_core.Sqlite.Inboxes.Reserving.{reserve_inbox_upload-IsLedger}
use blobyard_core.Sqlite.Inboxes.Ending.{
  complete_inbox_upload-IsLedger, abort_inbox_upload-IsLedger,
}
use blobyard_core.Base.{
  ℕ, ◌≡◌, refl, ◌∙◌, Bool, ◌&&◌, ◌==◌, Str, str_eq, guard, >>=-eq-ok, >>-eq-ok, ok,
}

abbrev pub with_uploads : Database → InboxDatabase → InboxDatabase
with_uploads uploads db = record db { stored = record db.stored { uploads = uploads } }

-- One successful operation. Those that only read change nothing and are left out.
pub data Step (db : InboxDatabase) : InboxDatabase → Type 0 where
  creating :
      {db' : InboxDatabase} (inbox : NewInbox) (event : NewAuditEvent) (i : InboxRecord)
      → create_inbox inbox event db ≡ ok (i, db')
      → Step db db'
  reserving :
      {db' : InboxDatabase} (upload : NewInboxUpload) (value : NewUploadReservation)
      (u : UploadReservationRecord)
      → reserve_inbox_upload upload value db ≡ ok (u, db')
      → Step db db'
  receiving :
      (id : Str) (size : ℕ) (checksum : Str) (uploads : Database)
      → record_uploaded_bytes id size checksum db.stored.uploads ≡ ok uploads
      → Step db (with_uploads uploads db)
  completing :
      {db' : InboxDatabase} (capability id : Str) (now_ms : ℕ) (event : NewAuditEvent)
      (v : ObjectVersionRecord)
      → complete_inbox_upload capability id now_ms event db ≡ ok (v, db')
      → Step db db'
  aborting :
      {db' : InboxDatabase} (capability id : Str) (now_ms : ℕ) (u : UploadReservationRecord)
      → abort_inbox_upload capability id now_ms db ≡ ok (u, db')
      → Step db db'
  revoking :
      {db' : InboxDatabase} (id workspace : Str) (at_ms : ℕ) (event : NewAuditEvent)
      (changed : Bool)
      → revoke_inbox id workspace at_ms event db ≡ ok (changed, db')
      → Step db db'

pub data Run (db : InboxDatabase) : InboxDatabase → Type 0 where
  start : Run db db
  onward : {middle db' : InboxDatabase} → Run db middle → Step middle db' → Run db db'

record_uploaded_bytes-KeepsSizes :
    (id : Str) (size : ℕ) (checksum : Str) (db db' : Database)
    → record_uploaded_bytes id size checksum db ≡ ok db'
    → KeepsSizes db db'
unfolding record_uploaded_bytes
record_uploaded_bytes-KeepsSizes id size checksum db db' h =
    let (_, h1) = >>-eq-ok (validate_upload_integrity id checksum) _ h in
    let (n, _, h2) = >>=-eq-ok (to_i64 size) _ h1 in
    let (current, _, h3) = >>=-eq-ok (reservation_by_id id db) _ h2 in
    let (_, h4) =
      >>-eq-ok
        (guard (current.expected_size == size && str_eq current.expected_checksum checksum)
          invalid_input)
        _ h3 in
    let (_, h5) = >>-eq-ok (guard (is_requested current.state) conflict) _ h4 in
    KeepsSizes-update id (λ r. is_requested r.state) (received n checksum) db db' (λ r. refl)
      (λ r. refl) h5

Step-IsLedger : {db db' : InboxDatabase} → Step db db' → IsLedger db → IsLedger db'
Step-IsLedger {db} {db'} (creating inbox event i h) inv =
    create_inbox-IsLedger inbox event db db' i h inv
Step-IsLedger {db} {db'} (reserving upload value u h) inv =
    reserve_inbox_upload-IsLedger upload value db db' u h inv
Step-IsLedger {db} (receiving id size checksum uploads h) inv = record {
  balanced = inv.balanced;
  backed = λ k l found.
      let (r, row, sized) = inv.backed k l found in
      let (r', row', sized') =
        record_uploaded_bytes-KeepsSizes id size checksum db.stored.uploads uploads h k r row in
      (r', row', sized' ∙ sized);
  owned = inv.owned;
}
Step-IsLedger {db} {db'} (completing capability id now_ms event v h) inv =
    complete_inbox_upload-IsLedger capability id now_ms event db db' v h inv
Step-IsLedger {db} {db'} (aborting capability id now_ms u h) inv =
    abort_inbox_upload-IsLedger capability id now_ms db db' u h inv
Step-IsLedger {db} {db'} (revoking id workspace at_ms event changed h) inv =
    revoke_inbox-IsLedger id workspace at_ms event db db' changed h inv

-- From a database in which it is so, no sequence of inbox operations leads to one in which the
-- counters of an inbox are not the numbers and the sizes of its reserved and of its complete
-- uploads, or are together above the maximum of the inbox.
pub Run-IsLedger : {db db' : InboxDatabase} → Run db db' → IsLedger db → IsLedger db'
Run-IsLedger start inv = inv
Run-IsLedger (onward before step) inv = Step-IsLedger step (Run-IsLedger before inv)
