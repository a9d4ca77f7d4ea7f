-- ===== src/Sqlite/Inboxes/Uploads.antt =====
-- Uploads into an inbox and its capacity: `crates/blobyard-repository-sqlite/src/inbox_uploads.rs`.
use blobyard_core.Contract.{
  Repo, not_found, conflict, invalid_input, ObjectVersionRecord, NewUploadReservation,
  UploadReservationRecord, checksum_valid, is_inbox, is_uploaded,
}
use blobyard_core.Sqlite.Database.{
  Database, to_i64, validate_text, validate_reservation, ValidatedReservation, changed_once,
}
use blobyard_core.Sqlite.Table.{update_row, insert_row}
use blobyard_core.Sqlite.Transfers.{
  find_version, reservation_by_id, ensure_project, next_version, insert_version, insert_reservation,
  update_reservation, update_version, completed, completed_version, is_open, same_state,
  aborted_row, aborted_version, without_parts,
}
use blobyard_core.Sqlite.Sharing.{validate_capability}
use blobyard_core.Sqlite.Sharing.Audit.{NewAuditEvent, AuditValue, number, text_value, insert_event}
use blobyard_core.Sqlite.Inboxes.{
  InboxRow, InboxRecord, NewInboxUpload, LinkRow, LinkStatus, InboxDatabase, inbox_key, link_key,
  is_open_inbox, is_reserved, find_link, active_by_capability, upload_of,
}
use blobyard_core.Base.{
  ℕ, ◌+◌, ◌-◌, Bool, false, ◌&&◌, Option, none, some, List, [], ◌∷◌, ltb, leb, ◌==◌, Str, lit,
  str_eq, ok_or, ◌>>=◌, ◌>>◌, guard, is_some_and, ok,
}

unfoldable pub validate_scope : InboxRecord → NewUploadReservation → ℕ → Repo (Unit {0})
validate_scope inbox reservation now_ms =
    guard
      (is_open_inbox inbox.status
        && str_eq inbox.project_id reservation.project_id
        && is_inbox reservation.source
        && reservation.created_at_ms == now_ms
        && leb reservation.expires_at_ms inbox.expires_at_ms)
      invalid_input

abbrev pub has_room : ℕ → InboxRow → Bool
has_room size i =
    is_open_inbox i.status
    && ltb (i.current_files + i.reserved_files) i.maximum_files
    && leb (i.current_bytes + i.reserved_bytes + size) i.maximum_bytes

abbrev pub with_reserved : ℕ → InboxRow → InboxRow
with_reserved size i = record i {
  reserved_files = i.reserved_files + 1;
  reserved_bytes = i.reserved_bytes + size;
}

-- An update of one inbox, which must change it.
unfoldable pub update_inbox :
    Str → (InboxRow → Bool) → (InboxRow → InboxRow) → List InboxRow → Repo (List InboxRow)
update_inbox id test change rows =
    let updated = update_row inbox_key id test change rows in changed_once updated.0 >> ok updated.1

unfoldable pub reserve_capacity : Str → ℕ → List InboxRow → Repo (List InboxRow)
reserve_capacity id expected_size rows = do
  size ← to_i64 expected_size
  update_inbox id (has_room size) (with_reserved size) rows

abbrev pub holds : ℕ → InboxRow → Bool
holds size i = leb 1 i.reserved_files && leb size i.reserved_bytes

abbrev pub with_completed : ℕ → InboxRow → InboxRow
with_completed size i = record i {
  reserved_files = i.reserved_files - 1;
  reserved_bytes = i.reserved_bytes - size;
  current_files = i.current_files + 1;
  current_bytes = i.current_bytes + size;
}

unfoldable pub complete_capacity : Str → ℕ → List InboxRow → Repo (List InboxRow)
complete_capacity id expected_size rows = do
  size ← to_i64 expected_size
  update_inbox id (holds size) (with_completed size) rows

abbrev pub with_released : ℕ → InboxRow → InboxRow
with_released size i = record i {
  reserved_files = i.reserved_files - 1;
  reserved_bytes = i.reserved_bytes - size;
}

unfoldable pub release_capacity : Str → ℕ → List InboxRow → Repo (List InboxRow)
release_capacity id expected_size rows = do
  size ← to_i64 expected_size
  update_inbox id (holds size) (with_released size) rows

abbrev pub with_status : LinkStatus → LinkRow → LinkRow
with_status status l = record l { status = status }

unfoldable pub transition_link : Str → LinkStatus → List LinkRow → Repo (List LinkRow)
transition_link id status links =
    let updated = update_row link_key id (λ l. is_reserved l.status) (with_status status) links in
    changed_once updated.0 >> ok updated.1

abbrev pub new_link : NewInboxUpload → Str → Str → ℕ → ℕ → LinkRow
new_link upload inbox_id id size created = record {
  upload_id = id;
  inbox_id = inbox_id;
  fingerprint_hash = upload.fingerprint_hash;
  reserved_size = size;
  status = LinkStatus.reserved;
  created_at_ms = created;
}

-- The version and the reservation of an upload, in the tables of uploads.
unfoldable pub insert_upload :
    NewUploadReservation → ValidatedReservation → Database → Repo Database
insert_upload reservation validated db = do
  ensure_project reservation.project_id db
  version ← next_version reservation db
  with_version ← insert_version reservation version validated.created_at_ms db
  insert_reservation reservation validated with_version

-- The checks of `reserve`: the values, and the inbox of the capability.
unfoldable pub reservable :
    NewInboxUpload
    → NewUploadReservation
    → InboxDatabase
    → Repo (ValidatedReservation × InboxRecord)
reservable upload reservation db = do
  validated ← validate_reservation reservation
  validate_capability upload.capability_hash
  guard (checksum_valid upload.fingerprint_hash) invalid_input
  now ← to_i64 upload.now_ms
  inbox ← active_by_capability upload.capability_hash now db
  validate_scope inbox reservation upload.now_ms
  ok (validated, inbox)

-- The statements of `reserve`.
unfoldable pub write_reservation :
    NewInboxUpload
    → NewUploadReservation
    → ValidatedReservation
    → Str
    → InboxDatabase
    → Repo (UploadReservationRecord × InboxDatabase)
write_reservation upload reservation validated inbox_id db = do
  inboxes ← reserve_capacity inbox_id reservation.expected_size db.inboxes
  uploads ← insert_upload reservation validated db.stored.uploads
  links ←
      ok_or
        (insert_row link_key
          (new_link upload inbox_id reservation.id validated.expected_size validated.created_at_ms)
          db.links)
        conflict
  result ← reservation_by_id reservation.id uploads
  ok (
    result,
    record db { stored = record db.stored { uploads = uploads }; inboxes = inboxes; links = links },
  )

unfoldable pub reserve_inbox_upload :
    NewInboxUpload
    → NewUploadReservation
    → InboxDatabase
    → Repo (UploadReservationRecord × InboxDatabase)
reserve_inbox_upload upload reservation db = reservable upload reservation db >>= λ checked.
    write_reservation upload reservation checked.0 checked.1.id db

unfoldable pub inbox_reservation : Str → Str → ℕ → InboxDatabase → Repo UploadReservationRecord
inbox_reservation capability id now db = do
  reservation ← upload_of capability id now db
  guard (is_inbox reservation.version.source) not_found
  ok reservation

unfoldable pub reserved_inbox_id : Str → InboxDatabase → Repo Str
reserved_inbox_id id db = do
  link ← ok_or (find_link id db) not_found
  guard (is_reserved link.status) not_found
  ok link.inbox_id

abbrev number_value : AuditValue → Option ℕ
number_value (number n) = some n
number_value _ = none

abbrev upload_metadata : List (Str × AuditValue) → ℕ → Bool
upload_metadata ((key, size) ∷ (other, source) ∷ []) bytes =
    str_eq key (lit "byteSize")
    && is_some_and (number_value size) (λ n. n == bytes)
    && str_eq other (lit "source")
    && is_some_and (text_value source) (λ s. str_eq s (lit "inbox"))
upload_metadata _ bytes = false

unfoldable pub validate_upload_event : NewAuditEvent → Str → Str → ℕ → ℕ → Repo (Unit {0})
validate_upload_event event action inbox_id byte_size created_at_ms =
    guard
      (str_eq event.action action
        && str_eq event.target_type (lit "object_version")
        && str_eq event.actor inbox_id
        && event.created_at_ms == created_at_ms
        && upload_metadata event.metadata byte_size)
      invalid_input

-- The statements of `complete` on the tables of uploads.
unfoldable pub complete_rows : Str → UploadReservationRecord → Database → Repo Database
complete_rows id reservation db = do
  marked ← update_reservation id (λ r. is_uploaded r.state) completed db
  size ← to_i64 reservation.expected_size
  update_version reservation.version.id (completed_version size reservation.expected_checksum)
      marked

-- The checks of `complete`: the upload, and the inbox that it is reserved in.
unfoldable pub completable :
    Str → Str → ℕ → NewAuditEvent → InboxDatabase → Repo (UploadReservationRecord × Str)
completable capability id now_ms event db = do
  validate_capability capability
  validate_text id
  now ← to_i64 now_ms
  reservation ← inbox_reservation capability id now db
  guard (is_uploaded reservation.state) conflict
  inbox_id ← reserved_inbox_id id db
  validate_upload_event event (lit "inbox.uploaded") inbox_id reservation.expected_size now_ms
  ok (reservation, inbox_id)

-- The statements of `complete`.
unfoldable pub write_completion :
    Str
    → UploadReservationRecord
    → Str
    → NewAuditEvent
    → InboxDatabase
    → Repo (ObjectVersionRecord × InboxDatabase)
write_completion id reservation inbox_id event db = do
  uploads ← complete_rows id reservation db.stored.uploads
  inboxes ← complete_capacity inbox_id reservation.expected_size db.inboxes
  links ← transition_link id LinkStatus.complete db.links
  events ← insert_event event db.stored.events
  version ← ok_or (find_version reservation.version.id uploads) not_found
  ok (
    version,
    record db {
      stored = record db.stored { uploads = uploads; events = events };
      inboxes = inboxes;
      links = links;
    },
  )

unfoldable pub complete_inbox_upload :
    Str → Str → ℕ → NewAuditEvent → InboxDatabase → Repo (ObjectVersionRecord × InboxDatabase)
complete_inbox_upload capability id now_ms event db =
    completable capability id now_ms event db >>= λ target.
    write_completion id target.0 target.1 event db

-- The statements of `abort` on the tables of uploads.
unfoldable pub abort_rows : Str → UploadReservationRecord → Database → Repo Database
abort_rows id reservation db = do
  marked ← update_reservation id (λ r. same_state reservation.state r.state) aborted_row db
  update_version reservation.version.id aborted_version (without_parts id marked)

-- The checks of `abort`.
unfoldable pub abortable : Str → Str → ℕ → InboxDatabase → Repo (UploadReservationRecord × Str)
abortable capability id now_ms db = do
  validate_capability capability
  validate_text id
  now ← to_i64 now_ms
  reservation ← inbox_reservation capability id now db
  guard (is_open reservation.state) conflict
  inbox_id ← reserved_inbox_id id db
  ok (reservation, inbox_id)

-- The statements of `abort`.
unfoldable pub write_abortion :
    Str
    → UploadReservationRecord
    → Str
    → InboxDatabase
    → Repo (UploadReservationRecord × InboxDatabase)
write_abortion id reservation inbox_id db = do
  uploads ← abort_rows id reservation db.stored.uploads
  inboxes ← release_capacity inbox_id reservation.expected_size db.inboxes
  links ← transition_link id LinkStatus.aborted db.links
  ok (
    reservation,
    record db { stored = record db.stored { uploads = uploads }; inboxes = inboxes; links = links },
  )

unfoldable pub abort_inbox_upload :
    Str → Str → ℕ → InboxDatabase → Repo (UploadReservationRecord × InboxDatabase)
abort_inbox_upload capability id now_ms db =
    abortable capability id now_ms db >>= λ target. write_abortion id target.0 target.1 db
