-- ===== src/Sqlite/Inboxes/Reserving.antt =====
-- The reservation of an upload into an inbox keeps the accounts:
-- `crates/blobyard-repository-sqlite/src/inbox_uploads.rs`.
use mathlib.Core.Path.{subst}
use blobyard_core.Contract.{
  conflict, invalid_input, NewUploadReservation, UploadReservationRecord, checksum_valid,
  storage_key_valid,
}
use blobyard_core.Sqlite.Database.{
  Database, reservation_key, version_key, to_i64, optional_i64, validate_texts, validate_provenance,
  validate_strategy, validate_reservation, ValidatedReservation,
}
use blobyard_core.Sqlite.Table.{find_row, insert_row, find_row-append}
use blobyard_core.Sqlite.Transfers.{
  find_reservation, reservation_by_id, ensure_project, next_version, same_place, new_version_row,
  insert_version, new_reservation_row, clashes, insert_reservation,
}
use blobyard_core.Sqlite.Transfers.Versions.{insert_row-eq-some, find_inserted}
use blobyard_core.Sqlite.Transfers.Lifecycle.{to_i64-eq-ok}
use blobyard_core.Sqlite.Sharing.{validate_capability}
use blobyard_core.Sqlite.Inboxes.{
  InboxRow, InboxRecord, NewInboxUpload, InboxDatabase, link_key, active_by_capability,
}
use blobyard_core.Sqlite.Inboxes.Uploads.{
  validate_scope, has_room, with_reserved, update_inbox, reserve_capacity, new_link, insert_upload,
  reservable, write_reservation, reserve_inbox_upload,
}
use blobyard_core.Sqlite.Inboxes.Ledger.{IsLedger}
use blobyard_core.Sqlite.Inboxes.Keeping.{KeepsSizes}
use blobyard_core.Sqlite.Inboxes.Opening.{IsLedger-opened}
use blobyard_core.Base.{
  ℕ, ◌≡◌, refl, sym, ap, ◌∙◌, not, none, some, List, [], ◌∷◌, ◌++◌, ltb, any, Str, ok_or, guard,
  ok-injective, ok_or-eq-ok, >>=-eq-ok, >>-eq-ok, ok,
}

reserve_capacity-eq-ok :
    (id : Str) (size : ℕ) (rows rows' : List InboxRow)
    → reserve_capacity id size rows ≡ ok rows'
    → update_inbox id (has_room size) (with_reserved size) rows ≡ ok rows'
unfolding reserve_capacity
reserve_capacity-eq-ok id size rows rows' h =
    let (n, fits, h1) = >>=-eq-ok (to_i64 size) _ h in
    ap (λ k. update_inbox id (has_room k) (with_reserved k) rows) (sym (to_i64-eq-ok size n fits))
    ∙ h1

validate_reservation-expected_size :
    (value : NewUploadReservation) (v : ValidatedReservation)
    → validate_reservation value ≡ ok v
    → v.expected_size ≡ value.expected_size
unfolding validate_reservation
validate_reservation-expected_size value v h =
    let (_, h1) = >>-eq-ok (validate_texts _) _ h in
    let (_, h2) = >>-eq-ok (guard (checksum_valid value.expected_checksum) invalid_input) _ h1 in
    let (_, h3) = >>-eq-ok (guard (checksum_valid value.capability_hash) invalid_input) _ h2 in
    let (_, h4) = >>-eq-ok (guard (storage_key_valid value.storage_key) invalid_input) _ h3 in
    let (_, h5) =
      >>-eq-ok (validate_provenance value.git_repository value.git_commit value.git_branch) _ h4 in
    let (_, h6) = >>-eq-ok (validate_strategy value) _ h5 in
    let (created, _, h7) = >>=-eq-ok (to_i64 value.created_at_ms) _ h6 in
    let (expires, _, h8) = >>=-eq-ok (to_i64 value.expires_at_ms) _ h7 in
    let (_, h9) = >>-eq-ok (guard (ltb created expires) invalid_input) _ h8 in
    let (size, fits, h10) = >>=-eq-ok (to_i64 value.expected_size) _ h9 in
    let (part, _, h11) = >>=-eq-ok (optional_i64 value.part_size) _ h10 in
    ap (λ (x : ValidatedReservation). x.expected_size) (sym (ok-injective _ v h11))
    ∙ to_i64-eq-ok value.expected_size size fits

-- The rows of reservations that an upload adds to.
insert_upload_rows :
    (value : NewUploadReservation) (validated : ValidatedReservation) (db db' : Database)
    → insert_upload value validated db ≡ ok db'
    → (find_reservation value.id db ≡ none)
      × (db'.reservations ≡ db.reservations ++ new_reservation_row value validated ∷ [])
unfolding insert_upload insert_version insert_reservation
insert_upload_rows value validated db db' h =
    let (_, h1) = >>-eq-ok (ensure_project value.project_id db) _ h in
    let (n, _, h2) = >>=-eq-ok (next_version value db) _ h1 in
    let (with_version, ins, h3) =
      >>=-eq-ok (insert_version value n validated.created_at_ms db) _ h2 in
    let (_, i1) = >>-eq-ok (guard (not (any (same_place value n) db.versions)) conflict) _ ins in
    let (rows, _, e1) =
      >>=-eq-ok
        (ok_or
          (insert_row version_key (new_version_row value n validated.created_at_ms) db.versions)
          conflict)
        _ i1 in
    let w : record db { versions = rows } ≡ with_version = ok-injective _ _ e1 in
    let before : with_version.reservations ≡ db.reservations =
      ap (λ (x : Database). x.reservations) (sym w) in
    let (_, i2) =
      >>-eq-ok (guard (not (any (clashes value) with_version.reservations)) conflict) _ h3 in
    let rrow = new_reservation_row value validated in
    let (rows2, r2, e2) =
      >>=-eq-ok (ok_or (insert_row reservation_key rrow with_version.reservations) conflict) _ i2 in
    let b : record with_version { reservations = rows2 } ≡ db' = ok-injective _ _ e2 in
    let (free, shape) =
      insert_row-eq-some reservation_key rrow with_version.reservations rows2
        (ok_or-eq-ok _ _ r2) in
    (
      ap (find_row reservation_key value.id) (sym before) ∙ free,
      ap (λ (x : Database). x.reservations) (sym b) ∙ shape ∙ ap (λ rs. rs ++ rrow ∷ []) before,
    )

insert_upload-KeepsSizes :
    (value : NewUploadReservation) (validated : ValidatedReservation) (db db' : Database)
    → insert_upload value validated db ≡ ok db'
    → KeepsSizes db db'
insert_upload-KeepsSizes value validated db db' h k r found =
    let (_, rows) = insert_upload_rows value validated db db' h in
    (
      r,
      ap (find_row reservation_key k) rows
          ∙ find_row-append reservation_key k db.reservations (new_reservation_row value validated)
          ∙ rw found,
      refl,
    )

insert_upload_found :
    (value : NewUploadReservation) (validated : ValidatedReservation) (db db' : Database)
    → insert_upload value validated db ≡ ok db'
    → find_reservation value.id db' ≡ some (new_reservation_row value validated)
insert_upload_found value validated db db' h =
    let (free, rows) = insert_upload_rows value validated db db' h in
    ap (find_row reservation_key value.id) rows
    ∙ find_inserted reservation_key (new_reservation_row value validated) db.reservations free

write_reservation-IsLedger :
    (upload : NewInboxUpload) (value : NewUploadReservation) (validated : ValidatedReservation)
    (inbox : Str) (db db' : InboxDatabase) (u : UploadReservationRecord)
    → validated.expected_size ≡ value.expected_size
    → write_reservation upload value validated inbox db ≡ ok (u, db')
    → IsLedger db
    → IsLedger db'
unfolding write_reservation
write_reservation-IsLedger upload value validated inbox db db' u sized h inv =
    let link = new_link upload inbox value.id validated.expected_size validated.created_at_ms in
    let (inboxes, paid, h1) =
      >>=-eq-ok (reserve_capacity inbox value.expected_size db.inboxes) _ h in
    let (uploads, stored, h2) = >>=-eq-ok (insert_upload value validated db.stored.uploads) _ h1 in
    let (links, linked, h3) = >>=-eq-ok (ok_or (insert_row link_key link db.links) conflict) _ h2 in
    let (w, _, h4) = >>=-eq-ok (reservation_by_id value.id uploads) _ h3 in
    let middle : InboxDatabase = record db {
      stored = record db.stored { uploads = uploads };
      inboxes = inboxes;
      links = links;
    } in
    let (free, shape) = insert_row-eq-some link_key link db.links links (ok_or-eq-ok _ _ linked) in
    subst (λ (d : InboxDatabase). IsLedger d)
      (ap (λ (p : UploadReservationRecord × InboxDatabase). p.1)
        (ok-injective (w, middle) (u, db') h4))
      (IsLedger-opened db middle link inv refl free shape
        (ap (λ n. update_inbox inbox (has_room n) (with_reserved n) db.inboxes) sized
          ∙ reserve_capacity-eq-ok inbox value.expected_size db.inboxes inboxes paid)
        (insert_upload-KeepsSizes value validated db.stored.uploads uploads stored)
        (
          new_reservation_row value validated,
          insert_upload_found value validated db.stored.uploads uploads stored,
          refl,
        ))

reservable-expected_size :
    (upload : NewInboxUpload) (value : NewUploadReservation) (db : InboxDatabase)
    (checked : ValidatedReservation × InboxRecord)
    → reservable upload value db ≡ ok checked
    → checked.0.expected_size ≡ value.expected_size
unfolding reservable
reservable-expected_size upload value db checked h =
    let (validated, valid, h1) = >>=-eq-ok (validate_reservation value) _ h in
    let (_, h2) = >>-eq-ok (validate_capability upload.capability_hash) _ h1 in
    let (_, h3) = >>-eq-ok (guard (checksum_valid upload.fingerprint_hash) invalid_input) _ h2 in
    let (now, _, h4) = >>=-eq-ok (to_i64 upload.now_ms) _ h3 in
    let (inbox, _, h5) = >>=-eq-ok (active_by_capability upload.capability_hash now db) _ h4 in
    let (_, h6) = >>-eq-ok (validate_scope inbox value upload.now_ms) _ h5 in
    ap (λ (c : ValidatedReservation × InboxRecord). c.0.expected_size)
      (sym (ok-injective (validated, inbox) checked h6))
    ∙ validate_reservation-expected_size value validated valid

pub reserve_inbox_upload-IsLedger :
    (upload : NewInboxUpload) (value : NewUploadReservation) (db db' : InboxDatabase)
    (u : UploadReservationRecord)
    → reserve_inbox_upload upload value db ≡ ok (u, db')
    → IsLedger db
    → IsLedger db'
unfolding reserve_inbox_upload
reserve_inbox_upload-IsLedger upload value db db' u h inv =
    let (checked, valid, h1) = >>=-eq-ok (reservable upload value db) _ h in
    write_reservation-IsLedger upload value checked.0 checked.1.id db db' u
      (reservable-expected_size upload value db checked valid) h1 inv
