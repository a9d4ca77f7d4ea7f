-- ===== src/Sqlite/Transfers/Deleted.antt =====
-- The record of deleted versions through the operations on uploads:
-- `crates/blobyard-repository-sqlite/src/transfers.rs` and its neighbours.
use blobyard_core.Contract.{
  Repo, conflict, not_found, invalid_input, ObjectVersionRecord, UploadReservationRecord,
  is_requested, is_uploaded, NewUploadPartGrant, NewDownloadGrant, UploadPartRecord,
}
use blobyard_core.Sqlite.Database.{
  DeletedVersion, Database, ReservationRow, to_i64, validate_text, validate_upload_integrity,
  validate_provider_upload_id, reservation_key,
}
use blobyard_core.Sqlite.Table.{update_row}
use blobyard_core.Sqlite.Transfers.{
  find_version, reservation_by_id, update_reservation, update_version, renew_upload, with_expiry,
  record_uploaded_bytes, received, complete_upload, completed, completed_version, abort_upload,
  is_open, same_state, aborted_row, aborted_version, without_parts,
}
use blobyard_core.Sqlite.Transfers.Rows.{update_reservation_rows, update_version_rows}
use blobyard_core.Sqlite.Transfers.Versions.{reserve_lem}
use blobyard_core.Sqlite.Transfers.Downloads.{download_row, issue_download}
use blobyard_core.Sqlite.Transfers.Multipart.{
  require_multipart, unattached, with_provider_id, attach_new, attach_known, attach, issued_rows,
  issue, expected_part, record_part,
}
use blobyard_core.Sqlite.Transfers.Steps.{
  Step, Run, start, onward, reserving, renewing, attaching, issuing, receiving_part, receiving,
  completing, aborting, downloading,
}
use blobyard_core.Base.{
  ℕ, ◌≡◌, refl, sym, ap, ◌∙◌, inl, inr, Bool, ◌&&◌, Option, none, some, List, ◌==◌, Bool-cases, Str,
  str_eq, ok_or, guard, ok-injective, >>=-eq-ok, >>-eq-ok, ok,
}

abbrev deleted_of : Database → List DeletedVersion
deleted_of db = db.deleted

update_reservation-deleted :
    (id : Str) (test : ReservationRow → Bool) (change : ReservationRow → ReservationRow)
    (db db' : Database)
    → ((r : ReservationRow) → (change r).id ≡ r.id)
    → update_reservation id test change db ≡ ok db'
    → db'.deleted ≡ db.deleted
update_reservation-deleted id test change db db' keeps h =
    ap deleted_of (update_reservation_rows id test change keeps db db' h)

update_version-deleted :
    (id : Str) (edit : ObjectVersionRecord → ObjectVersionRecord) (db db' : Database)
    → ((v : ObjectVersionRecord) → (edit v).id ≡ v.id)
    → update_version id edit db ≡ ok db'
    → db'.deleted ≡ db.deleted
update_version-deleted id edit db db' keeps h =
    ap deleted_of (update_version_rows id edit keeps db db' h)

renew_upload-deleted :
    (id : Str) (expires_at_ms : ℕ) (db db' : Database)
    → renew_upload id expires_at_ms db ≡ ok db'
    → db'.deleted ≡ db.deleted
unfolding renew_upload
renew_upload-deleted id expires_at_ms db db' h =
    let (_, h1) = >>-eq-ok (validate_text id) _ h in
    let (expires, _, h2) = >>=-eq-ok (to_i64 expires_at_ms) _ h1 in
    update_reservation-deleted id (λ r. is_requested r.state) (with_expiry expires) db db'
      (λ r. refl) h2

attach_known-deleted :
    (existing : Option Str) (id provider : Str) (current u : UploadReservationRecord)
    (db db' : Database)
    → attach_known existing id provider current db ≡ ok (u, db')
    → db'.deleted ≡ db.deleted
unfolding attach_known attach_new
attach_known-deleted none id provider current u db db' h =
    let rows =
      (update_row reservation_key id unattached (with_provider_id provider) db.reservations).1 in
    let (w, _, h1) = >>=-eq-ok (reservation_by_id id (record db { reservations = rows })) _ h in
    ap (λ (p : UploadReservationRecord × Database). p.1.deleted) (sym (ok-injective _ (u, db') h1))
attach_known-deleted (some existing) id provider current u db db' h =
    elim (Bool-cases (str_eq existing provider)) [
      | inl known ↦
          let e : ◌≡◌ {A = Repo (UploadReservationRecord × Database)} (ok (current, db))
              (ok (u, db')) =
            rw known at h in
          ap (λ (p : UploadReservationRecord × Database). p.1.deleted)
            (sym (ok-injective (current, db) (u, db') e))
      | inr other ↦ absurd (let bad = rw other at h in cc)
    ]

attach-deleted :
    (id provider : Str) (db : Database) (u : UploadReservationRecord) (db' : Database)
    → attach id provider db ≡ ok (u, db')
    → db'.deleted ≡ db.deleted
unfolding attach
attach-deleted id provider db u db' h =
    let (_, h1) = >>-eq-ok (validate_text id) _ h in
    let (_, h2) = >>-eq-ok (validate_provider_upload_id provider) _ h1 in
    let (current, _, h3) = >>=-eq-ok (reservation_by_id id db) _ h2 in
    let (_, _, h4) = >>=-eq-ok (require_multipart current) _ h3 in
    attach_known-deleted current.provider_upload_id id provider current u db db' h4

issue-deleted :
    (parts : List NewUploadPartGrant) (db : Database) (records : List UploadPartRecord)
    (db' : Database)
    → issue parts db ≡ ok (records, db')
    → db'.deleted ≡ db.deleted
unfolding issue
issue-deleted parts db records db' h =
    let (p, _, e) = >>=-eq-ok (issued_rows parts db) _ h in
    let same : ◌≡◌ {A = List UploadPartRecord × Database} (p.0, record db { parts = p.1 })
        (records, db') =
      ok-injective _ _ e in
    ap (λ x. x.1.deleted) (sym same)

record_part-deleted :
    (id : Str) (number size : ℕ) (checksum : Str) (tag : Option Str) (db db' : Database)
    → record_part id number size checksum tag db ≡ ok db'
    → db'.deleted ≡ db.deleted
unfolding record_part
record_part-deleted id number size checksum tag db db' h =
    let (part, _, e) = >>=-eq-ok (expected_part id number size checksum tag db) _ h in
    ap deleted_of (sym (ok-injective _ _ e))

issue_download-deleted :
    (grant : NewDownloadGrant) (db db' : Database)
    → issue_download grant db ≡ ok db'
    → db'.deleted ≡ db.deleted
unfolding issue_download
issue_download-deleted grant db db' h =
    let (row, _, e) = >>=-eq-ok (download_row grant db) _ h in
    ap deleted_of (sym (ok-injective _ _ e))

record_uploaded_bytes-deleted :
    (id : Str) (size : ℕ) (checksum : Str) (db db' : Database)
    → record_uploaded_bytes id size checksum db ≡ ok db'
    → db'.deleted ≡ db.deleted
unfolding record_uploaded_bytes
record_uploaded_bytes-deleted id size checksum db db' h =
    let (_, h1) = >>-eq-ok (validate_upload_integrity id checksum) _ h in
    let (n, _, h2) = >>=-eq-ok (to_i64 size) _ h1 in
    let (current, _, h3) = >>=-eq-ok (reservation_by_id id db) _ h2 in
    let (_, h4) =
      >>-eq-ok
        (guard (current.expected_size == size && str_eq current.expected_checksum checksum)
          invalid_input)
        _ h3 in
    let (_, h5) = >>-eq-ok (guard (is_requested current.state) conflict) _ h4 in
    update_reservation-deleted id (λ r. is_requested r.state) (received n checksum) db db'
      (λ r. refl) h5

complete_upload-deleted :
    (id : Str) (db : Database) (v : ObjectVersionRecord) (db' : Database)
    → complete_upload id db ≡ ok (v, db')
    → db'.deleted ≡ db.deleted
unfolding complete_upload
complete_upload-deleted id db v db' h =
    let (_, h1) = >>-eq-ok (validate_text id) _ h in
    let (u, _, h2) = >>=-eq-ok (reservation_by_id id db) _ h1 in
    let (_, h3) = >>-eq-ok (guard (is_uploaded u.state) conflict) _ h2 in
    let (marked, mark, h4) =
      >>=-eq-ok (update_reservation id (λ r. is_uploaded r.state) completed db) _ h3 in
    let edit = completed_version u.expected_size u.expected_checksum in
    let (finished, ended, h5) = >>=-eq-ok (update_version u.version.id edit marked) _ h4 in
    let (w, _, h6) = >>=-eq-ok (ok_or (find_version u.version.id finished) not_found) _ h5 in
    ap (λ (p : ObjectVersionRecord × Database). p.1.deleted)
      (sym (ok-injective (w, finished) (v, db') h6))
    ∙ update_version-deleted u.version.id edit marked finished (λ v. refl) ended
    ∙ update_reservation-deleted id (λ r. is_uploaded r.state) completed db marked (λ r. refl) mark

abort_upload-deleted :
    (id : Str) (db : Database) (u : UploadReservationRecord) (db' : Database)
    → abort_upload id db ≡ ok (u, db')
    → db'.deleted ≡ db.deleted
unfolding abort_upload
abort_upload-deleted id db u db' h =
    let (_, h1) = >>-eq-ok (validate_text id) _ h in
    let (r, _, h2) = >>=-eq-ok (reservation_by_id id db) _ h1 in
    let (_, h3) = >>-eq-ok (guard (is_open r.state) conflict) _ h2 in
    let test = λ (x : ReservationRow). same_state r.state x.state in
    let (marked, mark, h4) = >>=-eq-ok (update_reservation id test aborted_row db) _ h3 in
    let (finished, ended, h5) =
      >>=-eq-ok (update_version r.version.id aborted_version (without_parts id marked)) _ h4 in
    ap (λ (p : UploadReservationRecord × Database). p.1.deleted)
      (sym (ok-injective (r, finished) (u, db') h5))
    ∙ update_version-deleted r.version.id aborted_version (without_parts id marked) finished
        (λ v. refl) ended
    ∙ update_reservation-deleted id test aborted_row db marked (λ r. refl) mark

Step-deleted : (db db' : Database) → Step db db' → db'.deleted ≡ db.deleted
Step-deleted db db' (reserving value u h) =
    let (_, _, _, _, _, _, _, _, tables) = reserve_lem value db u db' h in ap deleted_of tables
Step-deleted db db' (renewing id expires h) = renew_upload-deleted id expires db db' h
Step-deleted db db' (attaching id provider u h) = attach-deleted id provider db u db' h
Step-deleted db db' (issuing parts records h) = issue-deleted parts db records db' h
Step-deleted db db' (receiving_part id number size checksum tag h) =
    record_part-deleted id number size checksum tag db db' h
Step-deleted db db' (receiving id size checksum h) =
    record_uploaded_bytes-deleted id size checksum db db' h
Step-deleted db db' (completing id v h) = complete_upload-deleted id db v db' h
Step-deleted db db' (aborting id u h) = abort_upload-deleted id db u db' h
Step-deleted db db' (downloading grant h) = issue_download-deleted grant db db' h

pub Run-deleted : (db db' : Database) → Run db db' → db'.deleted ≡ db.deleted
Run-deleted db _ start = refl
Run-deleted db db' (onward {middle} before step) =
    Step-deleted middle db' step ∙ Run-deleted db middle before
