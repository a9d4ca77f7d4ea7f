-- ===== src/Sqlite/Transfers/Lifecycle.antt =====
-- What each state change of an upload does to its two rows, and what it leaves alone:
-- `crates/blobyard-repository-sqlite/src/transfers.rs`.
use mathlib.Core.Path.{subst}
use blobyard_core.Contract.{
  conflict, not_found, ReservationState, ObjectVersionRecord, UploadReservationRecord, is_requested,
  is_uploaded,
}
use blobyard_core.Sqlite.Database.{
  ReservationRow, PartRow, Database, version_key, to_i64, validate_text, reservation_record,
}
use blobyard_core.Sqlite.Table.{find_row-key}
use blobyard_core.Sqlite.Transfers.{
  find_version, find_reservation, completed, completed_version, complete_upload, is_open,
  same_state, aborted_row, aborted_version, without_parts, abort_upload, update_reservation,
  update_version,
}
use blobyard_core.Sqlite.Transfers.Rows.{
  IsConsistent, TouchesOnly, reservation_by_id-bind, update_reservation_rows,
}
use blobyard_core.Sqlite.Transfers.Paired.{
  both_found, both_touch, both_tables, DropsParts, DropsParts-keep,
}
use blobyard_core.Base.{
  ℕ, ◌≡◌, refl, sym, ap, ◌∙◌, true, not, some, arith, keep, Str, str_eq, ok_or, guard, ok-injective,
  guard-eq-ok, ok_or-eq-ok, >>=-eq-ok, >>-eq-ok, ok,
}

state_of_uploaded : (s : ReservationState) → is_uploaded s ≡ true → s ≡ ReservationState.uploaded
state_of_uploaded s h = ground arith

pub state_of_requested :
    (s : ReservationState) → is_requested s ≡ true → s ≡ ReservationState.requested
state_of_requested s h = ground arith

-- The version of a reservation has the reservation's id.
version_id_of :
    (id : Str) (db : Database) (r : ReservationRow) (w : ObjectVersionRecord)
    → IsConsistent db
    → find_reservation id db ≡ some r
    → find_version r.version_id db ≡ some w
    → (w.id ≡ id) × (find_version id db ≡ some w)
version_id_of id db r w inv row ver =
    let own = (inv id r row).own in
    (find_row-key version_key r.version_id db.versions w ver ∙ own, rw own at ver)

pub to_i64-eq-ok : (value x : ℕ) → to_i64 value ≡ ok x → x ≡ value
unfolding to_i64
to_i64-eq-ok value x h = ground arith

complete_rows :
    (id : Str) (db marked finished : Database) (r : ReservationRow) (w x v : ObjectVersionRecord)
    (db' : Database)
    → find_reservation id db ≡ some r
    → find_version id db ≡ some w
    → w.id ≡ id
    → r.state ≡ ReservationState.uploaded
    → update_reservation id (λ r. is_uploaded r.state) completed db ≡ ok marked
    → update_version w.id (completed_version r.expected_size r.expected_checksum) marked
      ≡ ok finished
    → find_version w.id finished ≡ some x
    → finished ≡ db'
    → x ≡ v
    → (r : ReservationRow) × (w : ObjectVersionRecord) × (find_reservation id db ≡ some r)
      × (r.state ≡ ReservationState.uploaded)
      × (find_version id db ≡ some w)
      × (find_reservation id db' ≡ some (completed r))
      × (find_version id db' ≡ some v)
      × (v ≡ completed_version r.expected_size r.expected_checksum w)
      × TouchesOnly id db db'
      × (db' ≡ record db { reservations = db'.reservations; versions = db'.versions })
complete_rows id db marked finished r w x v db' row ver same_id up mark finish last d x' =
    let edit = completed_version r.expected_size r.expected_checksum in
    let f : update_version id edit marked ≡ ok db' = rw (same_id, d) at finish in
    let l : find_version id db' ≡ some v = rw (same_id, d, x') at last in
    let (after, after_v, pending, passed) =
      both_found id (λ r. is_uploaded r.state) completed (λ r. refl) edit (λ v. refl) db marked
        marked db' r w row ver mark (λ j. refl) (λ j. refl) f in
    (
      r,
      w,
      row,
      up,
      ver,
      after,
      l,
      cc (l, after_v),
      both_touch id (λ r. is_uploaded r.state) completed (λ r. refl) edit (λ v. refl) db marked
          marked db' r w row ver mark (λ j. refl) (λ j. refl) f,
      both_tables id id (λ r. is_uploaded r.state) completed edit db marked db' marked.parts
            (λ r. refl) (λ v. refl) mark f
          ∙ ap
              (λ ps. record db {
                reservations = db'.reservations;
                versions = db'.versions;
                parts = ps;
              })
              (ap (λ (d : Database). d.parts)
                (update_reservation_rows id (λ r. is_uploaded r.state) completed (λ r. refl) db
                  marked mark)),
    )

-- Completing an upload of a consistent database succeeds only from the state `uploaded`. It makes
-- the reservation and its version complete, the version with the size and the checksum that were
-- reserved, and returns that version. No other reservation and no other version changes, and no
-- other table: the parts, the downloads, the projects and the deleted versions stay as they are.
pub complete_upload_lem :
    (id : Str) (db : Database) (v : ObjectVersionRecord) (db' : Database)
    → IsConsistent db
    → complete_upload id db ≡ ok (v, db')
    → (r : ReservationRow) × (w : ObjectVersionRecord) × (find_reservation id db ≡ some r)
      × (r.state ≡ ReservationState.uploaded)
      × (find_version id db ≡ some w)
      × (find_reservation id db' ≡ some (completed r))
      × (find_version id db' ≡ some v)
      × (v ≡ completed_version r.expected_size r.expected_checksum w)
      × TouchesOnly id db db'
      × (db' ≡ record db { reservations = db'.reservations; versions = db'.versions })
unfolding complete_upload
complete_upload_lem id db v db' inv h =
    let (valid, h1) = >>-eq-ok (validate_text id) _ h in
    let (r, w, row, ver, h2) = reservation_by_id-bind id db _ (v, db') h1 in
    let (open_state, h3) = >>-eq-ok (guard (is_uploaded r.state) conflict) _ h2 in
    let (same_id, ver') = version_id_of id db r w inv row ver in
    let (marked, mark, h4) =
      >>=-eq-ok (update_reservation id (λ r. is_uploaded r.state) completed db) _ h3 in
    let edit = completed_version r.expected_size r.expected_checksum in
    let (finished, finish, h5) = >>=-eq-ok (update_version w.id edit marked) _ h4 in
    let (x, last, h6) = >>=-eq-ok (ok_or (find_version w.id finished) not_found) _ h5 in
    let same : ◌≡◌ {A = ObjectVersionRecord × Database} (x, finished) (v, db') =
      ok-injective _ _ h6 in
    complete_rows id db marked finished r w x v db' row ver' same_id
      (state_of_uploaded r.state (guard-eq-ok (is_uploaded r.state) conflict open_state)) mark
      finish (ok_or-eq-ok (find_version w.id finished) not_found last) (ap (λ p. p.1) same)
      (ap (λ p. p.0) same)

abort_rows :
    (id : Str) (db marked finished : Database) (r : ReservationRow) (w : ObjectVersionRecord)
    → find_reservation id db ≡ some r
    → find_version id db ≡ some w
    → w.id ≡ id
    → update_reservation id (λ x. same_state r.state x.state) aborted_row db ≡ ok marked
    → update_version w.id aborted_version (without_parts id marked) ≡ ok finished
    → (find_reservation id finished ≡ some (aborted_row r))
      × (find_version id finished ≡ some (aborted_version w))
      × TouchesOnly id db finished
      × DropsParts id db.parts finished.parts
      × (finished ≡ record db {
        reservations = finished.reservations;
        versions = finished.versions;
        parts = finished.parts;
      })
abort_rows id db marked finished r w row ver same_id mark finish =
    let f : update_version id aborted_version (without_parts id marked) ≡ ok finished =
      rw same_id at finish in
    let test = λ (x : ReservationRow). same_state r.state x.state in
    let (after, after_v, pending, passed) =
      both_found id test aborted_row (λ r. refl) aborted_version (λ v. refl) db marked
        (without_parts id marked) finished r w row ver mark (λ j. refl) (λ j. refl) f in
    let tables =
      both_tables id id test aborted_row aborted_version db marked finished
        (keep (λ (p : PartRow). not (str_eq p.upload_id id)) marked.parts) (λ r. refl) (λ v. refl)
        mark f in
    let parts : finished.parts ≡ keep (λ (p : PartRow). not (str_eq p.upload_id id)) db.parts =
      ap (λ (d : Database). d.parts) tables
      ∙ ap (λ (d : Database). keep (λ (p : PartRow). not (str_eq p.upload_id id)) d.parts)
          (update_reservation_rows id test aborted_row (λ r. refl) db marked mark) in
    (
      after,
      after_v,
      both_touch id test aborted_row (λ r. refl) aborted_version (λ v. refl) db marked
          (without_parts id marked) finished r w row ver mark (λ j. refl) (λ j. refl) f,
      subst (DropsParts id db.parts) (sym parts) (DropsParts-keep id db.parts),
      tables
          ∙ ap
              (λ ps. record db {
                reservations = finished.reservations;
                versions = finished.versions;
                parts = ps;
              })
              (sym (ap (λ (d : Database). d.parts) tables)),
    )

-- Aborting an upload of a consistent database succeeds only from `requested` or `uploaded`. It
-- makes the reservation and its version aborted, drops what was received, and returns the
-- reservation as it was. It drops every part of the upload and no other part. No other reservation
-- and no other version changes, and the other tables stay as they are.
pub abort_upload_lem :
    (id : Str) (db : Database) (u : UploadReservationRecord) (db' : Database)
    → IsConsistent db
    → abort_upload id db ≡ ok (u, db')
    → (r : ReservationRow) × (w : ObjectVersionRecord) × (find_reservation id db ≡ some r)
      × (is_open r.state ≡ true)
      × (find_version id db ≡ some w)
      × (u ≡ reservation_record r w)
      × (find_reservation id db' ≡ some (aborted_row r))
      × (find_version id db' ≡ some (aborted_version w))
      × TouchesOnly id db db'
      × DropsParts id db.parts db'.parts
      × (db' ≡ record db {
        reservations = db'.reservations;
        versions = db'.versions;
        parts = db'.parts;
      })
unfolding abort_upload
abort_upload_lem id db u db' inv h =
    let (valid, h1) = >>-eq-ok (validate_text id) _ h in
    let (r, w, row, ver, h2) = reservation_by_id-bind id db _ (u, db') h1 in
    let (open_state, h3) = >>-eq-ok (guard (is_open r.state) conflict) _ h2 in
    let (same_id, ver') = version_id_of id db r w inv row ver in
    let (marked, mark, h4) =
      >>=-eq-ok (update_reservation id (λ x. same_state r.state x.state) aborted_row db) _ h3 in
    let (finished, finish, h5) =
      >>=-eq-ok (update_version w.id aborted_version (without_parts id marked)) _ h4 in
    let same : ◌≡◌ {A = UploadReservationRecord × Database} (reservation_record r w, finished)
        (u, db') =
      ok-injective _ _ h5 in
    let d : finished ≡ db' = ap (λ p. p.1) same in
    let (after, after_v, touch, parts, tables) =
      abort_rows id db marked finished r w row ver' same_id mark finish in
    (
      r,
      w,
      row,
      guard-eq-ok (is_open r.state) conflict open_state,
      ver',
      ap (λ p. p.0) (sym same),
      ap (find_reservation id) (sym d) ∙ after,
      ap (find_version id) (sym d) ∙ after_v,
      rw d at touch,
      rw d at parts,
      ap (λ (x : Database). x) (sym d)
          ∙ tables
          ∙ ap
              (λ (x : Database). record db {
                reservations = x.reservations;
                versions = x.versions;
                parts = x.parts;
              })
              d,
    )
