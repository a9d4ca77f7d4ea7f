-- ===== src/Sqlite/Transfers/Steps.antt =====
-- Every sequence of upload operations: the two rows of each upload stay in agreement, and a
-- finished upload stays as it is.
use blobyard_core.Contract.{
  ReservationState, ObjectVersionRecord, NewUploadReservation, NewUploadPartGrant, NewDownloadGrant,
  UploadPartRecord, UploadReservationRecord,
}
use blobyard_core.Sqlite.Database.{ReservationRow, Database, reservation_key, version_key}
use blobyard_core.Sqlite.Table.{find_row}
use blobyard_core.Sqlite.Transfers.{
  find_version, find_reservation, with_expiry, renew_upload, received, record_uploaded_bytes,
  completed, complete_upload, aborted_row, aborted_version, abort_upload, is_open, reserve,
  new_reservation_row, new_version_row,
}
use blobyard_core.Sqlite.Transfers.Downloads.{issue_download}
use blobyard_core.Sqlite.Transfers.Multipart.{unattached, attach, issue, record_part}
use blobyard_core.Sqlite.Transfers.Rows.{
  Agree, IsLinked, IsConsistent, TouchesOnly, IsConsistent-of_touch,
}
use blobyard_core.Sqlite.Transfers.Lifecycle.{complete_upload_lem, abort_upload_lem}
use blobyard_core.Sqlite.Transfers.Arrival.{record_uploaded_bytes_lem, renew_upload_lem}
use blobyard_core.Sqlite.Transfers.Versions.{reserve_lem}
use blobyard_core.Base.{
  ℕ, ◌≡◌, refl, sym, ap, ◌∙◌, inl, inr, Bool, true, false, not, Option, none, some, List, [], arith,
  Bool-cases, Str, str_eq, str_eq_iff, ok,
}
use blobyard_core.Sqlite.Transfers.Attach.{
  SameUploads, issue_same, record_part_same, issue_download_same, IsConsistent-same, attached,
  attach_lem, IsConsistent-attached, attached_touch, attached_row,
}

-- One successful operation. Those that only read change nothing and are left out.
pub data Step (db db' : Database) : Type 0 where
  reserving :
      (value : NewUploadReservation) (u : UploadReservationRecord)
      → reserve value db ≡ ok (u, db')
      → Step db db'
  renewing : (id : Str) (expires : ℕ) → renew_upload id expires db ≡ ok db' → Step db db'
  attaching :
      (id provider : Str) (u : UploadReservationRecord)
      → attach id provider db ≡ ok (u, db')
      → Step db db'
  issuing :
      (parts : List NewUploadPartGrant) (records : List UploadPartRecord)
      → issue parts db ≡ ok (records, db')
      → Step db db'
  receiving_part :
      (id : Str) (number size : ℕ) (checksum : Str) (tag : Option Str)
      → record_part id number size checksum tag db ≡ ok db'
      → Step db db'
  receiving :
      (id : Str) (size : ℕ) (checksum : Str)
      → record_uploaded_bytes id size checksum db ≡ ok db'
      → Step db db'
  completing :
      (id : Str) (v : ObjectVersionRecord) → complete_upload id db ≡ ok (v, db') → Step db db'
  aborting :
      (id : Str) (u : UploadReservationRecord) → abort_upload id db ≡ ok (u, db') → Step db db'
  downloading : (grant : NewDownloadGrant) → issue_download grant db ≡ ok db' → Step db db'

pub data Run (db : Database) : Database → Type 0 where
  start : Run db db
  onward : {middle db' : Database} → Run db middle → Step middle db' → Run db db'

abbrev pub is_finished : ReservationState → Bool
is_finished s = not (is_open s)

-- What a step does to the upload of one id, and that it does nothing to any other.
record Effect (db db' : Database) : Type 0 where
  id : Str
  touch : TouchesOnly id db db'
  linked : (r : ReservationRow) → find_reservation id db' ≡ some r → IsLinked id db' r
  final :
      (r : ReservationRow)
      → find_reservation id db ≡ some r
      → is_finished r.state ≡ true
      → (find_reservation id db' ≡ find_reservation id db)
        × (find_version id db' ≡ find_version id db)

Effect-of_same : (db db' : Database) → IsConsistent db → SameUploads db db' → Effect db db'
Effect-of_same db db' inv (rows, versions) = record {
  id = [];
  touch = λ j apart. (ap (find_row reservation_key j) rows, ap (find_row version_key j) versions);
  linked = IsConsistent-same db db' (rows, versions) inv [];
  final =
      λ r row done. (ap (find_row reservation_key []) rows, ap (find_row version_key []) versions);
}

-- A step on an upload that is open, or that is not there yet.
Effect-of_open :
    (id : Str) (db db' : Database) (r' : ReservationRow)
    → TouchesOnly id db db'
    → find_reservation id db' ≡ some r'
    → IsLinked id db' r'
    → ((r : ReservationRow) → find_reservation id db ≡ some r → is_open r.state ≡ true)
    → Effect db db'
Effect-of_open id db db' r' touch after link before = record {
  id = id;
  touch = touch;
  linked = λ r found.
      let e : some r' ≡ some r = sym after ∙ found in let e' : r' ≡ r = cc in rw e' at link;
  final = λ r row done.
      let o : is_open r.state ≡ true = before r row in
      let bad : not true ≡ true = rw o at done in absurd (cc);
}

open_row :
    (id : Str) (db : Database) (r : ReservationRow)
    → find_reservation id db ≡ some r
    → is_open r.state ≡ true
    → (s : ReservationRow) → find_reservation id db ≡ some s
    → is_open s.state ≡ true
open_row id db r row o s found =
    let e : some r ≡ some s = sym row ∙ found in let e' : r ≡ s = cc in rw e' at o

Effect-of_attached :
    (id provider : Str) (db : Database) → IsConsistent db → Effect db (attached id provider db)
Effect-of_attached id provider db inv = record {
  id = id;
  touch = attached_touch id provider db;
  linked = IsConsistent-attached id provider db inv id;
  final = λ r row done.
      let bound : unattached r ≡ false = ground arith in
      (attached_row id provider db ∙ rw (row, bound), refl);
}

Agree-with_expiry :
    (s : ReservationState) (expires : ℕ) (r : ReservationRow) (v : ObjectVersionRecord)
    → Agree s r v
    → Agree s (with_expiry expires r) v
Agree-with_expiry ReservationState.requested expires r v a = a
Agree-with_expiry ReservationState.uploaded expires r v a = a
Agree-with_expiry ReservationState.complete expires r v a = a
Agree-with_expiry ReservationState.aborted expires r v a = a

Step-Effect : (db db' : Database) → IsConsistent db → Step db db' → Effect db db'
Step-Effect db db' inv (reserving value u h) =
    let (validated, n, free, free_v, newest, after, after_v, touch, _) =
      reserve_lem value db u db' h in
    Effect-of_open value.id db db' (new_reservation_row value validated) touch after
      (record {
        own = refl;
        version = new_version_row value n validated.created_at_ms;
        found = after_v;
        agrees = (refl, refl, refl);
      })
      λ r row. let bad : none ≡ some r = sym free ∙ row in absurd (cc)
Step-Effect db db' inv (renewing id expires h) =
    let (r, row, requested, after, versions, touch) = renew_upload_lem id expires db db' h in
    let l = inv id r row in
    Effect-of_open id db db' (with_expiry expires r) touch after
      (record {
        own = l.own;
        version = l.version;
        found = versions id ∙ l.found;
        agrees = Agree-with_expiry r.state expires r l.version l.agrees;
      })
      (open_row id db r row (rw requested))
Step-Effect db db' inv (attaching id provider u h) = elim (attach_lem id provider db u db' h) [
  | inl same ↦
      Effect-of_same db db' inv
        (ap (λ (d : Database). d.reservations) same, ap (λ (d : Database). d.versions) same)
  | inr moved ↦ rw moved (Effect-of_attached id provider db inv)
]
Step-Effect db db' inv (issuing parts records h) =
    Effect-of_same db db' inv (issue_same parts db records db' h)
Step-Effect db db' inv (receiving_part id number size checksum tag h) =
    Effect-of_same db db' inv (record_part_same id number size checksum tag db db' h)
Step-Effect db db' inv (receiving id size checksum h) =
    let (r, row, requested, same_size, same_checksum, after, versions, touch) =
      record_uploaded_bytes_lem id size checksum db db' h in
    let l = inv id r row in
    let was : Agree ReservationState.requested r l.version = rw requested at (l.agrees) in
    Effect-of_open id db db' (received size checksum r) touch after
      (record {
        own = l.own;
        version = l.version;
        found = versions id ∙ l.found;
        agrees = (was.0, ap (λ x. some x) (sym same_size), ap (λ x. some x) (sym same_checksum));
      })
      (open_row id db r row (rw requested))
Step-Effect db db' inv (completing id v h) =
    let (r, w, row, uploaded, ver, after, after_v, shape, touch, _) =
      complete_upload_lem id db v db' inv h in
    Effect-of_open id db db' (completed r) touch after
      (record {
        own = (inv id r row).own;
        version = v;
        found = after_v;
        agrees = (
          ap (λ (x : ObjectVersionRecord). x.state) shape,
          ap (λ (x : ObjectVersionRecord). x.size) shape,
          ap (λ (x : ObjectVersionRecord). x.checksum) shape,
        );
      })
      (open_row id db r row (rw uploaded))
Step-Effect db db' inv (aborting id u h) =
    let (r, w, row, open_state, ver, shape, after, after_v, touch, _, _) =
      abort_upload_lem id db u db' inv h in
    Effect-of_open id db db' (aborted_row r) touch after
      (record {
        own = (inv id r row).own;
        version = aborted_version w;
        found = after_v;
        agrees = refl;
      })
      (open_row id db r row open_state)
Step-Effect db db' inv (downloading grant h) =
    Effect-of_same db db' inv (issue_download_same grant db db' h)

Step-IsConsistent : (db db' : Database) → Step db db' → IsConsistent db → IsConsistent db'
Step-IsConsistent db db' step inv =
    let e = Step-Effect db db' inv step in IsConsistent-of_touch e.id db db' inv e.touch e.linked

-- After any sequence of successful operations from a consistent database every reservation has a
-- version of its own id: pending, without or with the reserved size and checksum received, while
-- the upload is requested or uploaded; complete with that size and checksum; or aborted with it.
pub Run-IsConsistent : (db db' : Database) → IsConsistent db → Run db db' → IsConsistent db'
Run-IsConsistent db _ inv start = inv
Run-IsConsistent db db' inv (onward {middle} run step) =
    Step-IsConsistent middle db' step (Run-IsConsistent db middle inv run)

Step-final :
    (db db' : Database) (id : Str) (r : ReservationRow)
    → IsConsistent db
    → Step db db'
    → find_reservation id db ≡ some r
    → is_finished r.state ≡ true
    → (find_reservation id db' ≡ find_reservation id db)
      × (find_version id db' ≡ find_version id db)
Step-final db db' id r inv step row done =
    let e = Step-Effect db db' inv step in
    elim (Bool-cases (str_eq id e.id)) [
      | inl own ↦
          let same : id ≡ e.id = (str_eq_iff id e.id).0 own in
          rw same (e.final r (rw same at row) done)
      | inr apart ↦ e.touch id apart
    ]

-- A complete or aborted upload of a consistent database keeps its reservation and its version
-- through any sequence of the successful operations on uploads, parts and downloads that `Step`
-- lists: reserve, renew, attach, issue and record parts, record bytes, complete, abort and issue a
-- download. Deletions and retentions are not among them.
pub finished_final :
    (db db' : Database) (id : Str) (r : ReservationRow)
    → IsConsistent db
    → Run db db'
    → find_reservation id db ≡ some r
    → is_finished r.state ≡ true
    → (find_reservation id db' ≡ some r) × (find_version id db' ≡ find_version id db)
finished_final db _ id r inv start row done = (row, refl)
finished_final db db' id r inv (onward {middle} run step) row done =
    let (row', version') = finished_final db middle id r inv run row done in
    let (a, b) = Step-final middle db' id r (Run-IsConsistent db middle inv run) step row' done in
    (a ∙ row', b ∙ version')
