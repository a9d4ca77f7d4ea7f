-- ===== src/Sqlite/Transfers/Attach.antt =====
-- What the operations on parts, on provider identifiers and on downloads do to the two rows of an
-- upload: `crates/blobyard-repository-sqlite/src/transfer_multipart.rs`.
use mathlib.Core.Option
use blobyard_core.Contract.{
  conflict, ReservationState, ObjectVersionRecord, NewUploadPartGrant, NewDownloadGrant,
  UploadPartRecord, UploadReservationRecord,
}
use blobyard_core.Sqlite.Database.{
  ReservationRow, Database, reservation_key, version_key, validate_text,
  validate_provider_upload_id, reservation_record,
}
use blobyard_core.Sqlite.Table.{
  find_row, update_row, changed, find_row-update_row_self, find_row-update_row_ne,
}
use blobyard_core.Sqlite.Transfers.{find_reservation, reservation_by_id}
use blobyard_core.Sqlite.Transfers.Downloads.{issue_download, download_row}
use blobyard_core.Sqlite.Transfers.Multipart.{
  unattached, with_provider_id, require_multipart, attach_known, attach_new, attach, issue,
  record_part, issued_rows, expected_part,
}
use blobyard_core.Sqlite.Transfers.Rows.{
  Agree, IsLinked, IsConsistent, TouchesOnly, IsConsistent-of_touch, reservation_by_id-bind,
}
use blobyard_core.Base.{
  ℕ, ◌≡◌, refl, sym, ap, ◌∙◌, ◌⊎◌, inl, inr, Option, none, some, List, Bool-cases, Option-cases,
  Str, str_eq, >>=-eq-ok, >>-eq-ok, ok-injective, ok, err,
}

-- The tables of reservations and versions are as they were.
abbrev pub SameUploads : Database → Database → Type 0
SameUploads db db' = (db'.reservations ≡ db.reservations) × (db'.versions ≡ db.versions)

pub issue_same :
    (parts : List NewUploadPartGrant) (db : Database) (records : List UploadPartRecord)
    (db' : Database)
    → issue parts db ≡ ok (records, db')
    → SameUploads db db'
unfolding issue
issue_same parts db records db' h =
    let (p, found, e) = >>=-eq-ok (issued_rows parts db) _ h in
    let same : ◌≡◌ {A = List UploadPartRecord × Database} (p.0, record db { parts = p.1 })
        (records, db') =
      ok-injective _ _ e in
    (ap (λ x. x.1.reservations) (sym same), ap (λ x. x.1.versions) (sym same))

pub record_part_same :
    (id : Str) (number size : ℕ) (checksum : Str) (tag : Option Str) (db db' : Database)
    → record_part id number size checksum tag db ≡ ok db'
    → SameUploads db db'
unfolding record_part
record_part_same id number size checksum tag db db' h =
    let (part, found, e) = >>=-eq-ok (expected_part id number size checksum tag db) _ h in
    let same = ok-injective _ _ e in
    (ap (λ (d : Database). d.reservations) (sym same), ap (λ (d : Database). d.versions) (sym same))

pub issue_download_same :
    (grant : NewDownloadGrant) (db db' : Database)
    → issue_download grant db ≡ ok db'
    → SameUploads db db'
unfolding issue_download
issue_download_same grant db db' h =
    let (row, found, e) = >>=-eq-ok (download_row grant db) _ h in
    let same = ok-injective _ _ e in
    (ap (λ (d : Database). d.reservations) (sym same), ap (λ (d : Database). d.versions) (sym same))

pub IsConsistent-same :
    (db db' : Database) → SameUploads db db' → IsConsistent db → IsConsistent db'
IsConsistent-same db db' (rows, versions) inv id r found =
    let l = inv id r (ap (find_row reservation_key id) (sym rows) ∙ found) in
    record {
      own = l.own;
      version = l.version;
      found = ap (find_row version_key id) versions ∙ l.found;
      agrees = l.agrees;
    }

abbrev pub attached : Str → Str → Database → Database
attached id provider db = record db {
  reservations =
      (update_row reservation_key id unattached (with_provider_id provider) db.reservations).1;
}

attach_known_lem :
    (known : Option Str) (id provider : Str) (current : UploadReservationRecord) (db : Database)
    (u : UploadReservationRecord) (db' : Database)
    → attach_known known id provider current db ≡ ok (u, db')
    → (db' ≡ db) ⊎ (db' ≡ attached id provider db)
unfolding attach_known attach_new
attach_known_lem none id provider current db u db' h =
    let (x, read, e) = >>=-eq-ok (reservation_by_id id (attached id provider db)) _ h in
    let same : ◌≡◌ {A = UploadReservationRecord × Database} (x, attached id provider db) (u, db') =
      ok-injective _ _ e in
    inr (ap (λ p. p.1) (sym same))
attach_known_lem (some existing) id provider current db u db' h =
    elim (Bool-cases (str_eq existing provider)) [
      | inl here ↦
          let e : ok (current, db) ≡ ok (u, db') = rw here at h in
          let same : ◌≡◌ {A = UploadReservationRecord × Database} (current, db) (u, db') =
            ok-injective _ _ e in
          inl (ap (λ p. p.1) (sym same))
      | inr other ↦ let bad : err conflict ≡ ok (u, db') = rw other at h in absurd (cc)
    ]

-- Attaching a provider identifier changes at most that column of a requested reservation.
pub attach_lem :
    (id provider : Str) (db : Database) (u : UploadReservationRecord) (db' : Database)
    → attach id provider db ≡ ok (u, db')
    → (db' ≡ db) ⊎ (db' ≡ attached id provider db)
unfolding attach
attach_lem id provider db u db' h =
    let (valid, h1) = >>-eq-ok (validate_text id) _ h in
    let (valid2, h2) = >>-eq-ok (validate_provider_upload_id provider) _ h1 in
    let (r, w, row, ver, h3) = reservation_by_id-bind id db _ (u, db') h2 in
    let (shape, sized, h4) = >>=-eq-ok (require_multipart (reservation_record r w)) _ h3 in
    attach_known_lem r.provider_upload_id id provider (reservation_record r w) db u db' h4

pub attached_touch :
    (id provider : Str) (db : Database) → TouchesOnly id db (attached id provider db)
attached_touch id provider db j apart = (
  find_row-update_row_ne reservation_key j id unattached (with_provider_id provider) db.reservations
      (λ r. refl) apart,
  refl,
)

pub attached_row :
    (id provider : Str) (db : Database)
    → find_reservation id (attached id provider db)
      ≡ Option.map
          (changed reservation_key unattached (with_provider_id provider))
          (find_reservation id db)
attached_row id provider db =
    find_row-update_row_self reservation_key id unattached (with_provider_id provider)
      db.reservations (λ r. refl)

Agree-with_provider_id :
    (s : ReservationState) (provider : Str) (r : ReservationRow) (v : ObjectVersionRecord)
    → Agree s r v
    → Agree s (with_provider_id provider r) v
Agree-with_provider_id ReservationState.requested provider r v a = a
Agree-with_provider_id ReservationState.uploaded provider r v a = a
Agree-with_provider_id ReservationState.complete provider r v a = a
Agree-with_provider_id ReservationState.aborted provider r v a = a

pub IsLinked-changed :
    (id provider : Str) (db : Database) (r : ReservationRow)
    → IsLinked id db r
    → IsLinked id
        (attached id provider db)
        (changed reservation_key unattached (with_provider_id provider) r)
IsLinked-changed id provider db r l = elim (Bool-cases (unattached r)) [
  | inl free ↦ rw free (record {
    own = l.own;
    version = l.version;
    found = l.found;
    agrees = Agree-with_provider_id r.state provider r l.version l.agrees;
  })
  | inr bound ↦
      rw bound (record { own = l.own; version = l.version; found = l.found; agrees = l.agrees })
]

pub IsConsistent-attached :
    (id provider : Str) (db : Database) → IsConsistent db → IsConsistent (attached id provider db)
IsConsistent-attached id provider db inv =
    IsConsistent-of_touch id db (attached id provider db) inv (attached_touch id provider db)
      λ r' found. elim (Option-cases (find_reservation id db)) [
        | inl unknown ↦
            let e : none ≡ some r' = rw unknown at (sym (attached_row id provider db) ∙ found) in
            absurd (cc)
        | inr (r, row) ↦
            let e : some (changed reservation_key unattached (with_provider_id provider) r)
                ≡ some r' =
              rw row at (sym (attached_row id provider db) ∙ found) in
            let e' : changed reservation_key unattached (with_provider_id provider) r ≡ r' = cc in
            rw e' at (IsLinked-changed id provider db r (inv id r row))
      ]
