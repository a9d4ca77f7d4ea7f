-- ===== src/Sqlite/Transfers/Rows.antt =====
-- The two rows of an upload, what links them, and the updates of one row:
-- `crates/blobyard-repository-sqlite/src/transfers.rs`.
use blobyard_core.Contract.{
  RepositoryError, conflict, not_found, UploadState, ReservationState, ObjectVersionRecord,
  UploadReservationRecord, is_pending,
}
use blobyard_core.Sqlite.Database.{
  ReservationRow, Database, version_key, reservation_key, changed_once, reservation_record,
}
use blobyard_core.Sqlite.Table.{
  update_row, find_row-update_row_self, find_row-update_row_ne, update_row-eq-one,
}
use blobyard_core.Sqlite.Transfers.{
  find_version, find_reservation, joined, reservation_by_id, update_reservation, update_version,
}
use blobyard_core.Base.{
  ℕ, ◌≡◌, refl, sym, ◌∙◌, inl, inr, Bool, true, false, none, some, ◌==◌, ==_iff, Bool-cases,
  Option-cases, Str, str_eq, str_eq_iff, Result, ◌>>=◌, ok_or, >>-eq-ok, guard-eq-ok, ok, err,
}

-- The states of an upload and of its version, and the values that go with them.
abbrev pub Agree : ReservationState → ReservationRow → ObjectVersionRecord → Type 0
Agree ReservationState.requested r v =
    (v.state ≡ UploadState.pending) × (r.received_size ≡ none) × (r.received_checksum ≡ none)
Agree ReservationState.uploaded r v =
    (v.state ≡ UploadState.pending)
    × (r.received_size ≡ some r.expected_size)
    × (r.received_checksum ≡ some r.expected_checksum)
Agree ReservationState.complete r v =
    (v.state ≡ UploadState.complete)
    × (v.size ≡ some r.expected_size)
    × (v.checksum ≡ some r.expected_checksum)
Agree ReservationState.aborted r v = v.state ≡ UploadState.aborted

pub record IsLinked (id : Str) (db : Database) (r : ReservationRow) : Type 0 where
  pub own : r.version_id ≡ id
  pub version : ObjectVersionRecord
  pub found : find_version id db ≡ some version
  pub agrees : Agree r.state r version

-- Every reservation has a version of its own id, in the state that fits its own.
abbrev pub IsConsistent : Database → Type 0
IsConsistent db =
    (id : Str) (r : ReservationRow) → find_reservation id db ≡ some r → IsLinked id db r

-- Nothing but the rows of one upload has changed.
abbrev pub TouchesOnly : Str → Database → Database → Type 0
TouchesOnly id db db' =
    (j : Str)
    → str_eq j id ≡ false
    → (find_reservation j db' ≡ find_reservation j db) × (find_version j db' ≡ find_version j db)

pub IsConsistent-of_touch :
    (id : Str) (db db' : Database)
    → IsConsistent db
    → TouchesOnly id db db'
    → ((r : ReservationRow) → find_reservation id db' ≡ some r → IsLinked id db' r)
    → IsConsistent db'
IsConsistent-of_touch id db db' inv same own j r found = elim (Bool-cases (str_eq j id)) [
  | inl here ↦ let e : j ≡ id = (str_eq_iff j id).0 here in rw e (own r (rw e at found))
  | inr apart ↦
      let (rows, versions) = same j apart in
      let l = inv j r (sym rows ∙ found) in
      record { own = l.own; version = l.version; found = versions ∙ l.found; agrees = l.agrees }
]

-- The rows that a chain has read which begins with `reservation_by_id`, and the rest of it.
pub reservation_by_id-bind {ℓ} :
    {B : Type ℓ} (id : Str) (db : Database) (f : UploadReservationRecord → Result B RepositoryError)
    (b : B)
    → (reservation_by_id id db >>= f) ≡ ok b
    → (r : ReservationRow) × (v : ObjectVersionRecord) × (find_reservation id db ≡ some r)
      × (find_version r.version_id db ≡ some v)
      × (f (reservation_record r v) ≡ ok b)
unfolding reservation_by_id joined
reservation_by_id-bind id db f b h = elim (Option-cases (find_reservation id db)) [
  | inl unknown ↦ let bad : err not_found ≡ ok b = rw unknown at h in absurd (cc)
  | inr (r, row) ↦
      let h1 : ((ok_or (find_version r.version_id db) not_found >>= λ v.
      ok (reservation_record r v))
            >>= f)
          ≡ ok b =
        rw row at h in
      elim (Option-cases (find_version r.version_id db)) [
        | inl gone ↦ let bad : err not_found ≡ ok b = rw gone at h1 in absurd (cc)
        | inr (v, ver) ↦ (r, v, row, ver, rw ver at h1)
      ]
]

pub changed_once-eq-ok : (n : ℕ) → changed_once n ≡ ok tt → n ≡ 1
unfolding changed_once
changed_once-eq-ok n h = (==_iff n 1).0 (guard-eq-ok (n == 1) conflict h)

-- An update of one reservation that reports one change.
module _ (id : Str) (test : ReservationRow → Bool) (change : ReservationRow → ReservationRow)
    (keeps : (r : ReservationRow) → (change r).id ≡ r.id) (db db' : Database)
    (h : update_reservation id test change db ≡ ok db') where
  pub update_reservation_rows :
      db'
      ≡ record db { reservations = (update_row reservation_key id test change db.reservations).1 }
  update_reservation_rows =
      let (once, e) =
        >>-eq-ok (changed_once (update_row reservation_key id test change db.reservations).0) _ h in
      cc

  pub update_reservation_found :
      (r : ReservationRow) × (find_reservation id db ≡ some r)
      × (test r ≡ true)
      × (find_reservation id db' ≡ some (change r))
  update_reservation_found =
      let (once, e) =
        >>-eq-ok (changed_once (update_row reservation_key id test change db.reservations).0) _ h in
      let (r, found, passed) =
        update_row-eq-one reservation_key id test change db.reservations
          (changed_once-eq-ok _ once) in
      (r, found, passed, rw update_reservation_rows (rw (find_row-update_row_self, found, passed)))

  pub update_reservation_touch : TouchesOnly id db db'
  update_reservation_touch j apart =
      rw update_reservation_rows
        (find_row-update_row_ne reservation_key j id test change db.reservations keeps apart, refl)

  pub update_reservation_versions : (j : Str) → find_version j db' ≡ find_version j db
  update_reservation_versions j = rw update_reservation_rows

-- An update of one pending version that reports one change.
module _ (id : Str) (change : ObjectVersionRecord → ObjectVersionRecord)
    (keeps : (v : ObjectVersionRecord) → (change v).id ≡ v.id) (db db' : Database)
    (h : update_version id change db ≡ ok db') where
  pub update_version_rows : db' ≡ record db {
    versions = (update_row version_key id (λ v. is_pending v.state) change db.versions).1;
  }
  update_version_rows =
      let (once, e) =
        >>-eq-ok
          (changed_once (update_row version_key id (λ v. is_pending v.state) change db.versions).0)
          _ h in
      cc

  pub update_version_found :
      (v : ObjectVersionRecord) × (find_version id db ≡ some v)
      × (is_pending v.state ≡ true)
      × (find_version id db' ≡ some (change v))
  update_version_found =
      let (once, e) =
        >>-eq-ok
          (changed_once (update_row version_key id (λ v. is_pending v.state) change db.versions).0)
          _ h in
      let (v, found, passed) =
        update_row-eq-one version_key id (λ v. is_pending v.state) change db.versions
          (changed_once-eq-ok _ once) in
      (v, found, passed, rw update_version_rows (rw (find_row-update_row_self, found, passed)))

  pub update_version_touch : TouchesOnly id db db'
  update_version_touch j apart = rw update_version_rows (
    refl,
    find_row-update_row_ne version_key j id (λ v. is_pending v.state) change db.versions keeps
        apart,
  )

  pub update_version_reservations : (j : Str) → find_reservation j db' ≡ find_reservation j db
  update_version_reservations j = rw update_version_rows
