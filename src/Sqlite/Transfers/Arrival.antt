-- ===== src/Sqlite/Transfers/Arrival.antt =====
-- What receiving bytes and renewing an upload do to its rows:
-- `crates/blobyard-repository-sqlite/src/transfers.rs`.
use blobyard_core.Contract.{invalid_input, conflict, ReservationState, is_requested}
use blobyard_core.Sqlite.Database.{
  ReservationRow, Database, to_i64, validate_text, validate_upload_integrity,
}
use blobyard_core.Sqlite.Transfers.{
  find_version, find_reservation, with_expiry, renew_upload, received, record_uploaded_bytes,
  update_reservation,
}
use blobyard_core.Sqlite.Transfers.Rows.{
  TouchesOnly, reservation_by_id-bind, update_reservation_found, update_reservation_touch,
  update_reservation_versions,
}
use blobyard_core.Base.{
  ℕ, ◌≡◌, refl, ap, ◌∙◌, ◌&&◌, some, arith, ◌==◌, Str, str_eq, str_eq_iff, guard, guard-eq-ok,
  >>=-eq-ok, >>-eq-ok, ok,
}
use blobyard_core.Sqlite.Transfers.Lifecycle.{state_of_requested, to_i64-eq-ok}

-- Receiving the bytes of an upload succeeds only in the state `requested` and for the very size
-- and checksum that were reserved; it marks the reservation uploaded with them, and changes no
-- version and no other upload.
pub record_uploaded_bytes_lem :
    (id : Str) (size : ℕ) (checksum : Str) (db db' : Database)
    → record_uploaded_bytes id size checksum db ≡ ok db'
    → (r : ReservationRow) × (find_reservation id db ≡ some r)
      × (r.state ≡ ReservationState.requested)
      × (r.expected_size ≡ size)
      × (r.expected_checksum ≡ checksum)
      × (find_reservation id db' ≡ some (received size checksum r))
      × ((j : Str) → find_version j db' ≡ find_version j db)
      × TouchesOnly id db db'
unfolding record_uploaded_bytes
record_uploaded_bytes_lem id size checksum db db' h =
    let (valid, h1) = >>-eq-ok (validate_upload_integrity id checksum) _ h in
    let (stored, fits, h2) = >>=-eq-ok (to_i64 size) _ h1 in
    let (r, w, row, ver, h3) = reservation_by_id-bind id db _ db' h2 in
    let (matches, h4) =
      >>-eq-ok
        (guard (r.expected_size == size && str_eq r.expected_checksum checksum) invalid_input) _
        h3 in
    let (state, mark) = >>-eq-ok (guard (is_requested r.state) conflict) _ h4 in
    let same =
      guard-eq-ok (r.expected_size == size && str_eq r.expected_checksum checksum) invalid_input
        matches in
    let mark' : update_reservation id (λ r. is_requested r.state) (received size checksum) db
        ≡ ok db' =
      rw (to_i64-eq-ok size stored fits) at mark in
    let (s, found, passed, after) =
      update_reservation_found id (λ r. is_requested r.state) (received size checksum) (λ r. refl)
        db db' mark' in
    let s' : s ≡ r = cc (found, row) in
    (
      r,
      row,
      state_of_requested r.state (guard-eq-ok (is_requested r.state) conflict state),
      ground (arith, same),
      (str_eq_iff r.expected_checksum checksum).0 (ground (arith, same)),
      after ∙ ap (λ (x : ReservationRow). some (received size checksum x)) s',
      update_reservation_versions id (λ r. is_requested r.state) (received size checksum)
          (λ r. refl) db db' mark',
      update_reservation_touch id (λ r. is_requested r.state) (received size checksum) (λ r. refl)
          db db' mark',
    )

-- Renewing changes the expiry of a requested upload alone.
pub renew_upload_lem :
    (id : Str) (expires : ℕ) (db db' : Database)
    → renew_upload id expires db ≡ ok db'
    → (r : ReservationRow) × (find_reservation id db ≡ some r)
      × (r.state ≡ ReservationState.requested)
      × (find_reservation id db' ≡ some (with_expiry expires r))
      × ((j : Str) → find_version j db' ≡ find_version j db)
      × TouchesOnly id db db'
unfolding renew_upload
renew_upload_lem id expires db db' h =
    let (valid, h1) = >>-eq-ok (validate_text id) _ h in
    let (stored, fits, mark) = >>=-eq-ok (to_i64 expires) _ h1 in
    let mark' : update_reservation id (λ r. is_requested r.state) (with_expiry expires) db
        ≡ ok db' =
      rw (to_i64-eq-ok expires stored fits) at mark in
    let (r, found, passed, after) =
      update_reservation_found id (λ r. is_requested r.state) (with_expiry expires) (λ r. refl) db
        db' mark' in
    (
      r,
      found,
      state_of_requested r.state passed,
      after,
      update_reservation_versions id (λ r. is_requested r.state) (with_expiry expires) (λ r. refl)
          db db' mark',
      update_reservation_touch id (λ r. is_requested r.state) (with_expiry expires) (λ r. refl) db
          db' mark',
    )
