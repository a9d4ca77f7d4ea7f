-- ===== src/Sqlite/Transfers/Granting.antt =====
-- What a download grant gives: `crates/blobyard-repository-sqlite/src/transfer_downloads.rs`.
use blobyard_core.Contract.{
  not_found, conflict, invalid_input, ObjectVersionRecord, NewDownloadGrant, checksum_valid,
  is_complete,
}
use blobyard_core.Sqlite.Database.{
  ReservationRow, DownloadRow, Database, version_key, i64_max, to_i64, validate_text,
}
use blobyard_core.Sqlite.Table.{find_row-key}
use blobyard_core.Sqlite.Transfers.{find_version}
use blobyard_core.Sqlite.Transfers.Lifecycle.{to_i64-eq-ok}
use blobyard_core.Sqlite.Transfers.Downloads.{
  download_row, issue_download, stored_object, download_by_capability,
}
use blobyard_core.Base.{
  ℕ, ◌≤◌, ◌<◌, ◌≡◌, sym, true, false, not, ◌&&◌, some, List, [], ◌∷◌, ◌++◌, arith, ltb, lt→ltb, any,
  find?, Str, str_eq, str_eq_refl, ok_or, guard, ok-injective, guard-eq-ok, ok_or-eq-ok, >>=-eq-ok,
  >>-eq-ok, ok,
}

-- The last of some rows is the first with its capability.
find_granted :
    (capability : Str) (now : ℕ) (rows : List DownloadRow) (new : DownloadRow)
    → any (λ (d : DownloadRow). str_eq d.capability_hash capability) rows ≡ false
    → str_eq new.capability_hash capability ≡ true
    → ltb now new.expires_at_ms ≡ true
    → find?
        (λ (d : DownloadRow). str_eq d.capability_hash capability && ltb now d.expires_at_ms)
        (rows ++ new ∷ [])
      ≡ some new
find_granted capability now [] new fresh own early = rw (own, early)
find_granted capability now (d ∷ rows) new fresh own early =
    let other : str_eq d.capability_hash capability ≡ false = ground arith in
    let rest : any (λ (d : DownloadRow). str_eq d.capability_hash capability) rows ≡ false =
      ground arith in
    rw other (find_granted capability now rows new rest own early)

-- The row that a grant adds, and what it was made from.
download_row-eq-ok :
    (grant : NewDownloadGrant) (db : Database) (row : DownloadRow)
    → download_row grant db ≡ ok row
    → (v : ObjectVersionRecord) × (find_version grant.version_id db ≡ some v)
      × (is_complete v.state ≡ true)
      × (checksum_valid grant.capability_hash ≡ true)
      × (any (λ (d : DownloadRow). str_eq d.capability_hash grant.capability_hash) db.downloads
          ≡ false)
      × (row ≡ record {
        capability_hash = grant.capability_hash;
        version_id = v.id;
        expires_at_ms = grant.expires_at_ms;
      })
unfolding download_row
download_row-eq-ok grant db row h =
    let (named, h1) = >>-eq-ok (validate_text grant.version_id) _ h in
    let (hashed, h2) = >>-eq-ok (guard (checksum_valid grant.capability_hash) invalid_input) _ h1 in
    let (expires, fits, h3) = >>=-eq-ok (to_i64 grant.expires_at_ms) _ h2 in
    let (v, found, h4) = >>=-eq-ok (ok_or (find_version grant.version_id db) not_found) _ h3 in
    let (done, h5) = >>-eq-ok (guard (is_complete v.state) not_found) _ h4 in
    let (fresh, h6) =
      >>-eq-ok
        (guard
          (not (
            any (λ (d : DownloadRow). str_eq d.capability_hash grant.capability_hash) db.downloads))
          conflict)
        _ h5 in
    let unused =
      guard-eq-ok
        (not
          (any (λ (d : DownloadRow). str_eq d.capability_hash grant.capability_hash) db.downloads))
        conflict fresh in
    let same = ok-injective _ _ h6 in
    (
      v,
      ok_or-eq-ok (find_version grant.version_id db) not_found found,
      guard-eq-ok (is_complete v.state) not_found done,
      guard-eq-ok (checksum_valid grant.capability_hash) invalid_input hashed,
      ground arith,
      rw (sym (to_i64-eq-ok grant.expires_at_ms expires fits)) (sym same),
    )

-- A grant that was issued resolves, at any time in the range of `i64` before it expires, to the
-- complete version that it names, with the name and the type of the version's first reservation,
-- where it has one.
pub issue_download-download_by_capability :
    (grant : NewDownloadGrant) (db db' : Database) (now : ℕ) (r : ReservationRow)
    → issue_download grant db ≡ ok db'
    → now < grant.expires_at_ms
    → now ≤ i64_max
    → find? (λ (r : ReservationRow). str_eq r.version_id grant.version_id) db.reservations ≡ some r
    → (v : ObjectVersionRecord) × (find_version grant.version_id db ≡ some v)
      × (is_complete v.state ≡ true)
      × (download_by_capability grant.capability_hash now db' ≡ ok (stored_object v r))
unfolding issue_download download_by_capability
issue_download-download_by_capability grant db db' now r h early small reserved =
    let (row, made, h1) = >>=-eq-ok (download_row grant db) _ h in
    let after = ok-injective _ _ h1 in
    let (v, found, done, hashed, fresh, shape) = download_row-eq-ok grant db row made in
    let own : v.id ≡ grant.version_id =
      find_row-key version_key grant.version_id db.versions v found in
    let narrow : to_i64 now ≡ ok now = unfold to_i64 in ground arith in
    let resolved =
      find_granted grant.capability_hash now db.downloads
        (record {
          capability_hash = grant.capability_hash;
          version_id = v.id;
          expires_at_ms = grant.expires_at_ms;
        })
        fresh (str_eq_refl grant.capability_hash) (lt→ltb now grant.expires_at_ms early) in
    (
      v,
      found,
      done,
      rw (sym after, shape, hashed, narrow, resolved, own, found, done, own, reserved),
    )
