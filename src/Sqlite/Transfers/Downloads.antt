-- ===== src/Sqlite/Transfers/Downloads.antt =====
-- Download grants: `crates/blobyard-repository-sqlite/src/transfer_downloads.rs`.
use blobyard_core.Contract.{
  Repo, not_found, conflict, invalid_input, ObjectVersionRecord, NewDownloadGrant,
  StoredObjectRecord, checksum_valid, is_complete,
}
use blobyard_core.Sqlite.Database.{ReservationRow, DownloadRow, Database, to_i64, validate_text}
use blobyard_core.Base.{
  ℕ, not, ◌&&◌, [], ◌∷◌, ◌++◌, ltb, any, find?, Str, str_eq, ok_or, ◌>>=◌, ◌>>◌, guard, ok,
}
use blobyard_core.Sqlite.Transfers.{find_version}

-- The row that `INSERT … SELECT … WHERE state = 'complete'` adds.
unfoldable pub download_row : NewDownloadGrant → Database → Repo DownloadRow
download_row grant db = do
  validate_text grant.version_id
  guard (checksum_valid grant.capability_hash) invalid_input
  expires ← to_i64 grant.expires_at_ms
  version ← ok_or (find_version grant.version_id db) not_found
  guard (is_complete version.state) not_found
  guard
      (not (any (λ (d : DownloadRow). str_eq d.capability_hash grant.capability_hash) db.downloads))
      conflict
  ok (record {
    capability_hash = grant.capability_hash;
    version_id = version.id;
    expires_at_ms = expires;
  })

unfoldable pub issue_download : NewDownloadGrant → Database → Repo Database
issue_download grant db =
    download_row grant db >>= λ row. ok (record db { downloads = db.downloads ++ row ∷ [] })

-- `rows::stored_object`.
abbrev pub stored_object : ObjectVersionRecord → ReservationRow → StoredObjectRecord
stored_object v r = record { version = v; filename = r.filename; content_type = r.content_type }

unfoldable pub download_by_capability : Str → ℕ → Database → Repo StoredObjectRecord
download_by_capability capability now_ms db = do
  guard (checksum_valid capability) invalid_input
  now ← to_i64 now_ms
  row ←
      ok_or
        (find? (λ (d : DownloadRow). str_eq d.capability_hash capability && ltb now d.expires_at_ms)
          db.downloads)
        not_found
  version ← ok_or (find_version row.version_id db) not_found
  guard (is_complete version.state) not_found
  reservation ←
      ok_or (find? (λ (r : ReservationRow). str_eq r.version_id version.id) db.reservations)
        not_found
  ok (stored_object version reservation)
