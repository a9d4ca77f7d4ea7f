-- ===== src/Sqlite/Transfers/GrantTests.antt =====
-- A run of `crates/blobyard-repository-sqlite/src/transfer_downloads.rs` on a complete upload.
use blobyard_core.Contract.{ObjectVersionRecord, NewDownloadGrant, is_complete}
use blobyard_core.Sqlite.Database.{Database, ReservationRow}
use blobyard_core.Sqlite.Transfers.{find_version}
use blobyard_core.Sqlite.Transfers.Downloads.{
  download_row, issue_download, stored_object, download_by_capability,
}
use blobyard_core.Sqlite.Transfers.Granting.{issue_download-download_by_capability}
use blobyard_core.Sqlite.Transfers.Tests.{digest, upload_a, finished, done_row, transfer_runs}
use blobyard_core.Base.{◌≡◌, refl, true, some, [], ◌∷◌, arith, find?, str_eq, ok}

abbrev pass : NewDownloadGrant
pass = record { version_id = upload_a; capability_hash = digest; expires_at_ms = 3000 }

abbrev granted : Database
granted = record finished {
  downloads = record { capability_hash = digest; version_id = upload_a; expires_at_ms = 3000 } ∷ [];
}

run_grant : issue_download pass finished ≡ ok granted
unfolding transfer_runs download_row issue_download
run_grant = refl

reserved_first :
    find? (λ (r : ReservationRow). str_eq r.version_id upload_a) finished.reservations
    ≡ some done_row
unfolding str_eq
reserved_first = refl

issue_download-download_by_capability_example :
    (v : ObjectVersionRecord) × (find_version upload_a finished ≡ some v)
    × (is_complete v.state ≡ true)
    × (download_by_capability digest 2500 granted ≡ ok (stored_object v done_row))
issue_download-download_by_capability_example =
    issue_download-download_by_capability pass finished granted 2500 done_row run_grant
      (omega arith) (omega arith) reserved_first
