-- ===== src/Sqlite/Transfers/Tests.antt =====
-- Runs of the upload operations of `crates/blobyard-repository-sqlite/src/transfers.rs` on one
-- small database.
use blobyard_core.Contract.{
  ObjectSource, ReservationState, ReservationStrategy, ObjectVersionRecord, NewUploadReservation,
  valid_relative_path, storage_key_valid, checksum_valid,
}
use blobyard_core.Sqlite.Database.{
  ReservationRow, Database, to_i64, text_valid, validate_text, validate_texts, validate_provenance,
  strategy_valid, validate_strategy, validate_reservation, ValidatedReservation,
  validate_upload_integrity, changed_once, reservation_record,
}
use blobyard_core.Sqlite.Table.{find_row, update_row, insert_row}
use blobyard_core.Sqlite.Transfers.{
  find_version, find_reservation, joined, reservation_by_id, ensure_project, max_live, max_deleted,
  next_version, insert_version, insert_reservation, reserve, new_reservation_row, new_version_row,
  record_uploaded_bytes, received, complete_upload, completed, completed_version, abort_upload,
  is_open, aborted_row, aborted_version, renew_upload,
}
use blobyard_core.Sqlite.Transfers.Rows.{IsConsistent, TouchesOnly}
use blobyard_core.Sqlite.Transfers.Lifecycle.{complete_upload_lem, abort_upload_lem}
use blobyard_core.Sqlite.Transfers.Paired.{DropsParts}
use blobyard_core.Sqlite.Transfers.Arrival.{record_uploaded_bytes_lem}
use blobyard_core.Sqlite.Transfers.Versions.{IsNewest, reserve_lem}
use blobyard_core.Sqlite.Transfers.Steps.{
  Run, start, onward, reserving, receiving, completing, Run-IsConsistent, finished_final,
}
use blobyard_core.Base.{ℕ, ◌≡◌, refl, true, none, some, [], ◌∷◌, Str, lit, ok, text_runs}

unfoldable pub transfer_runs : Unit {0}
unfolding text_runs valid_relative_path storage_key_valid checksum_valid to_i64 text_valid
    validate_text validate_texts validate_provenance strategy_valid validate_strategy
    validate_reservation validate_upload_integrity changed_once find_row update_row insert_row
    joined reservation_by_id ensure_project max_live max_deleted next_version insert_version
    insert_reservation reserve record_uploaded_bytes complete_upload abort_upload renew_upload
transfer_runs = tt

abbrev pub digest : Str
digest = lit "0123456789abcdef0123456789abcdef0123456789abcdef0123456789abcdef"

abbrev pub other_digest : Str
other_digest = lit "fedcba9876543210fedcba9876543210fedcba9876543210fedcba9876543210"

abbrev pub upload_a : Str
upload_a = lit "upload-a"

abbrev upload_b : Str
upload_b = lit "upload-b"

abbrev pub request : Str → Str → Str → NewUploadReservation
request id key capability = record {
  id = id;
  project_id = lit "project";
  object_path = lit "site/index.html";
  filename = lit "index.html";
  content_type = lit "text/html";
  expected_size = 5;
  expected_checksum = digest;
  storage_key = key;
  capability_hash = capability;
  expires_at_ms = 2000;
  created_at_ms = 1000;
  source = ObjectSource.cli;
  git_repository = none;
  git_commit = none;
  git_branch = none;
  strategy = ReservationStrategy.single;
  part_size = none;
  part_count = none;
}

abbrev pub first : NewUploadReservation
first = request upload_a (lit "key/a") digest

abbrev second : NewUploadReservation
second = request upload_b (lit "key/b") other_digest

abbrev no_uploads : Database
no_uploads = record {
  projects = lit "project" ∷ [];
  versions = [];
  reservations = [];
  parts = [];
  downloads = [];
  deleted = [];
}

abbrev validated_first : ValidatedReservation
validated_first = record {
  expected_size = 5;
  expires_at_ms = 2000;
  created_at_ms = 1000;
  part_size = none;
}

abbrev row_a : ReservationRow
row_a = new_reservation_row first validated_first

abbrev version_a : ObjectVersionRecord
version_a = new_version_row first 1 1000

abbrev reserved : Database
reserved = record no_uploads { reservations = row_a ∷ []; versions = version_a ∷ [] }

abbrev arrived : Database
arrived = record reserved { reservations = received 5 digest row_a ∷ [] }

abbrev pub done_row : ReservationRow
done_row = completed (received 5 digest row_a)

abbrev pub done_version : ObjectVersionRecord
done_version = completed_version 5 digest version_a

abbrev pub finished : Database
finished = record reserved { reservations = done_row ∷ []; versions = done_version ∷ [] }

abbrev dropped : Database
dropped = record reserved {
  reservations = aborted_row row_a ∷ [];
  versions = aborted_version version_a ∷ [];
}

-- The second version of the same path.
abbrev row_b : ReservationRow
row_b = new_reservation_row second validated_first

abbrev version_b : ObjectVersionRecord
version_b = new_version_row second 2 1000

abbrev both : Database
both = record finished {
  reservations = done_row ∷ row_b ∷ [];
  versions = done_version ∷ version_b ∷ [];
}

run_reserve : reserve first no_uploads ≡ ok (reservation_record row_a version_a, reserved)
unfolding transfer_runs
run_reserve = refl

run_receive : record_uploaded_bytes upload_a 5 digest reserved ≡ ok arrived
unfolding transfer_runs
run_receive = refl

run_complete : complete_upload upload_a arrived ≡ ok (done_version, finished)
unfolding transfer_runs
run_complete = refl

run_abort : abort_upload upload_a reserved ≡ ok (reservation_record row_a version_a, dropped)
unfolding transfer_runs
run_abort = refl

run_again : reserve second finished ≡ ok (reservation_record row_b version_b, both)
unfolding transfer_runs
run_again = refl

consistent : IsConsistent no_uploads
unfolding find_row
consistent id r found = absurd (cc)

to_arrived : Run no_uploads arrived
to_arrived =
    onward (onward start (reserving first (reservation_record row_a version_a) run_reserve))
      (receiving upload_a 5 digest run_receive)

to_finished : Run no_uploads finished
to_finished = onward to_arrived (completing upload_a done_version run_complete)

Run-IsConsistent_example : IsConsistent finished
Run-IsConsistent_example = Run-IsConsistent no_uploads finished consistent to_finished

found_done : find_reservation upload_a finished ≡ some done_row
unfolding transfer_runs
found_done = refl

finished_final_example :
    (find_reservation upload_a both ≡ some done_row)
    × (find_version upload_a both ≡ find_version upload_a finished)
finished_final_example =
    finished_final finished both upload_a done_row
      (Run-IsConsistent no_uploads finished consistent to_finished)
      (onward start (reserving second (reservation_record row_b version_b) run_again)) found_done
      refl

complete_upload_lem_example :
    (r : ReservationRow) × (w : ObjectVersionRecord) × (find_reservation upload_a arrived ≡ some r)
    × (r.state ≡ ReservationState.uploaded)
    × (find_version upload_a arrived ≡ some w)
    × (find_reservation upload_a finished ≡ some (completed r))
    × (find_version upload_a finished ≡ some done_version)
    × (done_version ≡ completed_version r.expected_size r.expected_checksum w)
    × TouchesOnly upload_a arrived finished
    × (finished
        ≡ record arrived { reservations = finished.reservations; versions = finished.versions })
complete_upload_lem_example =
    complete_upload_lem upload_a arrived done_version finished
      (Run-IsConsistent no_uploads arrived consistent to_arrived) run_complete

abort_upload_lem_example :
    (r : ReservationRow) × (w : ObjectVersionRecord) × (find_reservation upload_a reserved ≡ some r)
    × (is_open r.state ≡ true)
    × (find_version upload_a reserved ≡ some w)
    × (reservation_record row_a version_a ≡ reservation_record r w)
    × (find_reservation upload_a dropped ≡ some (aborted_row r))
    × (find_version upload_a dropped ≡ some (aborted_version w))
    × TouchesOnly upload_a reserved dropped
    × DropsParts upload_a reserved.parts dropped.parts
    × (dropped ≡ record reserved {
      reservations = dropped.reservations;
      versions = dropped.versions;
      parts = dropped.parts;
    })
abort_upload_lem_example =
    abort_upload_lem upload_a reserved (reservation_record row_a version_a) dropped
      (Run-IsConsistent no_uploads reserved consistent
        (onward start (reserving first (reservation_record row_a version_a) run_reserve)))
      run_abort

record_uploaded_bytes_lem_example :
    (r : ReservationRow) × (find_reservation upload_a reserved ≡ some r)
    × (r.state ≡ ReservationState.requested)
    × (r.expected_size ≡ 5)
    × (r.expected_checksum ≡ digest)
    × (find_reservation upload_a arrived ≡ some (received 5 digest r))
    × ((j : Str) → find_version j arrived ≡ find_version j reserved)
    × TouchesOnly upload_a reserved arrived
record_uploaded_bytes_lem_example =
    record_uploaded_bytes_lem upload_a 5 digest reserved arrived run_receive

reserve_lem_example :
    (validated : ValidatedReservation) × (n : ℕ) × (find_reservation upload_b finished ≡ none)
    × (find_version upload_b finished ≡ none)
    × IsNewest (lit "project") (lit "site/index.html") n finished
    × (find_reservation upload_b both ≡ some (new_reservation_row second validated))
    × (find_version upload_b both ≡ some (new_version_row second n validated.created_at_ms))
    × TouchesOnly upload_b finished both
    × (both ≡ record finished { reservations = both.reservations; versions = both.versions })
reserve_lem_example =
    reserve_lem second finished (reservation_record row_b version_b) both run_again
