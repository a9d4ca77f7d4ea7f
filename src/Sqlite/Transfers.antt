-- ===== src/Sqlite/Transfers.antt =====
-- The upload operations of `crates/blobyard-repository-sqlite/src/{transfers,transfer_reservations,
-- transfer_validation}.rs`. An operation that fails leaves the
-- database as it was: the transaction is dropped.
pub mod Downloads
pub mod Multipart
pub mod Rows
pub mod Paired
pub mod Lifecycle
pub mod Arrival
pub mod Versions
pub mod Attach
pub mod Granting
pub mod Steps
pub mod Deleted
pub mod Tests
pub mod GrantTests
use mathlib.Core.Option
use blobyard_core.Contract.{
  Repo, RepositoryError, not_found, conflict, invalid_input, unavailable, UploadState, ObjectSource,
  ReservationStrategy, ReservationState, ObjectVersionRecord, NewUploadReservation,
  NewDownloadGrant, StoredObjectRecord, UploadReservationRecord, checksum_valid, is_pending,
  is_complete, is_requested, is_uploaded,
}
use blobyard_core.Sqlite.Database.{
  ReservationRow, PartRow, DownloadRow, DeletedVersion, Database, version_key, reservation_key,
  i64_max, to_i64, validate_text, validate_reservation, ValidatedReservation,
  validate_upload_integrity, changed_once, reservation_record,
}
use blobyard_core.Sqlite.Table.{find_row, update_row, insert_row}
use blobyard_core.Base.{
  ℕ, zero, suc, ◌+◌, ◌-◌, ◌*◌, ◌/◌, ◌%◌, ◌^◌, ◌≤◌, ◌<◌, min, max, ◌≡◌, refl, sym, ap, ◌∙◌, ◌≡⟨◌⟩◌,
  ◌∎, ◌≢◌, ◌↔◌, ◌⊎◌, inl, inr, Bool, true, false, not, ◌&&◌, ◌||◌, Option, none, some, List, [],
  ◌∷◌, ◌++◌, map, reverse, reverse-cons, arith, ltb, leb, ◌==◌, if◌then◌else◌, ltb→lt, lt→ltb,
  leb→le, le→leb, ==_iff, tests, Bool-cases, Option-cases, length, is_empty, get_elem?, take, drop,
  all, any, keep, find?, length-append, All, Any, Str, lit, str_eq, str_eq_iff, str_eq_refl, str_lt,
  add_first, split, strip_prefix, is_digit, is_lower, is_upper, is_alphabetic, is_alphanumeric,
  Result, ok_or, ◌>>=◌, ◌>>◌, guard, ok-injective, guard-eq-ok, ok_or-eq-ok, >>=-eq-ok, >>-eq-ok,
  chars, is_control, is_whitespace, has_control, is_utf8, contains, set_insert, to_set, sort,
  lookup, has_key, contains-append, contains-reverse, contains-set_insert, contains-to_set,
  contains-sort, has_key_iff, has_key_of_lookup, has_key_of_none, first_is, last_is, split_once,
  rsplit_once, strip_suffix, starts_with, ends_with, is_some_and, is_none_or, one_of, ok, err,
  text_runs,
}

abbrev pub find_version : Str → Database → Option ObjectVersionRecord
find_version id db = find_row version_key id db.versions

abbrev pub find_reservation : Str → Database → Option ReservationRow
find_reservation id db = find_row reservation_key id db.reservations

-- The row joined with its version; no row where the version is missing.
unfoldable pub joined : Database → ReservationRow → Repo UploadReservationRecord
joined db r = ok_or (find_version r.version_id db) not_found >>= λ v. ok (reservation_record r v)

-- `transfer_reservations::by_id`.
unfoldable pub reservation_by_id : Str → Database → Repo UploadReservationRecord
reservation_by_id id db = ok_or (find_reservation id db) not_found >>= λ r. joined db r

abbrev pub text_in : Str → List Str → Bool
text_in x ys = any (λ y. str_eq y x) ys

unfoldable pub ensure_project : Str → Database → Repo (Unit {0})
ensure_project id db = guard (text_in id db.projects) not_found

-- `MAX(version)` of one object path, over the live versions and over the deleted ones.
unfoldable pub max_live : Str → Str → List ObjectVersionRecord → ℕ
max_live project path [] = 0
max_live project path (v ∷ rows) =
    if str_eq v.project_id project && str_eq v.object_path path
    then max v.version (max_live project path rows)
    else max_live project path rows

unfoldable pub max_deleted : Str → Str → List DeletedVersion → ℕ
max_deleted project path [] = 0
max_deleted project path (v ∷ rows) =
    if str_eq v.project_id project && str_eq v.object_path path
    then max v.version (max_deleted project path rows)
    else max_deleted project path rows

-- The sum is an `i64`; past its range it is no integer, and the row does not convert.
unfoldable pub next_version : NewUploadReservation → Database → Repo ℕ
next_version value db =
    let version =
      max (max_live value.project_id value.object_path db.versions)
        (max_deleted value.project_id value.object_path db.deleted)
      + 1 in
    if leb version i64_max then ok version else err unavailable

-- The `UNIQUE` constraints of `object_versions` beside its primary key.
abbrev pub same_place : NewUploadReservation → ℕ → ObjectVersionRecord → Bool
same_place value version v =
    str_eq v.storage_key value.storage_key
    || (str_eq v.project_id value.project_id
        && str_eq v.object_path value.object_path
        && v.version == version)

abbrev pub new_version_row : NewUploadReservation → ℕ → ℕ → ObjectVersionRecord
new_version_row value version created_at_ms = record {
  id = value.id;
  project_id = value.project_id;
  object_path = value.object_path;
  version = version;
  storage_key = value.storage_key;
  state = UploadState.pending;
  size = none;
  checksum = none;
  created_at_ms = created_at_ms;
  source = value.source;
  git_repository = value.git_repository;
  git_commit = value.git_commit;
  git_branch = value.git_branch;
}

unfoldable pub insert_version : NewUploadReservation → ℕ → ℕ → Database → Repo Database
insert_version value version created_at_ms db = do
  guard (not (any (same_place value version) db.versions)) conflict
  rows ←
      ok_or (insert_row version_key (new_version_row value version created_at_ms) db.versions)
        conflict
  ok (record db { versions = rows })

abbrev pub new_reservation_row : NewUploadReservation → ValidatedReservation → ReservationRow
new_reservation_row value validated = record {
  id = value.id;
  version_id = value.id;
  filename = value.filename;
  content_type = value.content_type;
  expected_size = validated.expected_size;
  expected_checksum = value.expected_checksum;
  capability_hash = value.capability_hash;
  expires_at_ms = validated.expires_at_ms;
  state = ReservationState.requested;
  received_size = none;
  received_checksum = none;
  strategy = value.strategy;
  part_size = validated.part_size;
  part_count = value.part_count;
  provider_upload_id = none;
}

abbrev pub clashes : NewUploadReservation → ReservationRow → Bool
clashes value r = str_eq r.version_id value.id || str_eq r.capability_hash value.capability_hash

unfoldable pub insert_reservation :
    NewUploadReservation → ValidatedReservation → Database → Repo Database
insert_reservation value validated db = do
  guard (not (any (clashes value) db.reservations)) conflict
  rows ←
      ok_or (insert_row reservation_key (new_reservation_row value validated) db.reservations)
        conflict
  ok (record db { reservations = rows })

unfoldable pub reserve : NewUploadReservation → Database → Repo (UploadReservationRecord × Database)
reserve value db = do
  validated ← validate_reservation value
  ensure_project value.project_id db
  version ← next_version value db
  with_version ← insert_version value version validated.created_at_ms db
  with_both ← insert_reservation value validated with_version
  result ← reservation_by_id value.id with_both
  ok (result, with_both)

-- `capability_hash` is unique, so that the first row is the row.
unfoldable pub upload_by_capability : Str → ℕ → Database → Repo UploadReservationRecord
upload_by_capability capability now_ms db = do
  guard (checksum_valid capability) invalid_input
  now ← to_i64 now_ms
  row ←
      ok_or
        (find?
          (λ (r : ReservationRow).
            str_eq r.capability_hash capability && is_requested r.state && ltb now r.expires_at_ms)
          db.reservations)
        not_found
  joined db row

unfoldable pub upload_by_id : Str → Database → Repo UploadReservationRecord
upload_by_id id db = validate_text id >> reservation_by_id id db

-- `UPDATE upload_reservations SET … WHERE id = ?1 AND test`.
abbrev pub update_reservation :
    Str → (ReservationRow → Bool) → (ReservationRow → ReservationRow) → Database → Repo Database
update_reservation id test change db =
    let updated = update_row reservation_key id test change db.reservations in
    changed_once updated.0 >> ok (record db { reservations = updated.1 })

abbrev pub update_version :
    Str → (ObjectVersionRecord → ObjectVersionRecord) → Database → Repo Database
update_version id change db =
    let updated = update_row version_key id (λ v. is_pending v.state) change db.versions in
    changed_once updated.0 >> ok (record db { versions = updated.1 })

abbrev pub with_expiry : ℕ → ReservationRow → ReservationRow
with_expiry expires r = record r { expires_at_ms = expires }

unfoldable pub renew_upload : Str → ℕ → Database → Repo Database
renew_upload id expires_at_ms db = do
  validate_text id
  expires ← to_i64 expires_at_ms
  update_reservation id (λ r. is_requested r.state) (with_expiry expires) db

abbrev pub received : ℕ → Str → ReservationRow → ReservationRow
received size checksum r = record r {
  state = ReservationState.uploaded;
  received_size = some size;
  received_checksum = some checksum;
}

unfoldable pub record_uploaded_bytes : Str → ℕ → Str → Database → Repo Database
record_uploaded_bytes id size checksum db = do
  validate_upload_integrity id checksum
  stored_size ← to_i64 size
  current ← reservation_by_id id db
  guard (current.expected_size == size && str_eq current.expected_checksum checksum) invalid_input
  guard (is_requested current.state) conflict
  update_reservation id (λ r. is_requested r.state) (received stored_size checksum) db

-- `update_reservation_state(.., "uploaded", "complete", false)`.
abbrev pub completed : ReservationRow → ReservationRow
completed r = record r { state = ReservationState.complete }

abbrev pub completed_version : ℕ → Str → ObjectVersionRecord → ObjectVersionRecord
completed_version size checksum v = record v {
  state = UploadState.complete;
  size = some size;
  checksum = some checksum;
}

unfoldable pub complete_upload : Str → Database → Repo (ObjectVersionRecord × Database)
complete_upload id db = do
  validate_text id
  reservation ← reservation_by_id id db
  guard (is_uploaded reservation.state) conflict
  marked ← update_reservation id (λ r. is_uploaded r.state) completed db
  finished ←
      update_version reservation.version.id
        (completed_version reservation.expected_size reservation.expected_checksum) marked
  version ← ok_or (find_version reservation.version.id finished) not_found
  ok (version, finished)

abbrev pub is_open : ReservationState → Bool
is_open ReservationState.requested = true
is_open ReservationState.uploaded = true
is_open _ = false

abbrev pub same_state : ReservationState → ReservationState → Bool
same_state ReservationState.requested s = is_requested s
same_state ReservationState.uploaded s = is_uploaded s
same_state ReservationState.complete ReservationState.complete = true
same_state ReservationState.aborted ReservationState.aborted = true
same_state _ _ = false

-- `update_reservation_state(.., "aborted", true)`.
abbrev pub aborted_row : ReservationRow → ReservationRow
aborted_row r = record r {
  state = ReservationState.aborted;
  received_size = none;
  received_checksum = none;
}

abbrev pub aborted_version : ObjectVersionRecord → ObjectVersionRecord
aborted_version v = record v { state = UploadState.aborted }

abbrev pub without_parts : Str → Database → Database
without_parts id db = record db {
  parts = keep (λ (p : PartRow). not (str_eq p.upload_id id)) db.parts;
}

unfoldable pub abort_upload : Str → Database → Repo (UploadReservationRecord × Database)
abort_upload id db = do
  validate_text id
  reservation ← reservation_by_id id db
  guard (is_open reservation.state) conflict
  marked ← update_reservation id (λ r. same_state reservation.state r.state) aborted_row db
  finished ← update_version reservation.version.id aborted_version (without_parts id marked)
  ok (reservation, finished)
