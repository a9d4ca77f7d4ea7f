-- ===== src/Sqlite/Transfers/Multipart.antt =====
-- The parts of a multipart upload: `crates/blobyard-repository-sqlite/src/transfer_multipart.rs`.
-- Part numbers are `u32` and sizes `u64`, kept as natural numbers; the products of
-- `expected_part_size` saturate at `u64::MAX` as in the source.
use blobyard_core.Contract.{
  Repo, conflict, not_found, invalid_input, NewUploadPartGrant, UploadPartRecord,
  UploadReservationRecord, checksum_valid, is_requested, is_multipart,
}
use blobyard_core.Sqlite.Database.{
  PartState, ReservationRow, PartRow, Database, reservation_key, to_i64, validate_text,
  validate_upload_integrity, validate_provider_upload_id,
}
use blobyard_core.Sqlite.Table.{update_row}
use blobyard_core.Sqlite.Transfers.{find_reservation, reservation_by_id}
use blobyard_core.Base.{
  ℕ, ◌-◌, ◌*◌, min, Bool, true, false, not, ◌&&◌, Option, none, some, List, [], ◌∷◌, ltb, leb, ◌==◌,
  if◌then◌else◌, length, all, any, keep, find?, Str, str_eq, ◌>>=◌, ◌>>◌, guard, ok_or, is_some_and,
  is_none_or, ok, err,
}

abbrev pub u64_max : ℕ
u64_max = 18446744073709551615

abbrev pub sized : Bool → Option ℕ → Option ℕ → Repo (ℕ × ℕ)
sized true (some size) (some count) = ok (size, count)
sized _ _ _ = err conflict

-- `require_multipart`: the part size and the part count.
unfoldable pub require_multipart : UploadReservationRecord → Repo (ℕ × ℕ)
require_multipart upload =
    sized (is_requested upload.state && is_multipart upload.strategy) upload.part_size
      upload.part_count

abbrev pub with_provider_id : Str → ReservationRow → ReservationRow
with_provider_id provider r = record r { provider_upload_id = some provider }

abbrev pub unattached : ReservationRow → Bool
unattached r = is_requested r.state && is_none_or r.provider_upload_id (λ p. false)

-- The case of `attach` on the identifier that is there. The count of changed rows is not read.
unfoldable pub attach_new : Str → Str → Database → Repo (UploadReservationRecord × Database)
attach_new id provider db =
    let rows =
      update_row reservation_key id unattached (with_provider_id provider) db.reservations in
    let db' : Database = record db { reservations = rows.1 } in
    reservation_by_id id db' >>= λ u. ok (u, db')

-- An identifier that is there already is not replaced.
unfoldable pub attach_known :
    Option Str
    → Str
    → Str
    → UploadReservationRecord
    → Database
    → Repo (UploadReservationRecord × Database)
attach_known none id provider current db = attach_new id provider db
attach_known (some existing) id provider current db =
    if str_eq existing provider then ok (current, db) else err conflict

unfoldable pub attach : Str → Str → Database → Repo (UploadReservationRecord × Database)
attach id provider db = do
  validate_text id
  validate_provider_upload_id provider
  current ← reservation_by_id id db
  require_multipart current >>= λ _. attach_known current.provider_upload_id id provider current db

number_in : ℕ → List NewUploadPartGrant → Bool
number_in n parts = any (λ (p : NewUploadPartGrant). p.part_number == n) parts

distinct_numbers : List NewUploadPartGrant → Bool
unfolding number_in
distinct_numbers [] = true
distinct_numbers (p ∷ parts) = not (number_in p.part_number parts) && distinct_numbers parts

unfoldable pub batch_valid : List NewUploadPartGrant → Bool
unfolding distinct_numbers
batch_valid [] = false
batch_valid (p ∷ parts) =
    leb (length (p ∷ parts)) 100
    && all (λ (q : NewUploadPartGrant). str_eq q.upload_id p.upload_id) (p ∷ parts)
    && distinct_numbers (p ∷ parts)

unfoldable pub expected_part_size : ℕ → ℕ → ℕ → ℕ
expected_part_size expected_size number size =
    min (expected_size - min ((number - 1) * size) u64_max) size

-- `validate_part`: the same values, narrowed to `i64`.
unfoldable pub validate_part : NewUploadPartGrant → UploadReservationRecord → ℕ → ℕ → Repo (ℕ × ℕ)
validate_part part upload size count = do
  guard (checksum_valid part.capability_hash) invalid_input
  expected ← to_i64 part.expected_size
  expires ← to_i64 part.expires_at_ms
  guard
      (not (part.part_number == 0)
        && leb part.part_number count
        && part.expected_size == expected_part_size upload.expected_size part.part_number size)
      invalid_input
  ok (expected, expires)

abbrev pub part_at : Str → ℕ → PartRow → Bool
part_at upload number p = str_eq p.upload_id upload && p.part_number == number

-- `capability_hash` is unique over the table.
abbrev pub capability_taken : NewUploadPartGrant → PartRow → Bool
capability_taken part p =
    str_eq p.capability_hash part.capability_hash && not (part_at part.upload_id part.part_number p)

abbrev pub new_part_row : NewUploadPartGrant → ℕ → ℕ → PartRow
new_part_row part expected expires = record {
  upload_id = part.upload_id;
  part_number = part.part_number;
  expected_size = expected;
  capability_hash = part.capability_hash;
  expires_at_ms = expires;
  state = PartState.pending;
  received_size = none;
  received_checksum = none;
  provider_tag = none;
}

abbrev pub renewed_part : NewUploadPartGrant → ℕ → PartRow → PartRow
renewed_part part expires p = record p {
  capability_hash = part.capability_hash;
  expires_at_ms = expires;
}

-- The rows after `INSERT … ON CONFLICT(upload_id, part_number) DO UPDATE`.
unfoldable pub put_part : NewUploadPartGrant → ℕ → ℕ → List PartRow → List PartRow
put_part part expected expires [] = new_part_row part expected expires ∷ []
put_part part expected expires (p ∷ rows) =
    if part_at part.upload_id part.part_number p
    then renewed_part part expires p ∷ rows
    else p ∷ put_part part expected expires rows

-- `CHECK(expected_size > 0)` and the unique capability fail as conflicts.
unfoldable pub upsert_part : NewUploadPartGrant → ℕ → ℕ → List PartRow → Repo (List PartRow)
upsert_part part expected expires rows = do
  guard (ltb 0 expected) conflict
  guard (not (any (capability_taken part) rows)) conflict
  ok (put_part part expected expires rows)

unfoldable pub upsert_parts :
    List NewUploadPartGrant → UploadReservationRecord → ℕ → ℕ → List PartRow → Repo (List PartRow)
upsert_parts [] upload size count rows = ok rows
upsert_parts (part ∷ parts) upload size count rows = do
  validated ← validate_part part upload size count
  rows' ← upsert_part part validated.0 validated.1 rows
  upsert_parts parts upload size count rows'

abbrev pub part_record : PartRow → UploadPartRecord
part_record p = record {
  upload_id = p.upload_id;
  part_number = p.part_number;
  expected_size = p.expected_size;
  expires_at_ms = p.expires_at_ms;
  received_size = p.received_size;
  received_checksum = p.received_checksum;
  provider_tag = p.provider_tag;
}

place_part : UploadPartRecord → List UploadPartRecord → List UploadPartRecord
place_part p [] = p ∷ []
place_part p (q ∷ qs) = if ltb q.part_number p.part_number then q ∷ place_part p qs else p ∷ q ∷ qs

-- `WHERE upload_id = ?1 ORDER BY part_number`.
unfoldable pub parts_of : Str → List PartRow → List UploadPartRecord
unfolding place_part
parts_of upload [] = []
parts_of upload (p ∷ rows) =
    let rest = parts_of upload rows in
    if str_eq p.upload_id upload then place_part (part_record p) rest else rest

-- The part table after the batch, and the records that are returned.
unfoldable pub issued_rows :
    List NewUploadPartGrant → Database → Repo (List UploadPartRecord × List PartRow)
unfolding number_in
issued_rows [] db = err invalid_input
issued_rows (first ∷ others) db = do
  let parts = first ∷ others
  guard (batch_valid parts) invalid_input
  upload ← reservation_by_id first.upload_id db
  shape ← require_multipart upload
  rows ← upsert_parts parts upload shape.0 shape.1 db.parts
  ok (
    keep (λ (p : UploadPartRecord). number_in p.part_number parts) (parts_of upload.id rows),
    rows,
  )

unfoldable pub issue : List NewUploadPartGrant → Database → Repo (List UploadPartRecord × Database)
issue parts db = issued_rows parts db >>= λ p. ok (p.0, record db { parts = p.1 })

-- The part's reservation is still requested, and multipart.
abbrev pub part_open : Database → PartRow → Bool
part_open db p =
    is_some_and (find_reservation p.upload_id db)
      (λ r. is_requested r.state && is_multipart r.strategy)

unfoldable pub part_by_capability :
    Str → ℕ → Database → Repo (UploadReservationRecord × UploadPartRecord)
part_by_capability capability now_ms db = do
  guard (checksum_valid capability) invalid_input
  now ← to_i64 now_ms
  part ←
      ok_or
        (find?
          (λ (p : PartRow).
            str_eq p.capability_hash capability && ltb now p.expires_at_ms && part_open db p)
          db.parts)
        not_found
  upload ← reservation_by_id part.upload_id db
  ok (upload, part_record part)

abbrev pub received_part : ℕ → Str → Option Str → PartRow → PartRow
received_part size checksum tag p = record p {
  state = PartState.uploaded;
  received_size = some size;
  received_checksum = some checksum;
  provider_tag = tag;
}

abbrev pub update_parts : Str → ℕ → (PartRow → PartRow) → List PartRow → List PartRow
update_parts upload number change [] = []
update_parts upload number change (p ∷ rows) =
    (if part_at upload number p then change p else p) ∷ update_parts upload number change rows

abbrev pub validate_tag : Option Str → Repo (Unit {0})
validate_tag none = ok tt
validate_tag (some tag) = validate_text tag

-- The part that the bytes are for, of the size that it expects.
unfoldable pub expected_part : Str → ℕ → ℕ → Str → Option Str → Database → Repo PartRow
expected_part upload number size checksum tag db = do
  validate_upload_integrity upload checksum
  validate_tag tag
  guard (not (number == 0)) invalid_input
  part ←
      ok_or (find? (λ (p : PartRow). part_at upload number p && part_open db p) db.parts) not_found
  stored ← to_i64 size
  guard (part.expected_size == stored) invalid_input
  ok part

unfoldable pub record_part : Str → ℕ → ℕ → Str → Option Str → Database → Repo Database
record_part upload number size checksum tag db =
    expected_part upload number size checksum tag db >>= λ part. ok (record db {
      parts = update_parts upload number (received_part part.expected_size checksum tag) db.parts;
    })

unfoldable pub list_parts : Str → Database → Repo (List UploadPartRecord)
list_parts upload db = do
  validate_text upload
  reservation_by_id upload db >>= λ _. ok (parts_of upload db.parts)
