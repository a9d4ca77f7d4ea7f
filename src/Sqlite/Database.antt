-- ===== src/Sqlite/Database.antt =====
-- The tables of `crates/blobyard-repository-sqlite/migrations` that uploads and downloads use, with
-- the columns that they read, and the checks of `rows.rs` and `transfer_validation.rs` on values.
-- A failing mutex or disk is not modelled: a statement fails by its constraints alone.
use blobyard_core.Contract.{
  Repo, conflict, invalid_input, ReservationStrategy, single, multipart, ReservationState,
  ObjectVersionRecord, NewUploadReservation, UploadReservationRecord, checksum_valid,
  storage_key_valid, div_ceil,
}
use blobyard_core.Base.{
  ℕ, Bool, true, false, not, ◌&&◌, ◌||◌, Option, none, some, List, [], ◌∷◌, ltb, leb, ◌==◌,
  if◌then◌else◌, length, is_empty, Str, ◌>>=◌, ◌>>◌, guard, has_control, ok, err,
}

pub data PartState : Type 0 where
  pending uploaded : PartState

-- A row of `upload_reservations`.
pub record ReservationRow : Type 0 where
  pub id : Str
  pub version_id : Str
  pub filename : Str
  pub content_type : Str
  pub expected_size : ℕ
  pub expected_checksum : Str
  pub capability_hash : Str
  pub expires_at_ms : ℕ
  pub state : ReservationState
  pub received_size : Option ℕ
  pub received_checksum : Option Str
  pub strategy : ReservationStrategy
  pub part_size : Option ℕ
  pub part_count : Option ℕ
  pub provider_upload_id : Option Str

-- A row of `upload_parts`.
pub record PartRow : Type 0 where
  pub upload_id : Str
  pub part_number : ℕ
  pub expected_size : ℕ
  pub capability_hash : Str
  pub expires_at_ms : ℕ
  pub state : PartState
  pub received_size : Option ℕ
  pub received_checksum : Option Str
  pub provider_tag : Option Str

pub record DownloadRow : Type 0 where
  pub capability_hash : Str
  pub version_id : Str
  pub expires_at_ms : ℕ

-- A row of `deletion_items` joined with its operation.
pub record DeletedVersion : Type 0 where
  pub project_id : Str
  pub object_path : Str
  pub version : ℕ

pub record Database : Type 0 where
  pub projects : List Str
  pub versions : List ObjectVersionRecord
  pub reservations : List ReservationRow
  pub parts : List PartRow
  pub downloads : List DownloadRow
  pub deleted : List DeletedVersion

abbrev pub version_key : ObjectVersionRecord → Str
version_key v = v.id

abbrev pub reservation_key : ReservationRow → Str
reservation_key r = r.id

abbrev pub i64_max : ℕ
i64_max = 9223372036854775807

unfoldable pub to_i64 : ℕ → Repo ℕ
to_i64 value = if leb value i64_max then ok value else err invalid_input

abbrev pub optional_i64 : Option ℕ → Repo (Option ℕ)
optional_i64 none = ok none
optional_i64 (some value) = to_i64 value >>= (λ v. ok (some v))

unfoldable pub text_valid : Str → Bool
text_valid value = not (is_empty value || ltb 512 (length value) || has_control value)

unfoldable pub validate_text : Str → Repo (Unit {0})
validate_text value = guard (text_valid value) invalid_input

unfoldable pub validate_texts : List Str → Repo (Unit {0})
validate_texts [] = ok tt
validate_texts (value ∷ values) = validate_text value >> validate_texts values

abbrev pub given : List (Option Str) → List Str
given [] = []
given (none ∷ values) = given values
given (some value ∷ values) = value ∷ given values

unfoldable pub validate_provenance : Option Str → Option Str → Option Str → Repo (Unit {0})
validate_provenance repository commit branch =
    validate_texts (given (repository ∷ commit ∷ branch ∷ []))

pub record ValidatedReservation : Type 0 where
  pub expected_size : ℕ
  pub expires_at_ms : ℕ
  pub created_at_ms : ℕ
  pub part_size : Option ℕ

abbrev pub maximum_parts : ℕ
maximum_parts = 10000

unfoldable pub strategy_valid : ReservationStrategy → Option ℕ → Option ℕ → ℕ → Bool
strategy_valid single none none expected_size = true
strategy_valid multipart (some size) (some count) expected_size =
    ltb 0 size && ltb 0 count && leb count maximum_parts && div_ceil expected_size size == count
strategy_valid _ _ _ expected_size = false

unfoldable pub validate_strategy : NewUploadReservation → Repo (Unit {0})
validate_strategy value =
    guard (strategy_valid value.strategy value.part_size value.part_count value.expected_size)
      invalid_input

unfoldable pub validate_reservation : NewUploadReservation → Repo ValidatedReservation
validate_reservation value = do
  validate_texts
      (value.id ∷ value.project_id ∷ value.object_path ∷ value.filename ∷ value.content_type ∷ [])
  guard (checksum_valid value.expected_checksum) invalid_input
  guard (checksum_valid value.capability_hash) invalid_input
  guard (storage_key_valid value.storage_key) invalid_input
  validate_provenance value.git_repository value.git_commit value.git_branch
  validate_strategy value
  created ← to_i64 value.created_at_ms
  expires ← to_i64 value.expires_at_ms
  guard (ltb created expires) invalid_input
  size ← to_i64 value.expected_size
  part_size ← optional_i64 value.part_size
  ok (record {
    expected_size = size;
    expires_at_ms = expires;
    created_at_ms = created;
    part_size = part_size;
  })

unfoldable pub validate_upload_integrity : Str → Str → Repo (Unit {0})
validate_upload_integrity id checksum =
    validate_text id >> guard (checksum_valid checksum) invalid_input

unfoldable pub validate_provider_upload_id : Str → Repo (Unit {0})
validate_provider_upload_id value =
    guard (not (is_empty value || ltb 4096 (length value) || has_control value)) invalid_input

unfoldable pub changed_once : ℕ → Repo (Unit {0})
changed_once n = guard (n == 1) conflict

-- `rows::upload_reservation`: the joined row of a reservation and its version.
abbrev pub reservation_record : ReservationRow → ObjectVersionRecord → UploadReservationRecord
reservation_record r v = record {
  id = r.id;
  version = v;
  filename = r.filename;
  content_type = r.content_type;
  expected_size = r.expected_size;
  expected_checksum = r.expected_checksum;
  expires_at_ms = r.expires_at_ms;
  state = r.state;
  strategy = r.strategy;
  part_size = r.part_size;
  part_count = r.part_count;
  provider_upload_id = r.provider_upload_id;
}
