-- ===== src/Contract.antt =====
-- The records and errors of `crates/blobyard-contract/src/{repository,transfers,storage,lib}.rs`.
-- A `u64` or `u32` is a natural number; where the source narrows one to an `i64` the model tests it.
use blobyard_core.Base.{
  ℕ, ◌+◌, ◌-◌, ◌/◌, Bool, true, false, not, ◌&&◌, ◌||◌, Option, [], ◌∷◌, leb, ◌==◌, length,
  is_empty, all, any, Str, lit, split, is_digit, Result, has_control, first_is, last_is, one_of,
}

pub data RepositoryError : Type 0 where
  not_found conflict invalid_input schema_too_new unavailable : RepositoryError

abbrev pub Repo : Type 0 → Type 0
Repo A = Result A RepositoryError

pub data UploadState : Type 0 where
  pending complete aborted : UploadState

pub data ObjectSource : Type 0 where
  ci cli inbox preview web : ObjectSource

pub data ReservationStrategy : Type 0 where
  single multipart : ReservationStrategy

pub data ReservationState : Type 0 where
  requested uploaded complete aborted : ReservationState

abbrev pub is_pending : UploadState → Bool
is_pending pending = true
is_pending _ = false

abbrev pub is_complete : UploadState → Bool
is_complete complete = true
is_complete _ = false

abbrev pub is_requested : ReservationState → Bool
is_requested requested = true
is_requested _ = false

abbrev pub is_uploaded : ReservationState → Bool
is_uploaded uploaded = true
is_uploaded _ = false

abbrev pub is_multipart : ReservationStrategy → Bool
is_multipart multipart = true
is_multipart _ = false

abbrev pub is_inbox : ObjectSource → Bool
is_inbox inbox = true
is_inbox _ = false

pub record ObjectVersionRecord : Type 0 where
  pub id : Str
  pub project_id : Str
  pub object_path : Str
  pub version : ℕ
  pub storage_key : Str
  pub state : UploadState
  pub size : Option ℕ
  pub checksum : Option Str
  pub created_at_ms : ℕ
  pub source : ObjectSource
  pub git_repository : Option Str
  pub git_commit : Option Str
  pub git_branch : Option Str

pub record NewUploadReservation : Type 0 where
  pub id : Str
  pub project_id : Str
  pub object_path : Str
  pub filename : Str
  pub content_type : Str
  pub expected_size : ℕ
  pub expected_checksum : Str
  pub storage_key : Str
  pub capability_hash : Str
  pub expires_at_ms : ℕ
  pub created_at_ms : ℕ
  pub source : ObjectSource
  pub git_repository : Option Str
  pub git_commit : Option Str
  pub git_branch : Option Str
  pub strategy : ReservationStrategy
  pub part_size : Option ℕ
  pub part_count : Option ℕ

pub record NewUploadPartGrant : Type 0 where
  pub upload_id : Str
  pub part_number : ℕ
  pub expected_size : ℕ
  pub capability_hash : Str
  pub expires_at_ms : ℕ

pub record UploadPartRecord : Type 0 where
  pub upload_id : Str
  pub part_number : ℕ
  pub expected_size : ℕ
  pub expires_at_ms : ℕ
  pub received_size : Option ℕ
  pub received_checksum : Option Str
  pub provider_tag : Option Str

pub record NewDownloadGrant : Type 0 where
  pub version_id : Str
  pub capability_hash : Str
  pub expires_at_ms : ℕ

pub record UploadReservationRecord : Type 0 where
  pub id : Str
  pub version : ObjectVersionRecord
  pub filename : Str
  pub content_type : Str
  pub expected_size : ℕ
  pub expected_checksum : Str
  pub expires_at_ms : ℕ
  pub state : ReservationState
  pub strategy : ReservationStrategy
  pub part_size : Option ℕ
  pub part_count : Option ℕ
  pub provider_upload_id : Option Str

pub record StoredObjectRecord : Type 0 where
  pub version : ObjectVersionRecord
  pub filename : Str
  pub content_type : Str

-- `is_valid_relative_path`.
unfoldable pub valid_relative_path : Str → ℕ → Bool
valid_relative_path value maximum_bytes =
    not (is_empty value)
    && leb (length value) maximum_bytes
    && not (first_is (λ b. b == b'/') value)
    && not (last_is (λ b. b == b'/') value)
    && not (any (λ b. b == 0x5c) value)
    && not (has_control value)
    && all (λ segment. not (is_empty segment) && not (one_of (lit "." ∷ lit ".." ∷ []) segment))
        (split b'/' value)

-- `StorageKey::new` succeeds.
unfoldable pub storage_key_valid : Str → Bool
storage_key_valid value = valid_relative_path value 512

abbrev pub is_lower_hex : ℕ → Bool
is_lower_hex b = is_digit b || (leb b'a' b && leb b b'f')

-- `ObjectChecksum::new` succeeds.
unfoldable pub checksum_valid : Str → Bool
checksum_valid value = length value == 64 && all is_lower_hex value

-- `size.div_ceil(part)`; the callers have ruled the zero divisor out.
abbrev pub div_ceil : ℕ → ℕ → ℕ
div_ceil size part = (size + (part - 1)) / part
