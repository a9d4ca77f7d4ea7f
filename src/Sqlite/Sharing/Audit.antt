-- ===== src/Sqlite/Sharing/Audit.antt =====
-- Audit events: `validate` and `insert` of
-- `crates/blobyard-repository-sqlite/src/lifecycle_audit.rs`. The table keeps the metadata as JSON;
-- the model keeps it as it is.
use blobyard_core.Contract.{Repo, conflict, invalid_input}
use blobyard_core.Sqlite.Database.{to_i64, validate_text, validate_texts}
use blobyard_core.Base.{
  ℕ, Bool, false, not, ◌&&◌, Option, none, some, List, [], ◌∷◌, ◌++◌, any, Str, str_eq, ◌>>=◌, ◌>>◌,
  guard, contains, set_insert, is_some_and, ok,
}

pub data AuditValue : Type 0 where
  text : Str → AuditValue
  number : ℕ → AuditValue
  boolean : Bool → AuditValue
  null : AuditValue

pub record NewAuditEvent : Type 0 where
  pub id : Str
  pub workspace_id : Str
  pub actor : Str
  pub action : Str
  pub request_id : Str
  pub target_type : Str
  pub metadata : List (Str × AuditValue)
  pub created_at_ms : ℕ

abbrev pub text_value : AuditValue → Option Str
text_value (text s) = some s
text_value _ = none

-- The metadata is one text under one name.
abbrev metadata_pair : List (Str × AuditValue) → Str → Str → Bool
metadata_pair ((key, value) ∷ []) name expected =
    str_eq key name && is_some_and (text_value value) (λ s. str_eq s expected)
metadata_pair _ name expected = false

abbrev pub metadata_is : NewAuditEvent → Str → Str → Bool
metadata_is event name expected = metadata_pair event.metadata name expected

abbrev validate_value : AuditValue → Repo (Unit {0})
validate_value (text s) = validate_text s
validate_value _ = ok tt

-- `names` holds the names so far.
unfoldable pub validate_metadata : List Str → List (Str × AuditValue) → Repo (Unit {0})
validate_metadata names [] = ok tt
validate_metadata names ((name, value) ∷ metadata) = do
  validate_text name
  guard (not (contains name names)) invalid_input
  validate_value value
  validate_metadata (set_insert name names) metadata

unfoldable pub validate_audit : NewAuditEvent → Repo (Unit {0})
validate_audit event = do
  validate_texts (
      event.id ∷ event.workspace_id ∷ event.actor ∷ event.action ∷ event.request_id
      ∷ event.target_type ∷ [])
  validate_metadata [] event.metadata

-- `id` is unique.
unfoldable pub insert_event : NewAuditEvent → List NewAuditEvent → Repo (List NewAuditEvent)
insert_event event events = do
  validate_audit event
  created ← to_i64 event.created_at_ms
  guard (not (any (λ (e : NewAuditEvent). str_eq e.id event.id) events)) conflict
  ok (events ++ event ∷ [])
