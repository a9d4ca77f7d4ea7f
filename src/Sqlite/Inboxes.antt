-- ===== src/Sqlite/Inboxes.antt =====
-- Upload inboxes: `crates/blobyard-repository-sqlite/src/inboxes.rs` and `inbox_queries.rs`.
mod Tables
pub mod Uploads
pub mod Ledger
pub mod Settling
pub mod Keeping
pub mod Targets
pub mod Ending
pub mod Opening
pub mod Reserving
pub mod Owning
pub mod Revoking
pub mod Steps
pub mod Rates
mod Tests
pub use Tables.*
use blobyard_core.Contract.{
  Repo, not_found, conflict, invalid_input, UploadReservationRecord, checksum_valid,
}
use blobyard_core.Sqlite.Database.{to_i64, validate_text, validate_texts, changed_once}
use blobyard_core.Sqlite.Table.{find_row, update_row, insert_row}
use blobyard_core.Sqlite.Transfers.{reservation_by_id}
use blobyard_core.Sqlite.Sharing.{ShareDatabase, workspace_of, validate_capability}
use blobyard_core.Sqlite.Sharing.Audit.{NewAuditEvent, metadata_is, insert_event}
use blobyard_core.Base.{
  ℕ, zero, suc, ◌+◌, ◌-◌, ◌*◌, ◌/◌, ◌%◌, ◌^◌, ◌≤◌, ◌<◌, min, max, ◌≡◌, refl, sym, ap, ◌∙◌, ◌≡⟨◌⟩◌,
  ◌∎, ◌≢◌, ◌↔◌, ◌⊎◌, inl, inr, Bool, true, false, not, ◌&&◌, ◌||◌, Option, none, some, List, [],
  ◌∷◌, ◌++◌, map, reverse, reverse-cons, arith, ltb, leb, ◌==◌, if◌then◌else◌, ltb→lt, lt→ltb,
  leb→le, le→leb, ==_iff, tests, Bool-cases, Option-cases, length, is_empty, get_elem?, take, drop,
  all, any, keep, find?, place_by, order_by, length-append, All, Any, keep-keep-not, any-or,
  any-keep-not, any-implies, any-keep, find?-test, find?-keep, find?-append_last, keep_none,
  any_none, any-place_by, any-order_by, All-map, All-zip, All-of_any, any_of_All, All-of_append_map,
  keep_cong-All, keep_cong, any_cong, any_and, any-append, any-map, length-place_by,
  length-order_by, length-keep_images, length-drop, drop_elem, drop_end, get_elem?-lt,
  get_elem?-end, plus_one, plus_two, Str, lit, str_eq, str_eq_iff, str_eq_refl, str_lt, add_first,
  split, strip_prefix, is_digit, is_lower, is_upper, is_alphabetic, is_alphanumeric, Result, ok_or,
  ◌>>=◌, ◌>>◌, guard, ok-injective, guard-eq-ok, ok_or-eq-ok, >>=-eq-ok, >>-eq-ok, chars,
  is_control, is_whitespace, has_control, is_utf8, contains, set_insert, to_set, sort, lookup,
  has_key, contains-append, contains-reverse, contains-set_insert, contains-to_set, contains-sort,
  has_key_iff, has_key_of_lookup, has_key_of_none, first_is, last_is, split_once, rsplit_once,
  strip_suffix, starts_with, ends_with, is_some_and, is_none_or, one_of, ok, err, text_runs,
}

abbrev pub find_inbox : Str → InboxDatabase → Option InboxRow
find_inbox id db = find_row inbox_key id db.inboxes

abbrev pub find_link : Str → InboxDatabase → Option LinkRow
find_link id db = find_row link_key id db.links

unfoldable pub validate_name : Str → Repo (Unit {0})
validate_name value =
    validate_text value >> guard (leb (length value) 128 && not (has_control value)) invalid_input

-- `by_id`.
unfoldable pub inbox_by_id : Str → InboxDatabase → Repo InboxRecord
inbox_by_id id db = ok_or (find_inbox id db) not_found >>= λ i. ok (inbox_record i)

abbrev pub opens : Str → ℕ → InboxRow → Bool
opens capability now i =
    str_eq i.capability_hash capability && is_open_inbox i.status && ltb now i.expires_at_ms

-- `capability_hash` is unique, so that the first row is the row.
unfoldable pub active_by_capability : Str → ℕ → InboxDatabase → Repo InboxRecord
active_by_capability capability now db =
    ok_or (find? (opens capability now) db.inboxes) not_found >>= λ i. ok (inbox_record i)

unfoldable pub inbox_by_capability : Str → ℕ → InboxDatabase → Repo InboxRecord
inbox_by_capability capability now_ms db = do
  validate_capability capability
  now ← to_i64 now_ms
  active_by_capability capability now db

abbrev pub link_opens : Str → ℕ → InboxDatabase → LinkRow → Bool
link_opens capability now db l = is_some_and (find_inbox l.inbox_id db) (opens capability now)

-- `upload`: the link and its inbox, joined.
unfoldable pub upload_of : Str → Str → ℕ → InboxDatabase → Repo UploadReservationRecord
upload_of capability id now db = do
  guard (is_some_and (find_link id db) (link_opens capability now db)) not_found
  reservation_by_id id db.stored.uploads

unfoldable pub inbox_upload_by_id : Str → Str → ℕ → InboxDatabase → Repo UploadReservationRecord
inbox_upload_by_id capability id now_ms db = do
  validate_capability capability
  validate_text id
  now ← to_i64 now_ms
  upload_of capability id now db

-- `ORDER BY created_at_ms DESC, id DESC`.
abbrev pub newer_inbox : InboxRow → InboxRow → Bool
newer_inbox i j =
    ltb j.created_at_ms i.created_at_ms || (j.created_at_ms == i.created_at_ms && str_lt j.id i.id)

unfoldable pub list_inboxes : Str → InboxDatabase → Repo (List InboxRecord)
list_inboxes project db = do
  validate_text project
  ok (
      map inbox_record
        (order_by newer_inbox (keep (λ (i : InboxRow). str_eq i.project_id project) db.inboxes)))

pub record ValidatedInbox : Type 0 where
  pub expires_at_ms : ℕ
  pub maximum_files : ℕ
  pub maximum_bytes : ℕ
  pub created_at_ms : ℕ

unfoldable pub validate_new_inbox : NewInbox → Repo ValidatedInbox
validate_new_inbox inbox = do
  validate_texts (inbox.id ∷ inbox.workspace_id ∷ inbox.project_id ∷ [])
  validate_name inbox.name
  validate_capability inbox.capability_hash
  created ← to_i64 inbox.created_at_ms
  expires ← to_i64 inbox.expires_at_ms
  guard (not (leb expires created || inbox.maximum_files == 0 || inbox.maximum_bytes == 0))
      invalid_input
  files ← to_i64 inbox.maximum_files
  bytes ← to_i64 inbox.maximum_bytes
  ok (record {
    expires_at_ms = expires;
    maximum_files = files;
    maximum_bytes = bytes;
    created_at_ms = created;
  })

unfoldable pub validate_inbox_event : NewAuditEvent → Str → Str → Str → ℕ → Repo (Unit {0})
validate_inbox_event event action inbox_id workspace_id created_at_ms =
    guard
      (str_eq event.action action
        && str_eq event.target_type (lit "inbox")
        && str_eq event.workspace_id workspace_id
        && event.created_at_ms == created_at_ms
        && metadata_is event (lit "inboxId") inbox_id)
      invalid_input

abbrev pub new_inbox_row : NewInbox → ValidatedInbox → InboxRow
new_inbox_row inbox values = record {
  id = inbox.id;
  workspace_id = inbox.workspace_id;
  project_id = inbox.project_id;
  name = inbox.name;
  capability_hash = inbox.capability_hash;
  expires_at_ms = values.expires_at_ms;
  status = active;
  current_files = 0;
  current_bytes = 0;
  reserved_files = 0;
  reserved_bytes = 0;
  maximum_files = values.maximum_files;
  maximum_bytes = values.maximum_bytes;
  created_at_ms = values.created_at_ms;
  revoked_at_ms = none;
}

-- `INSERT … SELECT`: no project of the workspace is not found, a repeated key a conflict.
unfoldable pub insert_inbox : NewInbox → ValidatedInbox → InboxDatabase → Repo (List InboxRow)
insert_inbox inbox values db = do
  guard (is_some_and (workspace_of inbox.project_id db.stored) (λ w. str_eq w inbox.workspace_id))
      not_found
  guard (not (any (λ (i : InboxRow). str_eq i.capability_hash inbox.capability_hash) db.inboxes))
      conflict
  ok_or (insert_row inbox_key (new_inbox_row inbox values) db.inboxes) conflict

unfoldable pub create_inbox :
    NewInbox → NewAuditEvent → InboxDatabase → Repo (InboxRecord × InboxDatabase)
create_inbox inbox event db = do
  values ← validate_new_inbox inbox
  validate_inbox_event event (lit "inbox.created") inbox.id inbox.workspace_id inbox.created_at_ms
  rows ← insert_inbox inbox values db
  events ← insert_event event db.stored.events
  let db' : InboxDatabase = record db {
    stored = record db.stored { events = events };
    inboxes = rows;
  }
  result ← inbox_by_id inbox.id db'
  ok (result, db')

abbrev pub closed : ℕ → InboxRow → InboxRow
closed at i = record i { status = revoked; revoked_at_ms = some at }

abbrev pub can_close : Str → InboxRow → Bool
can_close workspace i = str_eq i.workspace_id workspace && is_open_inbox i.status

-- `revoke_inbox` on an inbox that is open.
unfoldable pub close_inbox :
    Str → Str → ℕ → NewAuditEvent → InboxRecord → InboxDatabase → Repo (Bool × InboxDatabase)
close_inbox id workspace revoked_at_ms event inbox db = do
  validate_inbox_event event (lit "inbox.revoked") inbox.id inbox.workspace_id revoked_at_ms
  at ← to_i64 revoked_at_ms
  guard (leb inbox.created_at_ms revoked_at_ms) invalid_input
  let updated = update_row inbox_key id (can_close workspace) (closed at) db.inboxes
  changed_once updated.0
  events ← insert_event event db.stored.events
  ok (true, record db { stored = record db.stored { events = events }; inboxes = updated.1 })

unfoldable pub revoke_inbox :
    Str → Str → ℕ → NewAuditEvent → InboxDatabase → Repo (Bool × InboxDatabase)
revoke_inbox id workspace revoked_at_ms event db = do
  validate_texts (id ∷ workspace ∷ [])
  inbox ← inbox_by_id id db
  guard (str_eq inbox.workspace_id workspace) not_found
  if is_open_inbox inbox.status
      then close_inbox id workspace revoked_at_ms event inbox db
      else ok (false, db)
