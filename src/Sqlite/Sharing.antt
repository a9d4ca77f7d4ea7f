-- ===== src/Sqlite/Sharing.antt =====
-- Public shares: `crates/blobyard-repository-sqlite/src/sharing.rs` and `sharing_queries.rs`, with
-- the audit events of `lifecycle_audit.rs` that their changes write.
mod Tables
pub mod Audit
pub mod Rows
pub mod Limits
pub mod Counting
pub mod Tests
pub use Tables.*
use blobyard_core.Contract.{
  Repo, RepositoryError, not_found, conflict, invalid_input, NewDownloadGrant, StoredObjectRecord,
  ObjectVersionRecord, checksum_valid, is_complete,
}
use blobyard_core.Sqlite.Database.{
  ReservationRow, DownloadRow, Database, i64_max, to_i64, optional_i64, validate_text,
  validate_texts, changed_once,
}
use blobyard_core.Sqlite.Table.{find_row, update_row, insert_row}
use blobyard_core.Sqlite.Transfers.{find_version}
use blobyard_core.Sqlite.Transfers.Downloads.{stored_object}
use blobyard_core.Sqlite.Sharing.Audit.{NewAuditEvent, text_value, metadata_is, insert_event}
use blobyard_core.Base.{
  ℕ, zero, suc, ◌+◌, ◌-◌, ◌*◌, ◌/◌, ◌%◌, ◌^◌, ◌≤◌, ◌<◌, min, max, ◌≡◌, refl, sym, ap, ◌∙◌, ◌≡⟨◌⟩◌,
  ◌∎, ◌≢◌, ◌↔◌, ◌⊎◌, inl, inr, Bool, true, false, not, ◌&&◌, ◌||◌, Option, none, some, List, [],
  ◌∷◌, ◌++◌, map, reverse, reverse-cons, arith, ltb, leb, ◌==◌, if◌then◌else◌, ltb→lt, lt→ltb,
  leb→le, le→leb, ==_iff, tests, Bool-cases, Option-cases, length, is_empty, get_elem?, take, drop,
  all, any, keep, find?, length-append, All, Any, Str, lit, str_eq, str_eq_iff, str_eq_refl, str_lt,
  add_first, split, strip_prefix, is_digit, is_lower, is_upper, is_alphabetic, is_alphanumeric,
  Result, ok_or, ◌>>=◌, ◌>>◌, guard, ok-injective, guard-eq-ok, ok_or-eq-ok, >>=-eq-ok, >>-eq-ok,
  chars, is_control, is_whitespace, has_control, is_utf8, contains, set_insert, to_set, sort,
  lookup, has_key, contains-append, contains-reverse, contains-set_insert, contains-to_set,
  contains-sort, has_key_iff, has_key_of_lookup, has_key_of_none, first_is, last_is, split_once,
  rsplit_once, strip_suffix, starts_with, ends_with, is_some_and, is_none_or, one_of, ok, err,
  text_runs,
}

abbrev pub find_share : Str → ShareDatabase → Option ShareRow
find_share id db = find_row share_key id db.shares

-- `sharing_queries::share_by_id`.
unfoldable pub share_by_id : Str → ShareDatabase → Repo ShareRecord
share_by_id id db = ok_or (find_share id db) not_found >>= λ s. ok (share_record s)

pub record ShareTimes : Type 0 where
  pub expires : ℕ
  pub maximum_downloads : Option ℕ
  pub created : ℕ

unfoldable pub validate_capability : Str → Repo (Unit {0})
validate_capability value = guard (checksum_valid value) invalid_input

unfoldable pub validate_new_share : NewShare → Repo ShareTimes
validate_new_share share = do
  validate_texts (share.id ∷ share.workspace_id ∷ share.version_id ∷ [])
  validate_capability share.capability_hash
  expires ← to_i64 share.expires_at_ms
  maximum ← optional_i64 share.maximum_downloads
  created ← to_i64 share.created_at_ms
  guard
      (ltb share.created_at_ms share.expires_at_ms
        && is_none_or share.maximum_downloads (λ n. not (n == 0)))
      invalid_input
  ok (record { expires = expires; maximum_downloads = maximum; created = created })

unfoldable pub validate_event : NewAuditEvent → Str → Str → Str → ℕ → Repo (Unit {0})
validate_event event action share_id workspace_id created_at_ms =
    guard
      (str_eq event.action action
        && str_eq event.target_type (lit "share")
        && str_eq event.workspace_id workspace_id
        && event.created_at_ms == created_at_ms
        && metadata_is event (lit "shareId") share_id)
      invalid_input

abbrev pub workspace_of : Str → ShareDatabase → Option Str
workspace_of project db = lookup project db.workspaces

-- The version is complete, and its project is in the workspace.
abbrev pub is_shareable : ShareDatabase → Str → ObjectVersionRecord → Bool
is_shareable db workspace v =
    is_complete v.state && is_some_and (workspace_of v.project_id db) (λ w. str_eq w workspace)

abbrev pub new_share_row : NewShare → ShareTimes → ShareRow
new_share_row share times = record {
  id = share.id;
  workspace_id = share.workspace_id;
  version_id = some share.version_id;
  capability_hash = share.capability_hash;
  expires_at_ms = times.expires;
  status = active;
  consumed_count = 0;
  maximum_downloads = times.maximum_downloads;
  created_at_ms = times.created;
  revoked_at_ms = none;
}

-- `INSERT … SELECT`: no selected row is not found, a repeated key a conflict.
unfoldable pub insert_share : NewShare → ShareTimes → ShareDatabase → Repo (List ShareRow)
insert_share share times db = do
  version ← ok_or (find_version share.version_id db.uploads) not_found
  guard (is_shareable db share.workspace_id version) not_found
  guard (not (any (λ (s : ShareRow). str_eq s.capability_hash share.capability_hash) db.shares))
      conflict
  ok_or (insert_row share_key (new_share_row share times) db.shares) conflict

unfoldable pub create_share :
    NewShare → NewAuditEvent → ShareDatabase → Repo (ShareRecord × ShareDatabase)
create_share share event db = do
  times ← validate_new_share share
  validate_event event (lit "share.created") share.id share.workspace_id share.created_at_ms
  rows ← insert_share share times db
  events ← insert_event event db.events
  let db' : ShareDatabase = record db { shares = rows; events = events }
  result ← share_by_id share.id db'
  ok (result, db')

abbrev pub usable : Bool → ShareStatus → Bool
usable require_download active = true
usable require_download exhausted = not require_download
usable require_download revoked = false

-- `target_by_capability`; `capability_hash` is unique, so that the first row is the row.
unfoldable pub target_by_capability : Str → ℕ → Bool → ShareDatabase → Repo ShareTarget
target_by_capability capability now require_download db = do
  share ←
      ok_or
        (find?
          (λ (s : ShareRow).
            str_eq s.capability_hash capability
            && ltb now s.expires_at_ms
            && usable require_download s.status)
          db.shares)
        not_found
  version_id ← ok_or share.version_id not_found
  version ← ok_or (find_version version_id db.uploads) not_found
  guard (is_complete version.state) not_found
  reservation ←
      ok_or (find? (λ (r : ReservationRow). str_eq r.version_id version.id) db.uploads.reservations)
        not_found
  ok (record { share = share_record share; object = stored_object version reservation })

unfoldable pub share_by_capability : Str → ℕ → ShareDatabase → Repo ShareTarget
share_by_capability capability now_ms db = do
  validate_capability capability
  now ← to_i64 now_ms
  target_by_capability capability now false db

unfoldable pub validate_grant : NewDownloadGrant → ℕ → Repo (Unit {0})
validate_grant grant now_ms = do
  validate_text grant.version_id
  guard (checksum_valid grant.capability_hash) invalid_input
  guard (ltb now_ms grant.expires_at_ms) invalid_input

abbrev pub is_spent : Option ℕ → ℕ → Bool
is_spent none n = false
is_spent (some maximum) n = maximum == n

abbrev pub consumed : ShareRow → ShareRow
consumed s = record s {
  consumed_count = s.consumed_count + 1;
  status = if is_spent s.maximum_downloads (s.consumed_count + 1) then exhausted else active;
}

abbrev pub within_maximum : ShareRow → Bool
within_maximum s = is_none_or s.maximum_downloads (λ m. leb s.consumed_count m)

abbrev pub can_consume : ShareRow → Bool
can_consume s = is_active s.status && ltb s.consumed_count i64_max

-- The statement with `CHECK(consumed_count <= maximum_downloads)` on the row that it changes.
unfoldable pub consume : Str → List ShareRow → Repo (List ShareRow)
consume id shares = do
  guard
      (is_none_or (find_row share_key id shares)
        (λ s. not (can_consume s) || within_maximum (consumed s)))
      conflict
  let updated = update_row share_key id can_consume consumed shares
  guard (updated.0 == 1) invalid_input
  ok updated.1

-- `INSERT INTO download_grants`, whose primary key is the capability.
unfoldable pub insert_grant : NewDownloadGrant → ℕ → List DownloadRow → Repo (List DownloadRow)
insert_grant grant expires downloads =
    guard
      (not (any (λ (d : DownloadRow). str_eq d.capability_hash grant.capability_hash) downloads))
      conflict
    >> ok (
        downloads
        ++ record {
          capability_hash = grant.capability_hash;
          version_id = grant.version_id;
          expires_at_ms = expires;
        }
          ∷ [])

-- The target that the checks of the request and of the grant accept, and the grant's expiry.
unfoldable pub download_target :
    Str → ℕ → NewDownloadGrant → NewAuditEvent → ShareDatabase → Repo (ShareTarget × ℕ)
download_target capability now_ms grant event db = do
  validate_capability capability
  now ← to_i64 now_ms
  validate_grant grant now_ms
  target ← target_by_capability capability now true db
  expires ← to_i64 grant.expires_at_ms
  guard
      (str_eq grant.version_id target.object.version.id
        && leb grant.expires_at_ms target.share.expires_at_ms)
      invalid_input
  validate_event event (lit "share.download_issued") target.share.id target.share.workspace_id
      now_ms
  ok (target, expires)

unfoldable pub issue_share_download :
    Str → ℕ → NewDownloadGrant → NewAuditEvent → ShareDatabase → Repo (ShareTarget × ShareDatabase)
issue_share_download capability now_ms grant event db = do
  (target, expires) ← download_target capability now_ms grant event db
  downloads ← insert_grant grant expires db.uploads.downloads
  shares ← consume target.share.id db.shares
  events ← insert_event event db.events
  let uploads : Database = record db.uploads { downloads = downloads }
  let db' : ShareDatabase = record db { uploads = uploads; shares = shares; events = events }
  share ← share_by_id target.share.id db'
  ok (record target { share = share }, db')

abbrev pub revoked_row : ℕ → ShareRow → ShareRow
revoked_row at s = record s { status = revoked; revoked_at_ms = some at }

abbrev pub can_revoke : Str → ShareRow → Bool
can_revoke workspace s = str_eq s.workspace_id workspace && not (is_revoked s.status)

-- The statement with `CHECK(revoked_at_ms >= created_at_ms)` on the row that it changes.
unfoldable pub revoke_rows : Str → Str → ℕ → List ShareRow → Repo (List ShareRow)
revoke_rows id workspace at shares = do
  guard
      (is_none_or (find_row share_key id shares)
        (λ s. not (can_revoke workspace s) || leb s.created_at_ms at))
      conflict
  let updated = update_row share_key id (can_revoke workspace) (revoked_row at) shares
  changed_once updated.0
  ok updated.1

unfoldable pub revoke_active :
    Str → Str → ℕ → NewAuditEvent → ShareRecord → ShareDatabase → Repo (Bool × ShareDatabase)
revoke_active id workspace revoked_at_ms event share db = do
  validate_event event (lit "share.revoked") share.id share.workspace_id revoked_at_ms
  at ← to_i64 revoked_at_ms
  rows ← revoke_rows id workspace at db.shares
  events ← insert_event event db.events
  ok (true, record db { shares = rows; events = events })

unfoldable pub revoke_share :
    Str → Str → ℕ → NewAuditEvent → ShareDatabase → Repo (Bool × ShareDatabase)
revoke_share id workspace revoked_at_ms event db = do
  validate_texts (id ∷ workspace ∷ [])
  share ← share_by_id id db
  guard (str_eq share.workspace_id workspace) not_found
  if is_revoked share.status
      then ok (false, db)
      else revoke_active id workspace revoked_at_ms event share db
