-- ===== src/Sqlite/Lifecycle/Policies.antt =====
-- Retention policies and the runs that enforce them:
-- `crates/blobyard-repository-sqlite/src/lifecycle_retention.rs`.
use blobyard_core.Contract.{Repo, not_found, conflict, invalid_input}
use blobyard_core.Sqlite.Database.{to_i64, validate_text}
use blobyard_core.Sqlite.Table.{find_row, update_row}
use blobyard_core.Sqlite.Transfers.{text_in}
use blobyard_core.Sqlite.Sharing.{workspace_of}
use blobyard_core.Sqlite.Sharing.Audit.{NewAuditEvent, insert_event}
use blobyard_core.Sqlite.Lifecycle.{
  OperationRow, PolicyRow, RunRow, RunStatus, LifecycleDatabase, policy_key, run_key, is_done,
  is_retention,
}
use blobyard_core.Base.{
  ℕ, Bool, true, false, not, ◌&&◌, ◌||◌, Option, none, some, List, [], ◌∷◌, ◌++◌, map, ltb, leb,
  ◌==◌, if◌then◌else◌, length, is_empty, get_elem?, any, keep, order_by, Str, lit, str_eq, str_lt,
  split, ok_or, ◌>>=◌, ◌>>◌, guard, chars, is_whitespace, has_control, first_is, last_is,
  is_none_or, ok, err,
}

pub record RetentionPolicyRecord : Type 0 where
  pub project_id : Str
  pub keep_latest : ℕ
  pub path_glob : Option Str
  pub branch_glob : Option Str
  pub created_at_ms : ℕ
  pub updated_at_ms : ℕ

-- `policy_row`.
abbrev pub policy_record : PolicyRow → RetentionPolicyRecord
policy_record p = record {
  project_id = p.project_id;
  keep_latest = p.keep_latest;
  path_glob = p.path_glob;
  branch_glob = p.branch_glob;
  created_at_ms = p.created_at_ms;
  updated_at_ms = p.updated_at_ms;
}

abbrev pub enabled_policy : PolicyRow → Repo RetentionPolicyRecord
enabled_policy p = guard p.enabled not_found >> ok (policy_record p)

unfoldable pub policy : Str → LifecycleDatabase → Repo RetentionPolicyRecord
policy project db = do
  validate_text project
  row ← ok_or (find_row policy_key project db.policies) not_found
  enabled_policy row

-- `value.trim() != value`: the first or the last character is white space.
unfoldable pub trims : Str → Bool
trims value = first_is is_whitespace (chars value) || last_is is_whitespace (chars value)

unfoldable pub glob_invalid : Str → Bool → Bool
glob_invalid value path =
    is_empty value
    || ltb 256 (length value)
    || trims value
    || any (λ b. b == b'\\') value
    || has_control value
    || (path && (first_is (λ b. b == b'/') value || any (str_eq (lit "..")) (split b'/' value)))

unfoldable pub validate_glob : Option Str → Bool → Repo (Unit {0})
validate_glob none path = ok tt
validate_glob (some value) path = guard (not (glob_invalid value path)) invalid_input

unfoldable pub validate_policy : RetentionPolicyRecord → Repo (Unit {0})
validate_policy value = do
  validate_text value.project_id
  guard (not (value.keep_latest == 0 || ltb value.updated_at_ms value.created_at_ms)) invalid_input
  validate_glob value.path_glob true
  validate_glob value.branch_glob false

unfoldable pub assert_project_event :
    Str → NewAuditEvent → Str → LifecycleDatabase → Repo (Unit {0})
assert_project_event project event action db = do
  workspace ← ok_or (workspace_of project db.stored) not_found
  guard (str_eq workspace event.workspace_id && str_eq event.action action) invalid_input

-- A retention that is planned and not finished.
abbrev pub waits_for : Str → OperationRow → Bool
waits_for project o = str_eq o.project_id project && is_retention o.reason && not (is_done o.status)

unfoldable pub assert_no_pending : Str → LifecycleDatabase → Repo (Unit {0})
assert_no_pending project db = guard (not (any (waits_for project) db.operations)) conflict

abbrev pub new_policy_row : RetentionPolicyRecord → ℕ → ℕ → PolicyRow
new_policy_row value created updated = record {
  project_id = value.project_id;
  keep_latest = value.keep_latest;
  path_glob = value.path_glob;
  branch_glob = value.branch_glob;
  enabled = true;
  created_at_ms = created;
  updated_at_ms = updated;
}

abbrev pub replaced : RetentionPolicyRecord → ℕ → PolicyRow → PolicyRow
replaced value updated p = record p {
  keep_latest = value.keep_latest;
  path_glob = value.path_glob;
  branch_glob = value.branch_glob;
  enabled = true;
  updated_at_ms = updated;
}

-- `INSERT … ON CONFLICT DO UPDATE`, with `CHECK(updated_at_ms >= created_at_ms)` on the row that
-- is there; the time of its creation stays.
unfoldable pub upsert_policy :
    RetentionPolicyRecord → ℕ → ℕ → List PolicyRow → Repo (List PolicyRow)
upsert_policy value created updated rows =
    guard
      (is_none_or (find_row policy_key value.project_id rows) (λ p. leb p.created_at_ms updated))
      conflict
    >> (elim (find_row policy_key value.project_id rows) [
      | some p ↦
          ok (update_row policy_key value.project_id (λ q. true) (replaced value updated) rows).1
      | none ↦ ok (rows ++ new_policy_row value created updated ∷ [])
    ])

unfoldable pub set_retention :
    RetentionPolicyRecord → NewAuditEvent → LifecycleDatabase → Repo LifecycleDatabase
set_retention value event db = do
  validate_policy value
  assert_project_event value.project_id event (lit "retention.policy_set") db
  assert_no_pending value.project_id db
  created ← to_i64 value.created_at_ms
  updated ← to_i64 value.updated_at_ms
  rows ← upsert_policy value created updated db.policies
  events ← insert_event event db.stored.events
  ok (record db { policies = rows; stored = record db.stored { events = events } })

abbrev pub disabled : ℕ → PolicyRow → PolicyRow
disabled updated p = record p { enabled = false; updated_at_ms = updated }

-- With the same check of the times on the row that changes.
unfoldable pub disable_policy : Str → ℕ → List PolicyRow → Repo (ℕ × List PolicyRow)
disable_policy project updated rows =
    guard
      (is_none_or (find_row policy_key project rows)
        (λ p. not p.enabled || leb p.created_at_ms updated))
      conflict
    >> ok (update_row policy_key project (λ p. p.enabled) (disabled updated) rows)

unfoldable pub clear_retention :
    Str → ℕ → NewAuditEvent → LifecycleDatabase → Repo (Bool × LifecycleDatabase)
clear_retention project updated_at_ms event db = do
  validate_text project
  assert_project_event project event (lit "retention.policy_cleared") db
  assert_no_pending project db
  updated ← to_i64 updated_at_ms
  (changed, rows) ← disable_policy project updated db.policies
  events ← if changed == 1 then insert_event event db.stored.events else ok db.stored.events
  ok (changed == 1, record db { policies = rows; stored = record db.stored { events = events } })

abbrev pub failed_run : ℕ → RunRow → RunRow
failed_run at r = record r {
  status = RunStatus.failed;
  completed_at_ms = some at;
  error_summary = some (lit "Storage deletion did not complete.");
}

abbrev pub is_completed_run : RunStatus → Bool
is_completed_run RunStatus.complete = true
is_completed_run _ = false

unfoldable pub fail_retention : Str → ℕ → LifecycleDatabase → Repo LifecycleDatabase
fail_retention run completed_at_ms db = do
  validate_text run
  at ← to_i64 completed_at_ms
  let updated =
      update_row run_key run (λ r. not (is_completed_run r.status)) (failed_run at) db.runs
  guard (updated.0 == 1) not_found
  ok (record db { runs = updated.1 })

pub record RetentionOverview : Type 0 where
  pub policy : Option RetentionPolicyRecord
  pub last_run : Option RunRow

-- `ORDER BY started_at_ms DESC, id DESC`.
abbrev pub later_run : RunRow → RunRow → Bool
later_run r s =
    ltb s.started_at_ms r.started_at_ms || (s.started_at_ms == r.started_at_ms && str_lt s.id r.id)

abbrev pub found_policy : Repo RetentionPolicyRecord → Option RunRow → Repo RetentionOverview
found_policy (ok p) last = ok (record { policy = some p; last_run = last })
found_policy (err not_found) last = ok (record { policy = none; last_run = last })
found_policy (err e) last = err e

unfoldable pub retention_overview : Str → LifecycleDatabase → Repo RetentionOverview
retention_overview project db = do
  validate_text project
  guard (text_in project db.stored.uploads.projects) not_found
  found_policy (policy project db) (
      get_elem? (order_by later_run (keep (λ (r : RunRow). str_eq r.project_id project) db.runs)) 0)

unfoldable pub retained_projects : LifecycleDatabase → List Str
retained_projects db =
    order_by str_lt
      (map (λ (p : PolicyRow). p.project_id) (keep (λ (p : PolicyRow). p.enabled) db.policies))
