-- ===== src/Sqlite/Lifecycle/Runs.antt =====
-- The beginning of a retention run: `begin` of
-- `crates/blobyard-repository-sqlite/src/lifecycle_retention_plan.rs`.
use blobyard_core.Contract.{Repo, conflict, unavailable}
use blobyard_core.Sqlite.Database.{to_i64, validate_texts}
use blobyard_core.Sqlite.Table.{update_row, insert_row}
use blobyard_core.Sqlite.Transfers.{text_in}
use blobyard_core.Sqlite.Lifecycle.{
  DeletionPlan, OperationRow, OperationStatus, retention, RunRow, RunStatus, LifecycleDatabase,
  run_key, deletion_plan, insert_operation, insert_items,
}
use blobyard_core.Sqlite.Lifecycle.Policies.{
  RetentionPolicyRecord, policy, waits_for, is_completed_run,
}
use blobyard_core.Sqlite.Retention.{RetentionPolicy, matching_versions}
use blobyard_core.Base.{
  ℕ, not, Option, none, some, [], ◌∷◌, length, drop, any, find?, Str, lit, ok_or, ◌>>=◌, ◌>>◌,
  guard, ok,
}

abbrev pub plan_policy : RetentionPolicyRecord → RetentionPolicy
plan_policy p = record {
  project_id = p.project_id;
  keep_latest = p.keep_latest;
  path_glob = p.path_glob;
  branch_glob = p.branch_glob;
}

abbrev pub resumed : RunRow → RunRow
resumed r = record r { status = RunStatus.running; completed_at_ms = none; error_summary = none }

unfoldable pub resume_run : Str → LifecycleDatabase → LifecycleDatabase
resume_run id db = record db {
  runs = (update_row run_key id (λ r. not (is_completed_run r.status)) resumed db.runs).1;
}

abbrev pub new_run : Str → Str → ℕ → ℕ → RunRow
new_run id project candidates started = record {
  id = id;
  project_id = project;
  candidate_count = candidates;
  deleted_count = 0;
  status = RunStatus.running;
  started_at_ms = started;
  completed_at_ms = none;
  error_summary = none;
}

unfoldable pub insert_run : RunRow → LifecycleDatabase → Repo LifecycleDatabase
insert_run run db = do
  guard (text_in run.project_id db.stored.uploads.projects) conflict
  rows ← ok_or (insert_row run_key run db.runs) conflict
  ok (record db { runs = rows })

abbrev pub retention_row : Str → Str → Str → Str → ℕ → OperationRow
retention_row id project actor request started = record {
  id = id;
  project_id = project;
  object_path = lit ".retention";
  selected_version = none;
  reason = retention;
  status = OperationStatus.pending;
  actor = actor;
  request_id = request;
  created_at_ms = started;
  completed_at_ms = none;
}

-- `begin` where no retention of the project waits. `matching_versions` runs out of fuel in no case.
unfoldable pub begin_run :
    Str → Str → Str → Str → ℕ → LifecycleDatabase → Repo (DeletionPlan × LifecycleDatabase)
begin_run project run actor request started_at_ms db = do
  kept ← policy project db
  matching ← ok_or (matching_versions (plan_policy kept) db.stored.uploads.versions) unavailable
  started ← to_i64 started_at_ms
  with_run ← insert_run (new_run run project (length matching) started) db
  let row : OperationRow = retention_row run project actor request started
  with_operation ← insert_operation row (any (waits_for project) db.operations) with_run
  with_items ← insert_items row (drop kept.keep_latest matching) with_operation
  plan ← deletion_plan run with_items
  ok (plan, with_items)

abbrev pub begin_run_at :
    Option OperationRow
    → Str
    → Str
    → Str
    → Str
    → ℕ
    → LifecycleDatabase
    → Repo (DeletionPlan × LifecycleDatabase)
begin_run_at (some o) project run actor request started_at_ms db =
    deletion_plan o.id (resume_run o.id db) >>= λ plan. ok (plan, resume_run o.id db)
begin_run_at none project run actor request started_at_ms db =
    begin_run project run actor request started_at_ms db

unfoldable pub begin_retention :
    Str → Str → Str → Str → ℕ → LifecycleDatabase → Repo (DeletionPlan × LifecycleDatabase)
begin_retention project run actor request started_at_ms db =
    validate_texts (project ∷ run ∷ actor ∷ request ∷ [])
    >> begin_run_at (find? (waits_for project) db.operations) project run actor request
        started_at_ms db
