-- ===== src/Sqlite/Lifecycle/RunTests.antt =====
-- A retention of `crates/blobyard-repository-sqlite/src/lifecycle_retention_plan.rs` that keeps the
-- newest of two versions.
use blobyard_core.Contract.{ObjectVersionRecord, NewUploadReservation}
use blobyard_core.Sqlite.Transfers.{next_version, max_deleted}
use blobyard_core.Sqlite.Transfers.Tests.{upload_a, done_version, first}
use blobyard_core.Sqlite.Sharing.Audit.{NewAuditEvent}
use blobyard_core.Sqlite.Retention.{planned}
use blobyard_core.Sqlite.Retention.Tests.{retention_runs}
use blobyard_core.Sqlite.Lifecycle.{
  DeletionPlan, OperationRow, PolicyRow, LifecycleDatabase, item_of, deleted_version,
  find_operation,
}
use blobyard_core.Sqlite.Lifecycle.Finish.{finished_row, finished_run, validate_finished, finish}
use blobyard_core.Sqlite.Lifecycle.Finishing.{CanLog}
use blobyard_core.Sqlite.Lifecycle.Policies.{
  failed_run, fail_retention, RetentionPolicyRecord, policy, policy_record, waits_for,
  set_retention, clear_retention,
}
use blobyard_core.Sqlite.Lifecycle.Runs.{
  plan_policy, new_run, resume_run, insert_run, retention_row, begin_run, begin_retention,
}
use blobyard_core.Sqlite.Lifecycle.Enforced.{has_version, begin_retention-finish}
use blobyard_core.Sqlite.Lifecycle.Renumbered.{
  begin_retention-next_version, begin_retention-finish_total,
}
use blobyard_core.Sqlite.Lifecycle.Guarded.{begin_retention-guards}
use blobyard_core.Sqlite.Lifecycle.Tests.{
  lifecycle_runs, two_objects, two_shared, idle, other_version, ended_event,
}
use blobyard_core.Sqlite.Lifecycle.Waiting.{start, onward, failing}
use blobyard_core.Base.{
  ◌≡◌, refl, ◌≢◌, true, false, not, ◌&&◌, none, some, List, [], ◌∷◌, arith, drop, any, keep, find?,
  Str, lit, str_eq, ok,
}

unfoldable enforcement_runs : Unit {0}
unfolding lifecycle_runs retention_runs policy resume_run insert_run begin_run begin_retention
enforcement_runs = tt

abbrev project : Str
project = lit "project"

abbrev run : Str
run = lit "run"

abbrev policy_row : PolicyRow
policy_row = record {
  project_id = project;
  keep_latest = 1;
  path_glob = none;
  branch_glob = none;
  enabled = true;
  created_at_ms = 100;
  updated_at_ms = 100;
}

abbrev kept : RetentionPolicyRecord
kept = policy_record policy_row

abbrev with_policy : LifecycleDatabase
with_policy = record idle { policies = policy_row ∷ [] }

abbrev row : OperationRow
row = retention_row run project (lit "operator") (lit "request") 3000

abbrev begun : LifecycleDatabase
begun = record with_policy {
  stored = record two_shared {
    uploads = record two_objects { deleted = deleted_version row done_version ∷ [] };
  };
  operations = row ∷ [];
  items = item_of run done_version ∷ [];
  runs = new_run run project 2 3000 ∷ [];
}

abbrev plan : DeletionPlan
plan = record {
  id = run;
  items =
      record { version_id = upload_a; storage_key = done_version.storage_key; version = 1 } ∷ [];
  complete = false;
  actor = lit "operator";
  request_id = lit "request";
}

abbrev event : NewAuditEvent
event = ended_event (lit "retention.enforced")

run_begin :
    begin_retention project run (lit "operator") (lit "request") 3000 with_policy ≡ ok (plan, begun)
unfolding enforcement_runs
run_begin = refl

idle_before : find? (waits_for project) with_policy.operations ≡ none
idle_before = refl

there : find_operation run begun ≡ some row
unfolding enforcement_runs
there = refl

fits : validate_finished row event begun ≡ ok tt
unfolding enforcement_runs
fits = refl

can_log : CanLog event begun
unfolding enforcement_runs
can_log = (refl, omega arith, refl)

abbrev done : LifecycleDatabase
done = record begun {
  stored = record begun.stored {
    uploads = record begun.stored.uploads {
      versions = other_version ∷ [];
      reservations = drop 1 begun.stored.uploads.reservations;
      downloads = drop 1 begun.stored.uploads.downloads;
    };
    events = event ∷ [];
  };
  operations = finished_row 4000 row ∷ [];
  runs = finished_run 1 4000 (new_run run project 2 3000) ∷ [];
}

finishing_run : finish run 4000 event begun ≡ ok done
unfolding enforcement_runs
finishing_run = refl

begin_retention-finish_example :
    (by : RetentionPolicyRecord) × (rows : List ObjectVersionRecord) × (policy project with_policy
      ≡ ok by)
    × (planned (plan_policy by) two_objects.versions ≡ some rows)
    × (done.stored.uploads.versions ≡ keep (λ v. not (has_version rows v.id)) two_objects.versions)
begin_retention-finish_example =
    begin_retention-finish project run (lit "operator") (lit "request") 3000 4000 event with_policy
      begun done plan run_begin idle_before refl finishing_run

begin_retention-finish_total_example :
    (db : LifecycleDatabase) × (finish run 4000 event begun ≡ ok db)
begin_retention-finish_total_example =
    begin_retention-finish_total project run (lit "operator") (lit "request") 3000 4000 event row
      with_policy begun plan run_begin idle_before refl there fits can_log

by_policy : policy project with_policy ≡ ok kept
unfolding enforcement_runs
by_policy = refl

chosen : planned (plan_policy kept) two_objects.versions ≡ some (done_version ∷ [])
unfolding enforcement_runs
chosen = refl

abbrev again : NewUploadReservation
again = record first { id = lit "upload-c" }

all_listed :
    any
      (λ (v : ObjectVersionRecord).
        str_eq v.project_id again.project_id
        && str_eq v.object_path again.object_path
        && not (has_version (done_version ∷ []) v.id))
      two_objects.versions
    ≡ false
unfolding enforcement_runs
all_listed = refl

none_deleted : max_deleted again.project_id again.object_path two_objects.deleted ≡ 0
unfolding enforcement_runs
none_deleted = refl

elsewhere : str_eq (lit ".retention") again.object_path ≡ false
unfolding enforcement_runs
elsewhere = refl

begin_retention-next_version_example : next_version again done.stored.uploads ≡ ok 1
begin_retention-next_version_example =
    begin_retention-next_version project run (lit "operator") (lit "request") 3000 4000 event again
      (done_version ∷ []) kept with_policy begun done plan run_begin idle_before refl finishing_run
      by_policy chosen all_listed none_deleted elsewhere

-- The retention is reported as failed, and still waits.
abbrev reported : LifecycleDatabase
reported = record begun { runs = failed_run 3500 (new_run run project 2 3000) ∷ [] }

run_fail : fail_retention run 3500 begun ≡ ok reported
unfolding enforcement_runs fail_retention
run_fail = refl

begin_retention-guards_example :
    (set_retention kept event reported ≢ ok done)
    × (clear_retention project 5000 event reported ≢ ok (true, done))
begin_retention-guards_example =
    begin_retention-guards project run (lit "operator") (lit "request") 3000 5000 event kept
      with_policy begun reported done plan (true, done) run_begin idle_before
      (onward start (failing run 3500 run_fail)) refl
