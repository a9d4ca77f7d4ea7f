-- ===== src/Sqlite/Lifecycle/Guarded.antt =====
-- A policy while its retention waits: `crates/blobyard-repository-sqlite/src/lifecycle_retention.rs`
-- after `lifecycle_retention_plan.rs`.
use blobyard_core.Contract.{conflict}
use blobyard_core.Sqlite.Database.{validate_text}
use blobyard_core.Sqlite.Sharing.Audit.{NewAuditEvent}
use blobyard_core.Sqlite.Lifecycle.{DeletionPlan, LifecycleDatabase}
use blobyard_core.Sqlite.Lifecycle.Policies.{
  RetentionPolicyRecord, validate_policy, assert_project_event, waits_for, assert_no_pending,
  set_retention, clear_retention,
}
use blobyard_core.Sqlite.Lifecycle.Runs.{retention_row, begin_retention}
use blobyard_core.Sqlite.Lifecycle.Enforced.{begin_retention-IsRun, run_operation}
use blobyard_core.Sqlite.Lifecycle.Waiting.{Run, Run-Keeps, any-find_row}
use blobyard_core.Base.{
  ℕ, ◌≡◌, sym, ap, ◌∙◌, ◌≢◌, Bool, true, false, not, none, arith, any, find?, Str, lit, str_eq_refl,
  guard, guard-eq-ok, >>-eq-ok, ok,
}

set_retention-unguarded :
    (value : RetentionPolicyRecord) (event : NewAuditEvent) (db db' : LifecycleDatabase)
    → set_retention value event db ≡ ok db'
    → any (waits_for value.project_id) db.operations ≡ false
unfolding set_retention assert_no_pending
set_retention-unguarded value event db db' h =
    let (_, h1) = >>-eq-ok (validate_policy value) _ h in
    let (_, h2) =
      >>-eq-ok (assert_project_event value.project_id event (lit "retention.policy_set") db) _ h1 in
    let (idle, _) =
      >>-eq-ok (guard (not (any (waits_for value.project_id) db.operations)) conflict) _ h2 in
    let idle' = guard-eq-ok (not (any (waits_for value.project_id) db.operations)) conflict idle in
    ground arith

clear_retention-unguarded :
    (project : Str) (at : ℕ) (event : NewAuditEvent) (db : LifecycleDatabase)
    (answer : Bool × LifecycleDatabase)
    → clear_retention project at event db ≡ ok answer
    → any (waits_for project) db.operations ≡ false
unfolding clear_retention assert_no_pending
clear_retention-unguarded project at event db answer h =
    let (_, h1) = >>-eq-ok (validate_text project) _ h in
    let (_, h2) =
      >>-eq-ok (assert_project_event project event (lit "retention.policy_cleared") db) _ h1 in
    let (idle, _) = >>-eq-ok (guard (not (any (waits_for project) db.operations)) conflict) _ h2 in
    let idle' = guard-eq-ok (not (any (waits_for project) db.operations)) conflict idle in
    ground arith

-- Once a retention of a project has been begun where none waited, its policy is neither replaced
-- nor cleared, whatever the request and its audit event, after any sequence of the operations that
-- `Step` of Waiting lists: other deletions and retentions that begin, finish or fail, the policies of
-- projects, and any change of the tables of uploads, shares and audit events. The plan of the
-- retention itself is not finished among them.
pub begin_retention-guards :
    (project run actor request : Str) (started_at_ms at : ℕ) (event : NewAuditEvent)
    (value : RetentionPolicyRecord) (db db' later db'' : LifecycleDatabase) (plan : DeletionPlan)
    (answer : Bool × LifecycleDatabase)
    → begin_retention project run actor request started_at_ms db ≡ ok (plan, db')
    → find? (waits_for project) db.operations ≡ none
    → Run run db' later
    → value.project_id ≡ project
    → (set_retention value event later ≢ ok db'')
      × (clear_retention project at event later ≢ ok answer)
begin_retention-guards project run actor request started_at_ms at event value db db' later db'' plan
      answer h absent between same =
    let r = begin_retention-IsRun project run actor request started_at_ms db db' plan h absent in
    let row = retention_row run project actor request r.started in
    let there = Run-Keeps run row between (run_operation project run actor request db db' plan r) in
    let waits : any (waits_for project) later.operations ≡ true =
      any-find_row (waits_for project) run later.operations row there
        (ground (arith, str_eq_refl project)) in
    (
      λ done.
          let idle = set_retention-unguarded value event later db'' done in
          let idle' = ap (λ p. any (waits_for p) later.operations) (sym same) ∙ idle in absurd (cc),
      λ done.
          let idle = clear_retention-unguarded project at event later answer done in absurd (cc),
    )
