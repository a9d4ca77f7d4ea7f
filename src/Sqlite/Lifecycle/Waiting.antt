-- ===== src/Sqlite/Lifecycle/Waiting.antt =====
-- An operation that waits while others run: `crates/blobyard-repository-sqlite/src/lifecycle_*.rs`.
use blobyard_core.Contract.{not_found}
use blobyard_core.Sqlite.Database.{to_i64, validate_text, validate_texts}
use blobyard_core.Sqlite.Table.{find_row, find_row-append, find_row-key}
use blobyard_core.Sqlite.Sharing.{ShareDatabase}
use blobyard_core.Sqlite.Sharing.Audit.{NewAuditEvent, insert_event}
use blobyard_core.Sqlite.Lifecycle.{
  NewObjectDeletion, DeletionPlan, OperationRow, LifecycleDatabase, operation_key, is_done,
  find_operation, deletion_row, deletion_plan, validate_deletion, begin_object_deletion,
}
use blobyard_core.Sqlite.Lifecycle.Finish.{finish}
use blobyard_core.Sqlite.Lifecycle.Completion.{finish_lem}
use blobyard_core.Sqlite.Lifecycle.Again.{Begun, begin-Begun}
use blobyard_core.Sqlite.Lifecycle.Policies.{
  RetentionPolicyRecord, validate_policy, assert_project_event, waits_for, assert_no_pending,
  upsert_policy, disable_policy, set_retention, clear_retention, fail_retention,
}
use blobyard_core.Sqlite.Lifecycle.Runs.{retention_row, resume_run, begin_run_at, begin_retention}
use blobyard_core.Sqlite.Lifecycle.Enforcing.{begin_run_lem}
use blobyard_core.Base.{
  ℕ, ◌≡◌, sym, ap, ◌∙◌, inl, inr, Bool, true, false, some, List, [], ◌∷◌, ◌++◌, arith, ◌==◌,
  if◌then◌else◌, Bool-cases, Option-cases, any, find?, Str, lit, str_eq, guard, ok-injective,
  >>=-eq-ok, >>-eq-ok, ok,
}

-- One successful operation that does not finish the operation of an identifier: on deletions and
-- retentions, or a change of the tables of uploads, shares and audit events.
pub data Step (id : Str) (db : LifecycleDatabase) : LifecycleDatabase → Type 0 where
  deleting :
      {db' : LifecycleDatabase} (value : NewObjectDeletion) (plan : DeletionPlan)
      → begin_object_deletion value db ≡ ok (plan, db')
      → Step id db db'
  retaining :
      {db' : LifecycleDatabase} (project run actor request : Str) (started_at_ms : ℕ)
      (plan : DeletionPlan)
      → begin_retention project run actor request started_at_ms db ≡ ok (plan, db')
      → Step id db db'
  finishing :
      {db' : LifecycleDatabase} (other : Str) (at : ℕ) (event : NewAuditEvent)
      → str_eq id other ≡ false
      → finish other at event db ≡ ok db'
      → Step id db db'
  setting :
      {db' : LifecycleDatabase} (value : RetentionPolicyRecord) (event : NewAuditEvent)
      → set_retention value event db ≡ ok db'
      → Step id db db'
  clearing :
      {db' : LifecycleDatabase} (project : Str) (at : ℕ) (event : NewAuditEvent) (changed : Bool)
      → clear_retention project at event db ≡ ok (changed, db')
      → Step id db db'
  failing :
      {db' : LifecycleDatabase} (run : Str) (at : ℕ)
      → fail_retention run at db ≡ ok db'
      → Step id db db'
  storing : (stored : ShareDatabase) → Step id db (record db { stored = stored })

pub data Run (id : Str) (db : LifecycleDatabase) : LifecycleDatabase → Type 0 where
  start : Run id db db
  onward : {middle db' : LifecycleDatabase} → Run id db middle → Step id middle db' → Run id db db'

-- The operation stays as it is.
abbrev Keeps : Str → LifecycleDatabase → LifecycleDatabase → Type 0
Keeps id db db' =
    (o : OperationRow) → find_operation id db ≡ some o → find_operation id db' ≡ some o

Keeps-same :
    (id : Str) (db db' : LifecycleDatabase) → db'.operations ≡ db.operations → Keeps id db db'
Keeps-same id db db' same o found = ap (find_row operation_key id) same ∙ found

Keeps-added :
    (id : Str) (db db' : LifecycleDatabase) (row : OperationRow)
    → db'.operations ≡ db.operations ++ row ∷ []
    → Keeps id db db'
Keeps-added id db db' row added o found =
    ap (find_row operation_key id) added
    ∙ find_row-append operation_key id db.operations row
    ∙ rw found

begin_object_deletion-Keeps :
    (id : Str) (value : NewObjectDeletion) (db db' : LifecycleDatabase) (plan : DeletionPlan)
    → begin_object_deletion value db ≡ ok (plan, db')
    → Keeps id db db'
unfolding begin_object_deletion
begin_object_deletion-Keeps id value db db' plan h =
    let (validated, _, h1) = >>=-eq-ok (validate_deletion value) _ h in
    elim (begin-Begun value validated db db' plan h1) [
      | Begun.waiting o there same again ↦
          Keeps-same id db db' (ap (λ (d : LifecycleDatabase). d.operations) (sym same))
      | Begun.done absent found same again ↦
          Keeps-same id db db' (ap (λ (d : LifecycleDatabase). d.operations) (sym same))
      | Begun.new v versions absent found b ↦
          Keeps-added id db db' (deletion_row value validated) b.operations
    ]

begin_retention-Keeps :
    (id project run actor request : Str) (started_at_ms : ℕ) (db db' : LifecycleDatabase)
    (plan : DeletionPlan)
    → begin_retention project run actor request started_at_ms db ≡ ok (plan, db')
    → Keeps id db db'
unfolding begin_retention resume_run
begin_retention-Keeps id project run actor request started_at_ms db db' plan h =
    let (_, h1) = >>-eq-ok (validate_texts (project ∷ run ∷ actor ∷ request ∷ [])) _ h in
    elim (Option-cases (find? (waits_for project) db.operations)) [
      | inl absent ↦
          let r = begin_run_lem project run actor request started_at_ms db db' plan (
            ap (λ o. begin_run_at o project run actor request started_at_ms db) (sym absent)
            ∙ h1) in
          Keeps-added id db db' (retention_row run project actor request r.started) r.operations
      | inr (o, there) ↦
          let h2 =
            ap (λ p. begin_run_at p project run actor request started_at_ms db) (sym there) ∙ h1 in
          let (p, _, e) = >>=-eq-ok (deletion_plan o.id (resume_run o.id db)) _ h2 in
          Keeps-same id db db' (
            ap (λ (q : DeletionPlan × LifecycleDatabase). q.1.operations)
              (sym (ok-injective (p, resume_run o.id db) (plan, db') e)))
    ]

finish-Keeps :
    (id other : Str) (at : ℕ) (event : NewAuditEvent) (db db' : LifecycleDatabase)
    → str_eq id other ≡ false
    → finish other at event db ≡ ok db'
    → Keeps id db db'
unfolding finish
finish-Keeps id other at event db db' apart h = elim (Option-cases (find_operation other db)) [
  | inl missing ↦ absurd (let bad = rw missing at h in cc)
  | inr (o, row) ↦ elim (Bool-cases (is_done o.status)) [
    | inl done ↦
        let same : db ≡ db' = ok-injective db db' (rw (row, done) at h) in
        Keeps-same id db db' (ap (λ (d : LifecycleDatabase). d.operations) (sym same))
    | inr open_now ↦
        let own : o.id ≡ other = find_row-key operation_key other db.operations o row in
        λ p found.
          (finish_lem other at event o db db' row open_now h).others id (ap (str_eq id) own ∙ apart)
          ∙ found
  ]
]

set_retention-Keeps :
    (id : Str) (value : RetentionPolicyRecord) (event : NewAuditEvent) (db db' : LifecycleDatabase)
    → set_retention value event db ≡ ok db'
    → Keeps id db db'
unfolding set_retention
set_retention-Keeps id value event db db' h =
    let (_, h1) = >>-eq-ok (validate_policy value) _ h in
    let (_, h2) =
      >>-eq-ok (assert_project_event value.project_id event (lit "retention.policy_set") db) _ h1 in
    let (_, h3) = >>-eq-ok (assert_no_pending value.project_id db) _ h2 in
    let (created, _, h4) = >>=-eq-ok (to_i64 value.created_at_ms) _ h3 in
    let (updated, _, h5) = >>=-eq-ok (to_i64 value.updated_at_ms) _ h4 in
    let (rows, _, h6) = >>=-eq-ok (upsert_policy value created updated db.policies) _ h5 in
    let (events, _, h7) = >>=-eq-ok (insert_event event db.stored.events) _ h6 in
    Keeps-same id db db'
      (ap (λ (d : LifecycleDatabase). d.operations) (sym (ok-injective _ db' h7)))

clear_retention-Keeps :
    (id project : Str) (at : ℕ) (event : NewAuditEvent) (db db' : LifecycleDatabase)
    (changed : Bool)
    → clear_retention project at event db ≡ ok (changed, db')
    → Keeps id db db'
unfolding clear_retention
clear_retention-Keeps id project at event db db' changed h =
    let (_, h1) = >>-eq-ok (validate_text project) _ h in
    let (_, h2) =
      >>-eq-ok (assert_project_event project event (lit "retention.policy_cleared") db) _ h1 in
    let (_, h3) = >>-eq-ok (assert_no_pending project db) _ h2 in
    let (updated, _, h4) = >>=-eq-ok (to_i64 at) _ h3 in
    let (answer, _, h5) = >>=-eq-ok (disable_policy project updated db.policies) _ h4 in
    let (events, _, h6) =
      >>=-eq-ok (if answer.0 == 1 then insert_event event db.stored.events else ok db.stored.events)
        _ h5 in
    let same : ◌≡◌ {A = Bool × LifecycleDatabase}
        (
          answer.0 == 1,
          record db { policies = answer.1; stored = record db.stored { events = events } },
        )
        (changed, db') =
      ok-injective _ _ h6 in
    Keeps-same id db db' (ap (λ (p : Bool × LifecycleDatabase). p.1.operations) (sym same))

fail_retention-Keeps :
    (id run : Str) (at_ms : ℕ) (db db' : LifecycleDatabase)
    → fail_retention run at_ms db ≡ ok db'
    → Keeps id db db'
unfolding fail_retention
fail_retention-Keeps id run at_ms db db' h =
    let (_, h1) = >>-eq-ok (validate_text run) _ h in
    let (at, _, h2) = >>=-eq-ok (to_i64 at_ms) _ h1 in
    let (_, h3) = >>-eq-ok (guard _ not_found) _ h2 in
    Keeps-same id db db'
      (ap (λ (d : LifecycleDatabase). d.operations) (sym (ok-injective _ db' h3)))

Step-Keeps : (id : Str) {db db' : LifecycleDatabase} → Step id db db' → Keeps id db db'
Step-Keeps id {db} {db'} (deleting value plan h) =
    begin_object_deletion-Keeps id value db db' plan h
Step-Keeps id {db} {db'} (retaining project run actor request started plan h) =
    begin_retention-Keeps id project run actor request started db db' plan h
Step-Keeps id {db} {db'} (finishing other at event apart h) =
    finish-Keeps id other at event db db' apart h
Step-Keeps id {db} {db'} (setting value event h) = set_retention-Keeps id value event db db' h
Step-Keeps id {db} {db'} (clearing project at event changed h) =
    clear_retention-Keeps id project at event db db' changed h
Step-Keeps id {db} {db'} (failing run at h) = fail_retention-Keeps id run at db db' h
Step-Keeps id {db} (storing stored) = λ o found. found

pub Run-Keeps :
    (id : Str) {db db' : LifecycleDatabase} (o : OperationRow)
    → Run id db db'
    → find_operation id db ≡ some o
    → find_operation id db' ≡ some o
Run-Keeps id o start found = found
Run-Keeps id o (onward before step) found = Step-Keeps id step o (Run-Keeps id o before found)

pub any-find_row :
    (t : OperationRow → Bool) (k : Str) (rows : List OperationRow) (o : OperationRow)
    → find_row operation_key k rows ≡ some o
    → t o ≡ true
    → any t rows ≡ true
unfolding find_row
any-find_row t k [] o found passed = absurd (cc)
any-find_row t k (x ∷ rows) o found passed = elim (Bool-cases (str_eq x.id k)) [
  | inl same ↦
      let e : some x ≡ some o = rw same at found in
      let here : t x ≡ true = ap t (let s : x ≡ o = cc in s) ∙ passed in ground arith
  | inr other ↦ let rest = any-find_row t k rows o (rw other at found) passed in ground arith
]
