-- ===== src/Sqlite/Lifecycle/Enforcing.antt =====
-- A retention run from its beginning to its end: `begin` of
-- `crates/blobyard-repository-sqlite/src/lifecycle_retention_plan.rs`, then `finish` of
-- `lifecycle_deletion.rs`.
use blobyard_core.Contract.{conflict, unavailable, ObjectVersionRecord}
use blobyard_core.Sqlite.Database.{to_i64}
use blobyard_core.Sqlite.Table.{find_row, insert_row}
use blobyard_core.Sqlite.Transfers.{text_in}
use blobyard_core.Sqlite.Transfers.Versions.{insert_row-eq-some}
use blobyard_core.Sqlite.Retention.{matching_versions}
use blobyard_core.Sqlite.Lifecycle.{
  DeletionPlan, RunRow, LifecycleDatabase, run_key, find_operation, deletion_plan, insert_operation,
  insert_items, item_of, deleted_version,
}
use blobyard_core.Sqlite.Lifecycle.Planning.{insert_items_lem, insert_operation-eq-ok}
use blobyard_core.Sqlite.Lifecycle.Deleting.{deletion_plan-id}
use blobyard_core.Sqlite.Lifecycle.Policies.{RetentionPolicyRecord, policy, waits_for}
use blobyard_core.Sqlite.Lifecycle.Runs.{plan_policy, new_run, insert_run, retention_row, begin_run}
use blobyard_core.Base.{
  ℕ, ◌≡◌, sym, ap, ◌∙◌, none, some, List, [], ◌∷◌, ◌++◌, map, length, drop, any, Str, ok_or, guard,
  ok-injective, ok_or-eq-ok, >>=-eq-ok, >>-eq-ok, ok,
}

-- A retention that has been planned by a policy, with the matching versions in order.
pub record IsRun (project run actor request : Str) (db db' : LifecycleDatabase)
    (plan : DeletionPlan) : Type 0 where
  pub kept : RetentionPolicyRecord
  pub by_policy : policy project db ≡ ok kept
  pub matching : List ObjectVersionRecord
  pub matched : matching_versions (plan_policy kept) db.stored.uploads.versions ≡ some matching
  pub started : ℕ
  pub fresh : find_operation run db ≡ none
  pub free : find_row run_key run db.runs ≡ none
  pub operations :
      db'.operations ≡ db.operations ++ retention_row run project actor request started ∷ []
  pub runs : db'.runs ≡ db.runs ++ new_run run project (length matching) started ∷ []
  pub items : db'.items ≡ db.items ++ map (item_of run) (drop kept.keep_latest matching)
  pub deleted :
      db'.stored.uploads.deleted
      ≡ db.stored.uploads.deleted
        ++ map
            (deleted_version (retention_row run project actor request started))
            (drop kept.keep_latest matching)
  pub stored : db'.stored ≡ record db.stored {
    uploads = record db.stored.uploads { deleted = db'.stored.uploads.deleted };
  }
  pub named : plan.id ≡ run

insert_run-eq-ok :
    (row : RunRow) (db db' : LifecycleDatabase)
    → insert_run row db ≡ ok db'
    → (db' ≡ record db { runs = db.runs ++ row ∷ [] }) × (find_row run_key row.id db.runs ≡ none)
unfolding insert_run
insert_run-eq-ok row db db' h =
    let (_, h1) =
      >>-eq-ok (guard (text_in row.project_id db.stored.uploads.projects) conflict) _ h in
    let (rows, inserted, h2) = >>=-eq-ok (ok_or (insert_row run_key row db.runs) conflict) _ h1 in
    let put = ok_or-eq-ok (insert_row run_key row db.runs) conflict inserted in
    let (free, rows') = insert_row-eq-some run_key row db.runs rows put in
    (sym (ok-injective _ _ h2) ∙ ap (λ (rs : List RunRow). record db { runs = rs }) rows', free)

pub begin_run_lem :
    (project run actor request : Str) (started_at_ms : ℕ) (db db' : LifecycleDatabase)
    (plan : DeletionPlan)
    → begin_run project run actor request started_at_ms db ≡ ok (plan, db')
    → IsRun project run actor request db db' plan
unfolding begin_run
begin_run_lem project run actor request started_at_ms db db' plan h =
    let (kept, by_policy, h1) = >>=-eq-ok (policy project db) _ h in
    let chosen = matching_versions (plan_policy kept) db.stored.uploads.versions in
    let (matching, matched, h2) = >>=-eq-ok (ok_or chosen unavailable) _ h1 in
    let (started, _, h3) = >>=-eq-ok (to_i64 started_at_ms) _ h2 in
    let row = retention_row run project actor request started in
    let (a, ran, h4) =
      >>=-eq-ok (insert_run (new_run run project (length matching) started) db) _ h3 in
    let (b, opened, h5) =
      >>=-eq-ok (insert_operation row (any (waits_for project) db.operations) a) _ h4 in
    let (c, filled, h6) = >>=-eq-ok (insert_items row (drop kept.keep_latest matching) b) _ h5 in
    let (p, answered, h7) = >>=-eq-ok (deletion_plan run c) _ h6 in
    let same : ◌≡◌ {A = DeletionPlan × LifecycleDatabase} (p, c) (plan, db') =
      ok-injective _ _ h7 in
    let (a', free) = insert_run-eq-ok (new_run run project (length matching) started) db a ran in
    let (b', fresh) =
      insert_operation-eq-ok row (any (waits_for project) db.operations) a b opened in
    let f =
      insert_items_lem row (drop kept.keep_latest matching) b db'
        (filled ∙ ap (λ (q : DeletionPlan × LifecycleDatabase). ok q.1) same) in
    let before =
      b' ∙ ap (λ (d : LifecycleDatabase). record d { operations = d.operations ++ row ∷ [] }) a' in
    record {
      kept = kept;
      by_policy = by_policy;
      matching = matching;
      matched = ok_or-eq-ok chosen unavailable matched;
      started = started;
      fresh = ap (find_operation run) (sym a') ∙ fresh;
      free = free;
      operations =
          ap (λ (d : LifecycleDatabase). d.operations) f.rest
          ∙ ap (λ (d : LifecycleDatabase). d.operations) before;
      runs =
          ap (λ (d : LifecycleDatabase). d.runs) f.rest
          ∙ ap (λ (d : LifecycleDatabase). d.runs) before;
      items =
          f.items
          ∙ ap
              (λ (d : LifecycleDatabase).
                d.items ++ map (item_of run) (drop kept.keep_latest matching))
              before;
      deleted =
          f.deleted
          ∙ ap
              (λ (d : LifecycleDatabase).
                d.stored.uploads.deleted
                ++ map (deleted_version row) (drop kept.keep_latest matching))
              before;
      stored =
          ap (λ (d : LifecycleDatabase). d.stored) f.rest
          ∙ ap
              (λ (d : LifecycleDatabase). record d.stored {
                uploads = record d.stored.uploads { deleted = db'.stored.uploads.deleted };
              })
              before;
      named =
          ap (λ (q : DeletionPlan × LifecycleDatabase). q.0.id) (sym same)
          ∙ deletion_plan-id run c p answered;
    }
