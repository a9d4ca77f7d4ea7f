-- ===== src/Sqlite/Lifecycle/Enforced.antt =====
-- What a retention leaves of the versions and of their numbers:
-- `crates/blobyard-repository-sqlite/src/lifecycle_retention_plan.rs`, then `finish` of
-- `lifecycle_deletion.rs` and `next_version` of `transfer_reservations.rs`.
use blobyard_core.Contract.{ObjectVersionRecord}
use blobyard_core.Sqlite.Database.{Database, validate_texts}
use blobyard_core.Sqlite.Table.{find_row, find_row-append}
use blobyard_core.Sqlite.Sharing.{ShareDatabase}
use blobyard_core.Sqlite.Sharing.Audit.{NewAuditEvent}
use blobyard_core.Sqlite.Retention.{planned}
use blobyard_core.Sqlite.Lifecycle.{
  DeletionPlan, ItemRow, LifecycleDatabase, operation_key, find_operation, item_of,
}
use blobyard_core.Sqlite.Lifecycle.Finish.{finish}
use blobyard_core.Sqlite.Lifecycle.Purge.{purge}
use blobyard_core.Sqlite.Lifecycle.Doomed.{is_planned, is_doomed}
use blobyard_core.Sqlite.Lifecycle.Completion.{finish_lem}
use blobyard_core.Sqlite.Lifecycle.Deleting.{HasNoItems}
use blobyard_core.Sqlite.Lifecycle.Policies.{RetentionPolicyRecord, policy, waits_for}
use blobyard_core.Sqlite.Lifecycle.Runs.{plan_policy, retention_row, begin_run_at, begin_retention}
use blobyard_core.Sqlite.Lifecycle.Enforcing.{IsRun, begin_run_lem}
use blobyard_core.Base.{
  ℕ, ◌≡◌, refl, sym, ap, ◌∙◌, Bool, not, ◌&&◌, ◌||◌, none, some, List, [], ◌∷◌, map, arith, drop,
  any, keep, find?, keep_cong, any_and, any-append, any-map, Str, str_eq, str_eq_refl, >>-eq-ok, ok,
}

pub begin_retention-IsRun :
    (project run actor request : Str) (started_at_ms : ℕ) (db db' : LifecycleDatabase)
    (plan : DeletionPlan)
    → begin_retention project run actor request started_at_ms db ≡ ok (plan, db')
    → find? (waits_for project) db.operations ≡ none
    → IsRun project run actor request db db' plan
unfolding begin_retention
begin_retention-IsRun project run actor request started_at_ms db db' plan h absent =
    let (_, h1) = >>-eq-ok (validate_texts (project ∷ run ∷ actor ∷ request ∷ [])) _ h in
    begin_run_lem project run actor request started_at_ms db db' plan
      (ap (λ o. begin_run_at o project run actor request started_at_ms db) (sym absent) ∙ h1)

-- Some version of a list has this identifier.
abbrev pub has_version : List ObjectVersionRecord → Str → Bool
has_version versions k = any (λ (v : ObjectVersionRecord). str_eq k v.id) versions

module _ (project run actor request : Str) (db db' : LifecycleDatabase) (plan : DeletionPlan)
    (r : IsRun project run actor request db db' plan) where
  pub run_operation :
      find_operation run db' ≡ some (retention_row run project actor request r.started)
  run_operation =
      ap (find_row operation_key run) r.operations
      ∙ find_row-append operation_key run db.operations
          (retention_row run project actor request r.started)
      ∙ rw (r.fresh, str_eq_refl run)

  run_items :
      HasNoItems run db
      → (k : Str) → is_planned run db'.items k ≡ has_version (drop r.kept.keep_latest r.matching) k
  run_items empty k =
      let rows = drop r.kept.keep_latest r.matching in
      let named = λ (i : ItemRow). str_eq i.operation_id run && str_eq k i.version_id in
      ap (any named) r.items
      ∙ any-append named db.items (map (item_of run) rows)
      ∙ ap (λ x. x || any named (map (item_of run) rows))
          (any_and (λ (i : ItemRow). str_eq i.operation_id run)
            (λ (i : ItemRow). str_eq k i.version_id) db.items empty)
      ∙ any-map named (item_of run) rows
      ∙ ap (λ x. any (λ (v : ObjectVersionRecord). x && str_eq k v.id) rows) (str_eq_refl run)

  pub run_versions :
      (at : ℕ) (event : NewAuditEvent) (db'' : LifecycleDatabase)
      → HasNoItems run db
      → finish run at event db' ≡ ok db''
      → db''.stored.uploads.versions
        ≡ keep
            (λ v. not (has_version (drop r.kept.keep_latest r.matching) v.id))
            db.stored.uploads.versions
  unfolding purge
  run_versions at event db'' empty h =
      let row = retention_row run project actor request r.started in
      let left = (finish_lem run at event row db' db'' run_operation refl h).uploads in
      ap (λ (d : Database). d.versions) left
      ∙ ap (λ (s : ShareDatabase). keep (λ v. not (is_doomed row db'.items v)) s.uploads.versions)
          r.stored
      ∙ keep_cong (λ v. not (is_doomed row db'.items v))
          (λ v. not (has_version (drop r.kept.keep_latest r.matching) v.id))
          db.stored.uploads.versions (λ v. ground (arith, run_items empty v.id))

-- A retention that is begun where none of the project waits, and then finished, leaves exactly the
-- versions that its plan does not list: those of the identifiers that the project's policy chooses
-- are gone. No item stands under the identifier of the new run.
pub begin_retention-finish :
    (project run actor request : Str) (started_at_ms at : ℕ) (event : NewAuditEvent)
    (db db' db'' : LifecycleDatabase) (plan : DeletionPlan)
    → begin_retention project run actor request started_at_ms db ≡ ok (plan, db')
    → find? (waits_for project) db.operations ≡ none
    → HasNoItems run db
    → finish plan.id at event db' ≡ ok db''
    → (kept : RetentionPolicyRecord) × (rows : List ObjectVersionRecord) × (policy project db
        ≡ ok kept)
      × (planned (plan_policy kept) db.stored.uploads.versions ≡ some rows)
      × (db''.stored.uploads.versions
          ≡ keep (λ v. not (has_version rows v.id)) db.stored.uploads.versions)
unfolding planned
begin_retention-finish project run actor request started_at_ms at event db db' db'' plan h absent
      empty ended =
    let r = begin_retention-IsRun project run actor request started_at_ms db db' plan h absent in
    (
      r.kept,
      drop r.kept.keep_latest r.matching,
      r.by_policy,
      rw r.matched refl,
      run_versions project run actor request db db' plan r at event db'' empty
          (ap (λ k. finish k at event db') (sym r.named) ∙ ended),
    )
