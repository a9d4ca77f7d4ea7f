-- ===== src/Sqlite/Lifecycle/Renumbered.antt =====
-- The numbers of versions after a retention: `next_version` of
-- `crates/blobyard-repository-sqlite/src/transfer_reservations.rs`, and that a retention can be finished.
use blobyard_core.Contract.{ObjectVersionRecord, NewUploadReservation}
use blobyard_core.Sqlite.Database.{DeletedVersion}
use blobyard_core.Sqlite.Table.{find_row, find_row-append}
use blobyard_core.Sqlite.Transfers.{next_version, max_live, max_deleted}
use blobyard_core.Sqlite.Sharing.Audit.{NewAuditEvent}
use blobyard_core.Sqlite.Retention.{past_kept, planned}
use blobyard_core.Sqlite.Lifecycle.{
  DeletionPlan, OperationRow, ItemRow, LifecycleDatabase, run_key, find_operation, item_of,
  deleted_version, operation_items,
}
use blobyard_core.Sqlite.Lifecycle.Finish.{finish, validate_finished}
use blobyard_core.Sqlite.Lifecycle.Finishing.{finish_total, CanLog, RunCovers}
use blobyard_core.Sqlite.Lifecycle.Deleting.{HasNoItems}
use blobyard_core.Sqlite.Lifecycle.Numbering.{finish-deleted}
use blobyard_core.Sqlite.Lifecycle.Policies.{RetentionPolicyRecord, policy, waits_for}
use blobyard_core.Sqlite.Lifecycle.Runs.{plan_policy, retention_row, begin_retention, new_run}
use blobyard_core.Sqlite.Lifecycle.Enforcing.{IsRun}
use blobyard_core.Base.{
  ℕ, max, ◌≡◌, refl, sym, ap, ◌∙◌, Bool, false, not, ◌&&◌, none, some, List, [], ◌∷◌, ◌++◌, map,
  arith, le→leb, length, drop, any, keep, find?, length-order_by, length-keep_images, length-drop,
  Str, lit, str_eq, str_eq_refl, str_lt, ok-injective, ok,
}
use blobyard_core.Sqlite.Lifecycle.Enforced.{
  begin_retention-IsRun, has_version, run_operation, run_versions,
}

max_live_none :
    (project path : Str) (t : ObjectVersionRecord → Bool) (rows : List ObjectVersionRecord)
    → any (λ v. str_eq v.project_id project && str_eq v.object_path path && t v) rows ≡ false
    → max_live project path (keep t rows) ≡ 0
unfolding max_live
max_live_none project path t [] h = refl
max_live_none project path t (v ∷ rows) h = ground (arith, max_live_none project path t rows)

max_deleted-append :
    (project path : Str) (xs ys : List DeletedVersion)
    → max_deleted project path (xs ++ ys)
      ≡ max (max_deleted project path xs) (max_deleted project path ys)
unfolding max_deleted
max_deleted-append project path [] ys = omega arith
max_deleted-append project path (x ∷ xs) ys = ground (arith, max_deleted-append project path xs ys)

max_deleted_apart :
    (project path : Str) (o : OperationRow) (versions : List ObjectVersionRecord)
    → str_eq o.object_path path ≡ false
    → max_deleted project path (map (deleted_version o) versions) ≡ 0
unfolding max_deleted
max_deleted_apart project path o [] apart = refl
max_deleted_apart project path o (v ∷ versions) apart =
    ground (arith, max_deleted_apart project path o versions apart)

-- After a retention whose plan lists every version of an object, of which none was deleted before,
-- the next version of the object gets the number 1 again, however many versions it has had. The
-- object is not at the path that stands for retentions.
pub begin_retention-next_version :
    (project run actor request : Str) (started_at_ms at : ℕ) (event : NewAuditEvent)
    (upload : NewUploadReservation) (rows : List ObjectVersionRecord) (kept : RetentionPolicyRecord)
    (db db' db'' : LifecycleDatabase) (plan : DeletionPlan)
    → begin_retention project run actor request started_at_ms db ≡ ok (plan, db')
    → find? (waits_for project) db.operations ≡ none
    → HasNoItems run db
    → finish plan.id at event db' ≡ ok db''
    → policy project db ≡ ok kept
    → planned (plan_policy kept) db.stored.uploads.versions ≡ some rows
    → any
        (λ (v : ObjectVersionRecord).
          str_eq v.project_id upload.project_id
          && str_eq v.object_path upload.object_path
          && not (has_version rows v.id))
        db.stored.uploads.versions
      ≡ false
    → max_deleted upload.project_id upload.object_path db.stored.uploads.deleted ≡ 0
    → str_eq (lit ".retention") upload.object_path ≡ false
    → next_version upload db''.stored.uploads ≡ ok 1
unfolding planned next_version
begin_retention-next_version project run actor request started_at_ms at event upload rows kept db
      db' db'' plan h absent empty ended by_policy chosen covered before apart =
    let r = begin_retention-IsRun project run actor request started_at_ms db db' plan h absent in
    let row = retention_row run project actor request r.started in
    let same : r.kept ≡ kept = ok-injective _ _ (sym r.by_policy ∙ by_policy) in
    let ended' = ap (λ k. finish k at event db') (sym r.named) ∙ ended in
    let both : some (drop r.kept.keep_latest r.matching) ≡ some rows =
      ap (past_kept r.kept.keep_latest) (sym r.matched)
      ∙ ap (λ k. planned (plan_policy k) db.stored.uploads.versions) same
      ∙ chosen in
    let listed : drop r.kept.keep_latest r.matching ≡ rows = cc in
    let left = run_versions project run actor request db db' plan r at event db'' empty ended' in
    let live : max_live upload.project_id upload.object_path db''.stored.uploads.versions ≡ 0 =
      ap (max_live upload.project_id upload.object_path) left
      ∙ ap
          (λ (vs : List ObjectVersionRecord).
            max_live upload.project_id upload.object_path
              (keep (λ v. not (has_version vs v.id)) db.stored.uploads.versions))
          listed
      ∙ max_live_none upload.project_id upload.object_path (λ v. not (has_version rows v.id))
          db.stored.uploads.versions covered in
    let deleted =
      finish-deleted run at event row db' db''
        (run_operation project run actor request db db' plan r) refl ended'
      ∙ r.deleted in
    let gone : max_deleted upload.project_id upload.object_path db''.stored.uploads.deleted ≡ 0 =
      ap (max_deleted upload.project_id upload.object_path) deleted
      ∙ max_deleted-append upload.project_id upload.object_path db.stored.uploads.deleted
          (map (deleted_version row) (drop r.kept.keep_latest r.matching))
      ∙ rw
          (
            before,
            max_deleted_apart upload.project_id upload.object_path row
                (drop r.kept.keep_latest r.matching) apart,
          )
          refl in
    rw (live, gone) refl

run_covers :
    (project run actor request : Str) (db db' : LifecycleDatabase) (plan : DeletionPlan)
    (r : IsRun project run actor request db db' plan)
    → HasNoItems run db
    → RunCovers (retention_row run project actor request r.started) db'
unfolding operation_items
run_covers project run actor request db db' plan r empty =
    let rows = drop r.kept.keep_latest r.matching in
    let own = λ (i : ItemRow). str_eq i.operation_id run in
    let count : length (operation_items run db'.items) ≡ length rows =
      length-order_by (λ (i : ItemRow) (j : ItemRow). str_lt i.version_id j.version_id)
        (keep own db'.items)
      ∙ ap (λ is. length (keep own is)) r.items
      ∙ length-keep_images own (item_of run) db.items rows empty (λ v. str_eq_refl run) in
    let there : find_row run_key run db'.runs
        ≡ some (new_run run project (length r.matching) r.started) =
      ap (find_row run_key run) r.runs
      ∙ find_row-append run_key run db.runs (new_run run project (length r.matching) r.started)
      ∙ rw (r.free, str_eq_refl run) in
    rw (there, count)
      (le→leb (length rows) (length r.matching) (length-drop r.kept.keep_latest r.matching))

-- A retention that is begun where none of the project waits can be finished, with any event that
-- fits it and can be added: the count of what it deletes is at most the count of what it found,
-- which the table of runs requires.
pub begin_retention-finish_total :
    (project run actor request : Str) (started_at_ms at : ℕ) (event : NewAuditEvent)
    (o : OperationRow) (db db' : LifecycleDatabase) (plan : DeletionPlan)
    → begin_retention project run actor request started_at_ms db ≡ ok (plan, db')
    → find? (waits_for project) db.operations ≡ none
    → HasNoItems run db
    → find_operation run db' ≡ some o
    → validate_finished o event db' ≡ ok tt
    → CanLog event db'
    → (db'' : LifecycleDatabase) × (finish plan.id at event db' ≡ ok db'')
begin_retention-finish_total project run actor request started_at_ms at event o db db' plan h absent
      empty there allowed can_log =
    let r = begin_retention-IsRun project run actor request started_at_ms db db' plan h absent in
    let row = retention_row run project actor request r.started in
    let own = run_operation project run actor request db db' plan r in
    let same : some row ≡ some o = sym own ∙ there in
    let same_row : row ≡ o = cc in
    let (db'', ended) = (finish_total run at event row db' own refl).1 (
      ap (λ p. validate_finished p event db') same_row ∙ allowed,
      can_log,
      run_covers project run actor request db db' plan r empty,
    ) in
    (db'', ap (λ k. finish k at event db') r.named ∙ ended)
