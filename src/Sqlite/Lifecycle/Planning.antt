-- ===== src/Sqlite/Lifecycle/Planning.antt =====
-- The plan that `begin` of `crates/blobyard-repository-sqlite/src/lifecycle_deletion.rs` makes.
use mathlib.Core.List.{append_assoc, append-nil}
use blobyard_core.Contract.{conflict, ObjectVersionRecord, is_complete, is_pending}
use blobyard_core.Sqlite.Table.{insert_row}
use blobyard_core.Sqlite.Transfers.Versions.{insert_row-eq-some}
use blobyard_core.Sqlite.Transfers.{text_in}
use blobyard_core.Sqlite.Lifecycle.{
  NewObjectDeletion, ValidatedDeletion, DeletionPlan, OperationRow, ItemRow, LifecycleDatabase,
  operation_key, find_operation, is_target_operation, deletion_plan, insert_operation, deletion_row,
  item_of, deleted_version, add_item, insert_item, insert_items, begin_new,
}
use blobyard_core.Base.{
  ◌≡◌, sym, ap, ◌∙◌, Bool, false, not, ◌&&◌, none, List, [], ◌∷◌, ◌++◌, map, arith, ltb, any, keep,
  str_eq, ok_or, guard, ok-injective, guard-eq-ok, ok_or-eq-ok, >>=-eq-ok, >>-eq-ok, ok,
}

-- Only items and the versions that are known as deleted have been added.
pub record IsPlanned (o : OperationRow) (versions : List ObjectVersionRecord)
    (db db' : LifecycleDatabase) : Type 0 where
  pub items : db'.items ≡ db.items ++ map (item_of o.id) versions
  pub deleted :
      db'.stored.uploads.deleted ≡ db.stored.uploads.deleted ++ map (deleted_version o) versions
  pub rest : db' ≡ record db {
    stored = record db.stored {
      uploads = record db.stored.uploads { deleted = db'.stored.uploads.deleted };
    };
    items = db'.items;
  }

pub insert_items_lem :
    (o : OperationRow) (versions : List ObjectVersionRecord) (db db' : LifecycleDatabase)
    → insert_items o versions db ≡ ok db'
    → IsPlanned o versions db db'
unfolding insert_items insert_item
insert_items_lem o [] db db' h =
    let same : db ≡ db' = ok-injective db db' h in
    record {
      items = ap (λ (d : LifecycleDatabase). d.items) (sym same) ∙ sym (append-nil db.items);
      deleted =
          ap (λ (d : LifecycleDatabase). d.stored.uploads.deleted) (sym same)
          ∙ sym (append-nil db.stored.uploads.deleted);
      rest =
          sym same
          ∙ ap
              (λ (d : LifecycleDatabase). record db {
                stored = record db.stored {
                  uploads = record db.stored.uploads { deleted = d.stored.uploads.deleted };
                };
                items = d.items;
              })
              same;
    }
insert_items_lem o (v ∷ versions) db db' h =
    let (added, inserted, h1) = >>=-eq-ok (insert_item o v db) _ h in
    let (_, e) =
      >>-eq-ok
        (guard
          (ltb 0 v.version
            && not (
                any (λ (i : ItemRow). str_eq i.operation_id o.id && str_eq i.version_id v.id)
                  db.items))
          conflict)
        _ inserted in
    let first : add_item o v db ≡ added = ok-injective _ _ e in
    let ih = insert_items_lem o versions added db' h1 in
    record {
      items =
          ih.items
          ∙ ap (λ (d : LifecycleDatabase). d.items ++ map (item_of o.id) versions) (sym first)
          ∙ append_assoc db.items (item_of o.id v ∷ []) (map (item_of o.id) versions);
      deleted =
          ih.deleted
          ∙ ap
              (λ (d : LifecycleDatabase).
                d.stored.uploads.deleted ++ map (deleted_version o) versions)
              (sym first)
          ∙ append_assoc db.stored.uploads.deleted (deleted_version o v ∷ [])
              (map (deleted_version o) versions);
      rest =
          ih.rest
          ∙ ap
              (λ (d : LifecycleDatabase). record d {
                stored = record d.stored {
                  uploads = record d.stored.uploads { deleted = db'.stored.uploads.deleted };
                };
                items = db'.items;
              })
              (sym first);
    }

pub insert_operation-eq-ok :
    (row : OperationRow) (taken : Bool) (db db' : LifecycleDatabase)
    → insert_operation row taken db ≡ ok db'
    → (db' ≡ record db { operations = db.operations ++ row ∷ [] })
      × (find_operation row.id db ≡ none)
unfolding insert_operation
insert_operation-eq-ok row taken db db' h =
    let (_, h1) =
      >>-eq-ok (guard (text_in row.project_id db.stored.uploads.projects && not taken) conflict) _
        h in
    let (rows, inserted, h2) =
      >>=-eq-ok (ok_or (insert_row operation_key row db.operations) conflict) _ h1 in
    let put = ok_or-eq-ok (insert_row operation_key row db.operations) conflict inserted in
    let (free, rows') = insert_row-eq-some operation_key row db.operations rows put in
    (
      sym (ok-injective _ _ h2)
          ∙ ap (λ (os : List OperationRow). record db { operations = os }) rows',
      free,
    )

-- A new operation with the complete ones of some versions.
pub record IsBegun (value : NewObjectDeletion) (validated : ValidatedDeletion)
    (versions : List ObjectVersionRecord) (db db' : LifecycleDatabase) (plan : DeletionPlan)
    : Type 0 where
  pub settled : any (λ (v : ObjectVersionRecord). is_pending v.state) versions ≡ false
  pub fresh : find_operation value.id db ≡ none
  pub operations : db'.operations ≡ db.operations ++ deletion_row value validated ∷ []
  pub items :
      db'.items
      ≡ db.items
        ++ map (item_of value.id) (keep (λ (v : ObjectVersionRecord). is_complete v.state) versions)
  pub deleted :
      db'.stored.uploads.deleted
      ≡ db.stored.uploads.deleted
        ++ map
            (deleted_version (deletion_row value validated))
            (keep (λ (v : ObjectVersionRecord). is_complete v.state) versions)
  pub stored : db'.stored ≡ record db.stored {
    uploads = record db.stored.uploads { deleted = db'.stored.uploads.deleted };
  }
  pub planned : deletion_plan value.id db' ≡ ok plan

pub begin_new_lem :
    (value : NewObjectDeletion) (validated : ValidatedDeletion) (v : ObjectVersionRecord)
    (versions : List ObjectVersionRecord) (db db' : LifecycleDatabase) (plan : DeletionPlan)
    → begin_new value validated (v ∷ versions) db ≡ ok (plan, db')
    → IsBegun value validated (v ∷ versions) db db' plan
unfolding begin_new
begin_new_lem value validated v versions db db' plan h =
    let row = deletion_row value validated in
    let waiting = any (λ (w : ObjectVersionRecord). is_pending w.state) (v ∷ versions) in
    let chosen = keep (λ (w : ObjectVersionRecord). is_complete w.state) (v ∷ versions) in
    let taken =
      any (is_target_operation value.target validated.selected_version false) db.operations in
    let (settled, h1) = >>-eq-ok (guard (not waiting) conflict) _ h in
    let (middle, opened, h2) = >>=-eq-ok (insert_operation row taken db) _ h1 in
    let (last, filled, h3) = >>=-eq-ok (insert_items row chosen middle) _ h2 in
    let (plan', planned, h4) = >>=-eq-ok (deletion_plan value.id last) _ h3 in
    let same : ◌≡◌ {A = DeletionPlan × LifecycleDatabase} (plan', last) (plan, db') =
      ok-injective _ _ h4 in
    let last' : last ≡ db' = ap (λ p. p.1) same in
    let plan'' : plan' ≡ plan = ap (λ p. p.0) same in
    let (middle', fresh) = insert_operation-eq-ok row taken db middle opened in
    let f =
      insert_items_lem row chosen middle db'
        (filled ∙ ap (λ (d : LifecycleDatabase). ok d) last') in
    let none_waits = guard-eq-ok (not waiting) conflict settled in
    record {
      settled = ground arith;
      fresh = fresh;
      operations =
          ap (λ (d : LifecycleDatabase). d.operations) f.rest
          ∙ ap (λ (d : LifecycleDatabase). d.operations) middle';
      items =
          f.items
          ∙ ap (λ (d : LifecycleDatabase). d.items ++ map (item_of value.id) chosen) middle';
      deleted =
          f.deleted
          ∙ ap
              (λ (d : LifecycleDatabase).
                d.stored.uploads.deleted ++ map (deleted_version row) chosen)
              middle';
      stored =
          ap (λ (d : LifecycleDatabase). d.stored) f.rest
          ∙ ap
              (λ (d : LifecycleDatabase). record d.stored {
                uploads = record d.stored.uploads { deleted = db'.stored.uploads.deleted };
              })
              middle';
      planned =
          ap (deletion_plan value.id) (sym last')
          ∙ planned
          ∙ ap (λ (p : DeletionPlan). ok p) plan'';
    }
