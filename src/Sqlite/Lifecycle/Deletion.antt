-- ===== src/Sqlite/Lifecycle/Deletion.antt =====
-- An object deletion from its beginning to its end:
-- `crates/blobyard-repository-sqlite/src/lifecycle_deletion.rs`.
use blobyard_core.Contract.{ObjectVersionRecord, UploadState, is_complete, is_pending}
use blobyard_core.Sqlite.Database.{Database, version_key}
use blobyard_core.Sqlite.Table.{IsUnique, IsUnique-any, IsUnique-found}
use blobyard_core.Sqlite.Transfers.{find_version}
use blobyard_core.Sqlite.Sharing.{ShareDatabase}
use blobyard_core.Sqlite.Sharing.Audit.{NewAuditEvent}
use blobyard_core.Sqlite.Lifecycle.{
  NewObjectDeletion, ValidatedDeletion, DeletionPlan, ItemRow, LifecycleDatabase, at_target,
  selected_versions, pending_operation, deletion_row, item_of, begin_object_deletion,
}
use blobyard_core.Sqlite.Lifecycle.Finish.{finish, is_aborted}
use blobyard_core.Sqlite.Lifecycle.Purge.{purge}
use blobyard_core.Sqlite.Lifecycle.Doomed.{is_planned, is_doomed}
use blobyard_core.Sqlite.Lifecycle.Completion.{finish_lem}
use blobyard_core.Sqlite.Lifecycle.Planning.{IsBegun}
use blobyard_core.Base.{
  ℕ, ◌≡◌, refl, sym, ap, ◌∙◌, Bool, true, false, not, ◌&&◌, ◌||◌, none, some, List, map, arith, any,
  keep, any-keep, All-map, All-zip, All-of_any, keep_cong-All, any-append, any_and, any_cong,
  any-map, Str, str_eq, str_eq_refl, ok,
}
use blobyard_core.Sqlite.Lifecycle.Deleting.{
  is_requested_version, HasNoItems, any_selected, begun_operation, begin_object_deletion-new,
}

settled_state :
    (a : Bool) (s : UploadState)
    → (a && is_pending s) ≡ false
    → not ((a && is_complete s) || (a && is_aborted s)) ≡ not a
settled_state a s h = ground arith

-- The items of a new operation name the complete versions of its target.
module _ (value : NewObjectDeletion) (validated : ValidatedDeletion)
    (versions : List ObjectVersionRecord) (db db' : LifecycleDatabase) (plan : DeletionPlan)
    (found : selected_versions value.target validated.selected_version db ≡ versions)
    (b : IsBegun value validated versions db db' plan) (empty : HasNoItems value.id db) where
  begun_items :
      (k : Str)
      → is_planned value.id db'.items k
        ≡ any
            (λ (v : ObjectVersionRecord).
              at_target value.target.project_id value.target.object_path validated.selected_version
                v
              && (is_complete v.state && str_eq k v.id))
            db.stored.uploads.versions
  begun_items k =
      let chosen = keep (λ (v : ObjectVersionRecord). is_complete v.state) versions in
      let named = λ (i : ItemRow). str_eq i.operation_id value.id && str_eq k i.version_id in
      let before : any named db.items ≡ false =
        any_and (λ (i : ItemRow). str_eq i.operation_id value.id)
          (λ (i : ItemRow). str_eq k i.version_id) db.items empty in
      ap (any named) b.items
      ∙ any-append named db.items (map (item_of value.id) chosen)
      ∙ ap (λ x. x || any named (map (item_of value.id) chosen)) before
      ∙ any-map named (item_of value.id) chosen
      ∙ ap (λ x. any (λ (v : ObjectVersionRecord). x && str_eq k v.id) chosen)
          (str_eq_refl value.id)
      ∙ any-keep (λ (v : ObjectVersionRecord). str_eq k v.id)
          (λ (v : ObjectVersionRecord). is_complete v.state) versions
      ∙ ap (any (λ (v : ObjectVersionRecord). is_complete v.state && str_eq k v.id)) (sym found)
      ∙ any_selected (λ (v : ObjectVersionRecord). is_complete v.state && str_eq k v.id)
          value.target validated.selected_version db

  -- On a row of the table the removal agrees with the request.
  is_doomed-begun :
      validated.selected_version ≡ value.target.version
      → IsUnique version_key db.stored.uploads.versions
      → (v : ObjectVersionRecord) → find_version v.id db.stored.uploads ≡ some v
      → (is_requested_version value v && is_pending v.state) ≡ false
      → not (is_doomed (deletion_row value validated) db'.items v)
        ≡ not (is_requested_version value v)
  is_doomed-begun selected unique v own settled =
      let planned : is_planned value.id db'.items v.id ≡ (
          at_target value.target.project_id value.target.object_path validated.selected_version v
          && is_complete v.state) =
        begun_items v.id
        ∙ any_cong
            (λ (w : ObjectVersionRecord).
              at_target value.target.project_id value.target.object_path validated.selected_version
                w
              && (is_complete w.state && str_eq v.id w.id))
            (λ (w : ObjectVersionRecord).
              at_target value.target.project_id value.target.object_path validated.selected_version
                w
              && is_complete w.state
              && str_eq v.id w.id)
            db.stored.uploads.versions (λ w. ground arith)
        ∙ IsUnique-any version_key
            (λ (w : ObjectVersionRecord).
              at_target value.target.project_id value.target.object_path validated.selected_version
                w
              && is_complete w.state)
            v db.stored.uploads.versions unique own in
      ap
        (λ x. not (
          x
          || (at_target value.target.project_id value.target.object_path validated.selected_version
                v
              && is_aborted v.state)))
        planned
      ∙ (λ i. not (
          (at_target value.target.project_id value.target.object_path (selected i) v
            && is_complete v.state)
          || (at_target value.target.project_id value.target.object_path (selected i) v
              && is_aborted v.state)))
      ∙ settled_state (is_requested_version value v) v.state settled

  -- The identifiers of the table decide which of its versions are gone.
  delete_versions_left :
      (at : ℕ) (event : NewAuditEvent) (db'' : LifecycleDatabase)
      → validated.selected_version ≡ value.target.version
      → IsUnique version_key db.stored.uploads.versions
      → finish value.id at event db' ≡ ok db''
      → db''.stored.uploads.versions
        ≡ keep (λ v. not (is_requested_version value v)) db.stored.uploads.versions
  unfolding purge
  delete_versions_left at event db'' selected unique h =
      let row = deletion_row value validated in
      let waits = λ (v : ObjectVersionRecord). is_requested_version value v && is_pending v.state in
      let none_waits : any waits db.stored.uploads.versions ≡ false =
        (λ i.
          any
            (λ (v : ObjectVersionRecord).
              at_target value.target.project_id value.target.object_path (sym selected i) v
              && is_pending v.state)
            db.stored.uploads.versions)
        ∙ sym (
            any_selected (λ (v : ObjectVersionRecord). is_pending v.state) value.target
              validated.selected_version db)
        ∙ ap (any (λ (v : ObjectVersionRecord). is_pending v.state)) found
        ∙ b.settled in
      let left =
        (finish_lem value.id at event row db' db''
          (begun_operation value validated versions db db' plan b) refl h).uploads in
      let rows : db'.stored.uploads.versions ≡ db.stored.uploads.versions =
        ap (λ (s : ShareDatabase). s.uploads.versions) b.stored in
      ap (λ (d : Database). d.versions) left
      ∙ ap (keep (λ v. not (is_doomed row db'.items v))) rows
      ∙ keep_cong-All (λ v. not (is_doomed row db'.items v))
          (λ v. not (is_requested_version value v)) db.stored.uploads.versions
          (All-map db.stored.uploads.versions
            (λ v pair. is_doomed-begun selected unique v pair.0 pair.1)
            (All-zip (λ (v : ObjectVersionRecord). find_version v.id db.stored.uploads ≡ some v)
              (λ (v : ObjectVersionRecord).
                (is_requested_version value v && is_pending v.state) ≡ false)
              db.stored.uploads.versions
              (IsUnique-found version_key db.stored.uploads.versions unique)
              (All-of_any waits db.stored.uploads.versions none_waits)))

-- A deletion that is begun where no other waits for its target, and then finished, leaves exactly
-- the versions that it was not for: those of other objects and, when it is for one version, the
-- other versions of its object. There is some version of the target, versions have different
-- identifiers, and no item stands under the identifier of the new operation.
pub begin_object_deletion-finish :
    (value : NewObjectDeletion) (at : ℕ) (event : NewAuditEvent) (db db' db'' : LifecycleDatabase)
    (plan : DeletionPlan)
    → begin_object_deletion value db ≡ ok (plan, db')
    → pending_operation value.target value.target.version db ≡ none
    → HasNoItems value.id db
    → IsUnique version_key db.stored.uploads.versions
    → any (is_requested_version value) db.stored.uploads.versions ≡ true
    → finish plan.id at event db' ≡ ok db''
    → db''.stored.uploads.versions
      ≡ keep (λ w. not (is_requested_version value w)) db.stored.uploads.versions
begin_object_deletion-finish value at event db db' db'' plan h absent empty unique some_there
      ended =
    let (validated, versions, selected, found, b, named) =
      begin_object_deletion-new value db db' plan h absent some_there in
    delete_versions_left value validated versions db db' plan found b empty at event db'' selected
      unique (ap (λ k. finish k at event db') (sym named) ∙ ended)
