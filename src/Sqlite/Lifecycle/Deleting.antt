-- ===== src/Sqlite/Lifecycle/Deleting.antt =====
-- The operation that a request for a deletion makes: `begin` of
-- `crates/blobyard-repository-sqlite/src/lifecycle_deletion.rs`.
use blobyard_core.Contract.{not_found, ObjectVersionRecord}
use blobyard_core.Sqlite.Database.{optional_i64, to_i64}
use blobyard_core.Sqlite.Table.{find_row, find_row-append}
use blobyard_core.Sqlite.Transfers.Lifecycle.{to_i64-eq-ok}
use blobyard_core.Sqlite.Lifecycle.{
  NewObjectDeletion, ObjectDeletionTarget, ValidatedDeletion, DeletionPlan, ItemRow,
  LifecycleDatabase, operation_key, find_operation, at_target, validate_deletion, selected_versions,
  pending_operation, deletion_plan, deletion_row, begin_object_deletion,
}
use blobyard_core.Sqlite.Lifecycle.Planning.{IsBegun}
use blobyard_core.Sqlite.Lifecycle.Again.{
  Begun, waiting, done, new, begin-Begun, validate_deletion-selected,
}
use blobyard_core.Base.{
  ℕ, ◌≡◌, sym, ap, ◌∙◌, Bool, true, false, ◌&&◌, Option, none, some, List, ◌∷◌, arith, ltb, any,
  keep, any-keep, any-order_by, any_cong, Str, str_eq, str_eq_refl, ok_or, ok-injective, >>=-eq-ok,
  ok,
}

-- The versions that a request is for.
abbrev pub is_requested_version : NewObjectDeletion → ObjectVersionRecord → Bool
is_requested_version value =
    at_target value.target.project_id value.target.object_path value.target.version

-- No item waits for an operation of this identifier.
abbrev pub HasNoItems : Str → LifecycleDatabase → Type 0
HasNoItems id db = any (λ (i : ItemRow). str_eq i.operation_id id) db.items ≡ false

optional_i64-eq-ok : (o p : Option ℕ) → optional_i64 o ≡ ok p → p ≡ o
optional_i64-eq-ok none p h = sym (ok-injective _ _ h)
optional_i64-eq-ok (some n) p h =
    let (m, fits, e) = >>=-eq-ok (to_i64 n) _ h in
    sym (ok-injective _ _ e) ∙ ap (λ x. some x) (to_i64-eq-ok n m fits)

pub any_selected :
    (t : ObjectVersionRecord → Bool) (target : ObjectDeletionTarget) (selected : Option ℕ)
    (db : LifecycleDatabase)
    → any t (selected_versions target selected db)
      ≡ any
          (λ (v : ObjectVersionRecord).
            at_target target.project_id target.object_path selected v && t v)
          db.stored.uploads.versions
unfolding selected_versions
any_selected t target selected db =
    any-order_by t (λ (v : ObjectVersionRecord) (w : ObjectVersionRecord). ltb v.version w.version)
      (keep (at_target target.project_id target.object_path selected) db.stored.uploads.versions)
    ∙ any-keep t (at_target target.project_id target.object_path selected)
        db.stored.uploads.versions

pub deletion_plan-id :
    (id : Str) (db : LifecycleDatabase) (plan : DeletionPlan)
    → deletion_plan id db ≡ ok plan
    → plan.id ≡ id
unfolding deletion_plan
deletion_plan-id id db plan h =
    let (o, _, e) = >>=-eq-ok (ok_or (find_operation id db) not_found) _ h in
    ap (λ (p : DeletionPlan). p.id) (sym (ok-injective _ _ e))

pub begun_operation :
    (value : NewObjectDeletion) (validated : ValidatedDeletion)
    (versions : List ObjectVersionRecord) (db db' : LifecycleDatabase) (plan : DeletionPlan)
    → IsBegun value validated versions db db' plan
    → find_operation value.id db' ≡ some (deletion_row value validated)
begun_operation value validated versions db db' plan b =
    ap (find_row operation_key value.id) b.operations
    ∙ find_row-append operation_key value.id db.operations (deletion_row value validated)
    ∙ rw (b.fresh, str_eq_refl value.id)

-- A request that finds no operation and some version makes a new operation.
Begun-new :
    (value : NewObjectDeletion) (validated : ValidatedDeletion) (db db' : LifecycleDatabase)
    (plan : DeletionPlan)
    → Begun value validated db db' plan
    → validated.selected_version ≡ value.target.version
    → pending_operation value.target value.target.version db ≡ none
    → any (is_requested_version value) db.stored.uploads.versions ≡ true
    → (versions : List ObjectVersionRecord) × (selected_versions value.target
          validated.selected_version db
        ≡ versions)
      × IsBegun value validated versions db db' plan
Begun-new value validated db db' plan (waiting o there same answer) selected absent some_there =
    let bad : none ≡ some o =
      sym absent ∙ (λ i. pending_operation value.target (sym selected i) db) ∙ there in
    absurd (cc)
Begun-new value validated db db' plan (done absent' found same answer) selected absent some_there =
    let every = λ (w : ObjectVersionRecord). true in
    let listed : any (is_requested_version value) db.stored.uploads.versions ≡ false =
      any_cong (is_requested_version value)
        (λ (w : ObjectVersionRecord). is_requested_version value w && every w)
        db.stored.uploads.versions (λ w. ground arith)
      ∙ (λ i.
          any
            (λ (w : ObjectVersionRecord).
              at_target value.target.project_id value.target.object_path (sym selected i) w
              && every w)
            db.stored.uploads.versions)
      ∙ sym (any_selected every value.target validated.selected_version db)
      ∙ ap (any every) found in
    absurd (cc)
Begun-new value validated db db' plan (new w versions absent' found b) selected absent some_there =
    (w ∷ versions, found, b)

-- The operation of a request that finds none, and some version.
pub begin_object_deletion-new :
    (value : NewObjectDeletion) (db db' : LifecycleDatabase) (plan : DeletionPlan)
    → begin_object_deletion value db ≡ ok (plan, db')
    → pending_operation value.target value.target.version db ≡ none
    → any (is_requested_version value) db.stored.uploads.versions ≡ true
    → (validated : ValidatedDeletion) × (versions : List ObjectVersionRecord)
      × (validated.selected_version ≡ value.target.version)
      × (selected_versions value.target validated.selected_version db ≡ versions)
      × IsBegun value validated versions db db' plan
      × (plan.id ≡ value.id)
unfolding begin_object_deletion
begin_object_deletion-new value db db' plan h absent some_there =
    let (validated, checked, h1) = >>=-eq-ok (validate_deletion value) _ h in
    let selected =
      optional_i64-eq-ok value.target.version validated.selected_version
        (validate_deletion-selected value validated checked) in
    let (versions, found, b) =
      Begun-new value validated db db' plan (begin-Begun value validated db db' plan h1) selected
        absent some_there in
    (validated, versions, selected, found, b, deletion_plan-id value.id db' plan b.planned)
