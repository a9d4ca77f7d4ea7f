-- ===== src/Sqlite/Lifecycle/Again.antt =====
-- A deletion that is asked for again: `begin` of
-- `crates/blobyard-repository-sqlite/src/lifecycle_deletion.rs`.
use blobyard_core.Contract.{Repo, not_found, invalid_input, ObjectVersionRecord}
use blobyard_core.Sqlite.Database.{to_i64, optional_i64, validate_texts}
use blobyard_core.Sqlite.Lifecycle.{
  NewObjectDeletion, ObjectDeletionTarget, ValidatedDeletion, DeletionPlan, OperationRow,
  LifecycleDatabase, validate_deletion, selected_versions, is_target_operation, pending_operation,
  completed_operation, done_before, deletion_plan, deletion_row, begin_new, planned_again, begin_at,
  begin, begin_object_deletion, is_zero,
}
use blobyard_core.Sqlite.Lifecycle.Planning.{IsBegun, begin_new_lem}
use blobyard_core.Base.{
  ◌≡◌, refl, sym, ap, ◌∙◌, inl, inr, true, false, not, none, some, List, [], ◌∷◌, arith,
  Option-cases, find?, find?-append_last, str_eq_refl, ok_or, ◌>>=◌, guard, ok-injective, >>=-eq-ok,
  >>-eq-ok, ok,
}

planned_again-eq-ok :
    (o : OperationRow) (db db' : LifecycleDatabase) (plan : DeletionPlan)
    → planned_again o db ≡ ok (plan, db')
    → db ≡ db'
planned_again-eq-ok o db db' plan h =
    let (p, _, e) = >>=-eq-ok (deletion_plan o.id db) _ h in
    let same : ◌≡◌ {A = DeletionPlan × LifecycleDatabase} (p, db) (plan, db') =
      ok-injective _ _ e in
    ap (λ q. q.1) same

-- `begin` answers from an operation that waits, or from one that is done where no version is left,
-- and changes nothing; or it makes a new operation.
pub data Begun (value : NewObjectDeletion) (validated : ValidatedDeletion)
    (db db' : LifecycleDatabase) (plan : DeletionPlan) : Type 0 where
  waiting :
      (o : OperationRow)
      → pending_operation value.target validated.selected_version db ≡ some o
      → db ≡ db'
      → planned_again o db ≡ ok (plan, db')
      → Begun value validated db db' plan
  done :
      pending_operation value.target validated.selected_version db ≡ none
      → selected_versions value.target validated.selected_version db ≡ []
      → db ≡ db'
      → done_before value.target validated.selected_version db ≡ ok (plan, db')
      → Begun value validated db db' plan
  new :
      (v : ObjectVersionRecord) (versions : List ObjectVersionRecord)
      → pending_operation value.target validated.selected_version db ≡ none
      → selected_versions value.target validated.selected_version db ≡ v ∷ versions
      → IsBegun value validated (v ∷ versions) db db' plan
      → Begun value validated db db' plan

begin_new-Begun :
    (value : NewObjectDeletion) (validated : ValidatedDeletion)
    (versions : List ObjectVersionRecord) (db db' : LifecycleDatabase) (plan : DeletionPlan)
    → pending_operation value.target validated.selected_version db ≡ none
    → selected_versions value.target validated.selected_version db ≡ versions
    → begin_new value validated versions db ≡ ok (plan, db')
    → Begun value validated db db' plan
unfolding begin_new
begin_new-Begun value validated [] db db' plan absent found h =
    let (o, _, h1) =
      >>=-eq-ok (ok_or (completed_operation value.target validated.selected_version db) not_found) _
        h in
    done absent found (planned_again-eq-ok o db db' plan h1) h
begin_new-Begun value validated (v ∷ versions) db db' plan absent found h =
    new v versions absent found (begin_new_lem value validated v versions db db' plan h)

pub begin-Begun :
    (value : NewObjectDeletion) (validated : ValidatedDeletion) (db db' : LifecycleDatabase)
    (plan : DeletionPlan)
    → begin value validated db ≡ ok (plan, db')
    → Begun value validated db db' plan
unfolding begin
begin-Begun value validated db db' plan h =
    elim (Option-cases (pending_operation value.target validated.selected_version db)) [
      | inl absent ↦
          begin_new-Begun value validated
            (selected_versions value.target validated.selected_version db) db db' plan absent refl
            (ap (λ o. begin_at o value validated db) (sym absent) ∙ h)
      | inr (o, there) ↦
          let h1 : planned_again o db ≡ ok (plan, db') =
            ap (λ p. begin_at p value validated db) (sym there) ∙ h in
          waiting o there (planned_again-eq-ok o db db' plan h1) h1
    ]

is_target_operation_own :
    (value : NewObjectDeletion) (validated : ValidatedDeletion)
    → is_target_operation value.target validated.selected_version false
        (deletion_row value validated)
      ≡ true
is_target_operation_own value validated = elim (Option-cases validated.selected_version) [
  | inl every ↦
      rw (str_eq_refl value.target.project_id, str_eq_refl value.target.object_path, every)
  | inr (n, one) ↦
      ground (arith, str_eq_refl value.target.project_id, str_eq_refl value.target.object_path, one)
]

begin_again :
    (value other : NewObjectDeletion) (validated valid : ValidatedDeletion)
    (db db' : LifecycleDatabase) (plan : DeletionPlan)
    → other.target ≡ value.target
    → valid.selected_version ≡ validated.selected_version
    → Begun value validated db db' plan
    → begin other valid db' ≡ ok (plan, db')
unfolding begin begin_new pending_operation
begin_again value other validated valid db db' plan target selected (waiting o there same answer) =
    let again : pending_operation other.target valid.selected_version db' ≡ some o =
      (λ i. pending_operation (target i) (selected i) (sym same i)) ∙ there in
    ap (λ p. begin_at p other valid db') again ∙ ap (planned_again o) (sym same) ∙ answer
begin_again value other validated valid db db' plan target selected
      (done absent found same answer) =
    let again : pending_operation other.target valid.selected_version db' ≡ none =
      (λ i. pending_operation (target i) (selected i) (sym same i)) ∙ absent in
    let left : selected_versions other.target valid.selected_version db' ≡ [] =
      (λ i. selected_versions (target i) (selected i) (sym same i)) ∙ found in
    ap (λ p. begin_at p other valid db') again
    ∙ ap (λ vs. begin_new other valid vs db') left
    ∙ (λ i. done_before (target i) (selected i) (sym same i))
    ∙ answer
begin_again value other validated valid db db' plan target selected
      (new v versions absent found b) =
    let row = deletion_row value validated in
    let there : pending_operation other.target valid.selected_version db' ≡ some row =
      (λ i. find? (is_target_operation (target i) (selected i) false) (b.operations i))
      ∙ find?-append_last (is_target_operation value.target validated.selected_version false)
          db.operations row absent (is_target_operation_own value validated) in
    ap (λ p. begin_at p other valid db') there
    ∙ ap (λ (r : Repo DeletionPlan). r >>= λ p. ok (p, db')) b.planned

pub validate_deletion-selected :
    (value : NewObjectDeletion) (validated : ValidatedDeletion)
    → validate_deletion value ≡ ok validated
    → optional_i64 value.target.version ≡ ok validated.selected_version
unfolding validate_deletion
validate_deletion-selected value validated h =
    let (_, h1) =
      >>-eq-ok
        (validate_texts (
          value.id ∷ value.target.project_id ∷ value.target.object_path ∷ value.actor
          ∷ value.request_id ∷ []))
        _ h in
    let (_, h2) = >>-eq-ok (guard (not (is_zero value.target.version)) invalid_input) _ h1 in
    let (selected, narrow, h3) = >>=-eq-ok (optional_i64 value.target.version) _ h2 in
    let (created, _, h4) = >>=-eq-ok (to_i64 value.created_at_ms) _ h3 in
    narrow ∙ ap (λ (v : ValidatedDeletion). ok v.selected_version) (ok-injective _ _ h4)

-- A deletion that has been begun is answered with the same plan, and nothing changes, when any
-- valid request for the same target comes next, whatever its identifier, actor and time.
pub begin_object_deletion-begin_object_deletion :
    (value other : NewObjectDeletion) (valid : ValidatedDeletion) (db db' : LifecycleDatabase)
    (plan : DeletionPlan)
    → begin_object_deletion value db ≡ ok (plan, db')
    → other.target ≡ value.target
    → validate_deletion other ≡ ok valid
    → begin_object_deletion other db' ≡ ok (plan, db')
unfolding begin_object_deletion
begin_object_deletion-begin_object_deletion value other valid db db' plan h target checked =
    let (validated, first, h1) = >>=-eq-ok (validate_deletion value) _ h in
    let selected : valid.selected_version ≡ validated.selected_version = ok-injective _ _ (
      sym (validate_deletion-selected other valid checked)
      ∙ ap (λ (t : ObjectDeletionTarget). optional_i64 t.version) target
      ∙ validate_deletion-selected value validated first) in
    ap (λ (r : Repo ValidatedDeletion). r >>= λ v. begin other v db') checked
    ∙ begin_again value other validated valid db db' plan target selected
        (begin-Begun value validated db db' plan h1)
