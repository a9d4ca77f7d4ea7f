-- ===== src/Sqlite/Lifecycle/Completion.antt =====
-- What a finished deletion leaves, and that it stays finished:
-- `crates/blobyard-repository-sqlite/src/lifecycle_deletion.rs`.
use blobyard_core.Contract.{conflict}
use blobyard_core.Sqlite.Database.{to_i64}
use blobyard_core.Sqlite.Table.{
  find_row, find_row-update_row_self, find_row-update_row_ne, find_row-key,
}
use blobyard_core.Sqlite.Sharing.{ShareDatabase}
use blobyard_core.Sqlite.Sharing.Audit.{NewAuditEvent, insert_event, validate_audit}
use blobyard_core.Sqlite.Lifecycle.{
  OperationRow, RunRow, LifecycleDatabase, operation_key, run_key, is_done, is_retention,
  find_operation, operation_items,
}
use blobyard_core.Sqlite.Lifecycle.Finish.{
  validate_finished, finished_row, mark_complete, complete_run, finish_pending, finish,
}
use blobyard_core.Sqlite.Lifecycle.Purge.{purge}
use blobyard_core.Sqlite.Lifecycle.Doomed.{is_doomed, names_doomed, delete_selected_metadata-purge}
use blobyard_core.Base.{
  ℕ, ◌≡◌, refl, sym, ap, ◌∙◌, inl, inr, false, not, some, List, [], ◌∷◌, ◌++◌, leb, Bool-cases,
  Option-cases, length, any, Str, str_eq, guard, ok-injective, >>=-eq-ok, >>-eq-ok, is_none_or, ok,
}

-- The tables of uploads and shares without what the operation removes.
abbrev pub purged : OperationRow → LifecycleDatabase → ShareDatabase
purged o db =
    purge (names_doomed o db.items db.stored.uploads.versions) (is_doomed o db.items) db.stored

pub complete_run_shape :
    (o : OperationRow) (at : ℕ) (db db' : LifecycleDatabase)
    → complete_run o at db ≡ ok db'
    → db' ≡ record db { runs = db'.runs }
unfolding complete_run
complete_run_shape o at db db' h = elim (Bool-cases (is_retention o.reason)) [
  | inl run ↦
      let (_, e) =
        >>-eq-ok
          (guard
            (is_none_or (find_row run_key o.id db.runs)
              (λ (r : RunRow). leb (length (operation_items o.id db.items)) r.candidate_count))
            conflict)
          _ (rw run at h) in
      let same = ok-injective _ _ e in
      sym same ∙ ap (λ (d : LifecycleDatabase). record db { runs = d.runs }) same
  | inr other ↦
      let same = ok-injective db db' (rw other at h) in
      sym same ∙ ap (λ (d : LifecycleDatabase). record db { runs = d.runs }) same
]

pub insert_event-eq-ok :
    (event : NewAuditEvent) (events after : List NewAuditEvent)
    → insert_event event events ≡ ok after
    → after ≡ events ++ event ∷ []
unfolding insert_event
insert_event-eq-ok event events after h =
    let (_, h1) = >>-eq-ok (validate_audit event) _ h in
    let (_, _, h2) = >>=-eq-ok (to_i64 event.created_at_ms) _ h1 in
    let (_, h3) =
      >>-eq-ok (guard (not (any (λ (e : NewAuditEvent). str_eq e.id event.id) events)) conflict) _
        h2 in
    sym (ok-injective _ _ h3)

-- What a finish at a time leaves of a database, for a pending operation.
pub record IsFinished (at : ℕ) (event : NewAuditEvent) (o : OperationRow)
    (db db' : LifecycleDatabase) : Type 0 where
  pub uploads : db'.stored.uploads ≡ (purged o db).uploads
  pub shares : db'.stored.shares ≡ (purged o db).shares
  pub events : db'.stored.events ≡ db.stored.events ++ event ∷ []
  pub items : db'.items ≡ db.items
  pub own : find_operation o.id db' ≡ some (finished_row at o)
  pub others : (j : Str) → str_eq j o.id ≡ false → find_operation j db' ≡ find_operation j db
  pub allowed : validate_finished o event db ≡ ok tt

pub purged_events :
    (o : OperationRow) (db : LifecycleDatabase) → (purged o db).events ≡ db.stored.events
unfolding purge
purged_events o db = refl

finish_pending_lem :
    (at : ℕ) (event : NewAuditEvent) (o : OperationRow) (db db' : LifecycleDatabase)
    → find_operation o.id db ≡ some o
    → is_done o.status ≡ false
    → finish_pending o at event db ≡ ok db'
    → IsFinished at event o db db'
unfolding finish_pending
finish_pending_lem at event o db db' row open_now h =
    let (allowed, h1) = >>-eq-ok (validate_finished o event db) _ h in
    let without : LifecycleDatabase = record db { stored = purged o db } in
    let h2 = rw (delete_selected_metadata-purge o db) at h1 in
    let (w, ran, h3) = >>=-eq-ok (complete_run o at (mark_complete o.id at without)) _ h2 in
    let (events, logged, h4) = >>=-eq-ok (insert_event event w.stored.events) _ h3 in
    let result = ok-injective _ _ h4 in
    let shape = complete_run_shape o at (mark_complete o.id at without) w ran in
    let stored : w.stored ≡ purged o db = ap (λ (d : LifecycleDatabase). d.stored) shape in
    let rows =
      ap (λ (d : LifecycleDatabase). d.operations) (sym result)
      ∙ ap (λ (d : LifecycleDatabase). d.operations) shape in
    let added = insert_event-eq-ok event w.stored.events events logged in
    record {
      uploads =
          ap (λ (d : LifecycleDatabase). d.stored.uploads) (sym result)
          ∙ ap (λ (s : ShareDatabase). s.uploads) stored;
      shares =
          ap (λ (d : LifecycleDatabase). d.stored.shares) (sym result)
          ∙ ap (λ (s : ShareDatabase). s.shares) stored;
      events =
          ap (λ (d : LifecycleDatabase). d.stored.events) (sym result)
          ∙ added
          ∙ ap (λ (es : List NewAuditEvent). es ++ event ∷ [])
              (ap (λ (s : ShareDatabase). s.events) stored ∙ purged_events o db);
      items =
          ap (λ (d : LifecycleDatabase). d.items) (sym result)
          ∙ ap (λ (d : LifecycleDatabase). d.items) shape;
      own =
          ap (find_row operation_key o.id) rows
          ∙ find_row-update_row_self operation_key o.id (λ p. not (is_done p.status))
              (finished_row at) db.operations (λ p. refl)
          ∙ rw (row, open_now) refl;
      others = λ j apart.
          ap (find_row operation_key j) rows
          ∙ find_row-update_row_ne operation_key j o.id (λ p. not (is_done p.status))
              (finished_row at) db.operations (λ p. refl) apart;
      allowed = allowed;
    }

-- Finishing a pending operation leaves the tables without its versions, those of its items and,
-- for a deleted object, the aborted ones of its target, without their reservations, parts and
-- grants and with no share on them; it marks the operation complete, no other, and adds the event.
pub finish_lem :
    (id : Str) (at : ℕ) (event : NewAuditEvent) (o : OperationRow) (db db' : LifecycleDatabase)
    → find_operation id db ≡ some o
    → is_done o.status ≡ false
    → finish id at event db ≡ ok db'
    → IsFinished at event o db db'
unfolding finish
finish_lem id at event o db db' row open_now h =
    let own : o.id ≡ id = find_row-key operation_key id db.operations o row in
    finish_pending_lem at event o db db' (ap (λ k. find_operation k db) own ∙ row) open_now
      (rw (row, open_now) at h)

-- A deletion that has been finished, now or before, succeeds again at any time and with any event,
-- and changes nothing.
pub finish-finish :
    (id : Str) (at later : ℕ) (event other : NewAuditEvent) (db db' : LifecycleDatabase)
    → finish id at event db ≡ ok db'
    → finish id later other db' ≡ ok db'
unfolding finish
finish-finish id at later event other db db' h = elim (Option-cases (find_operation id db)) [
  | inl missing ↦ absurd (let bad = rw missing at h in cc)
  | inr (o, row) ↦ elim (Bool-cases (is_done o.status)) [
    | inl done ↦
        let same : db ≡ db' = ok-injective db db' (rw (row, done) at h) in
        rw (← same, row, done) refl
    | inr open_now ↦
        let own : o.id ≡ id = find_row-key operation_key id db.operations o row in
        let f = finish_lem id at event o db db' row open_now h in
        let after : find_operation id db' ≡ some (finished_row at o) =
          ap (λ k. find_operation k db') (sym own) ∙ f.own in
        rw after refl
  ]
]
