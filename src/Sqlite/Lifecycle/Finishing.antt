-- ===== src/Sqlite/Lifecycle/Finishing.antt =====
-- When a pending deletion or retention can be finished:
-- `crates/blobyard-repository-sqlite/src/lifecycle_deletion.rs`.
use blobyard_core.Contract.{conflict}
use blobyard_core.Sqlite.Database.{to_i64, i64_max}
use blobyard_core.Sqlite.Table.{find_row, update_row}
use blobyard_core.Sqlite.Sharing.{ShareDatabase}
use blobyard_core.Sqlite.Sharing.Audit.{NewAuditEvent, insert_event, validate_audit}
use blobyard_core.Sqlite.Lifecycle.{
  OperationRow, RunRow, LifecycleDatabase, run_key, is_done, is_retention, find_operation,
  operation_items,
}
use blobyard_core.Sqlite.Lifecycle.Finish.{
  validate_finished, finished_run, mark_complete, complete_run, finish_pending, finish,
}
use blobyard_core.Sqlite.Lifecycle.Doomed.{delete_selected_metadata-purge}
use blobyard_core.Sqlite.Lifecycle.Completion.{purged, complete_run_shape, purged_events}
use blobyard_core.Base.{
  ℕ, ◌≤◌, ◌≡◌, refl, sym, ap, ◌∙◌, ◌↔◌, inl, inr, true, false, not, ◌||◌, some, List, [], ◌∷◌, ◌++◌,
  arith, leb, le→leb, Bool-cases, length, any, Str, str_eq, guard, guard-eq-ok, >>=-eq-ok, >>-eq-ok,
  is_none_or, ok,
}

-- The audit event can be added: it is valid, its time fits, and its identifier is fresh.
abbrev pub CanLog : NewAuditEvent → LifecycleDatabase → Type 0
CanLog event db =
    (validate_audit event ≡ ok tt)
    × (event.created_at_ms ≤ i64_max)
    × (any (λ (e : NewAuditEvent). str_eq e.id event.id) db.stored.events ≡ false)

-- The run of a retention, where the operation is one, has considered at least as many versions as
-- the operation has items.
abbrev pub RunCovers : OperationRow → LifecycleDatabase → Type 0
RunCovers o db =
    (not (is_retention o.reason)
      || is_none_or (find_row run_key o.id db.runs)
          (λ (r : RunRow). leb (length (operation_items o.id db.items)) r.candidate_count))
    ≡ true

insert_event_total :
    (event : NewAuditEvent) (db : LifecycleDatabase)
    → CanLog event db
    → insert_event event db.stored.events ≡ ok (db.stored.events ++ event ∷ [])
unfolding insert_event to_i64
insert_event_total event db (valid, fits, fresh) =
    let short : leb event.created_at_ms i64_max ≡ true = le→leb event.created_at_ms i64_max fits in
    rw (valid, short, fresh) refl

complete_run_total :
    (o : OperationRow) (at : ℕ) (db : LifecycleDatabase)
    → RunCovers o db
    → (db' : LifecycleDatabase) × (complete_run o at db ≡ ok db') × (db'.stored ≡ db.stored)
unfolding complete_run
complete_run_total o at db covered = elim (Bool-cases (is_retention o.reason)) [
  | inl run ↦
      let count = length (operation_items o.id db.items) in
      let rows = update_row run_key o.id (λ (r : RunRow). true) (finished_run count at) db.runs in
      let covers : is_none_or (find_row run_key o.id db.runs)
            (λ (r : RunRow). leb count r.candidate_count)
          ≡ true =
        rw run at covered in
      (record db { runs = rows.1 }, rw (run, covers) refl, refl)
  | inr other ↦ (db, rw other refl, refl)
]

complete_run-RunCovers :
    (o : OperationRow) (at : ℕ) (db db' : LifecycleDatabase)
    → complete_run o at db ≡ ok db'
    → RunCovers o db
unfolding complete_run
complete_run-RunCovers o at db db' h = elim (Bool-cases (is_retention o.reason)) [
  | inl run ↦
      let covers =
        is_none_or (find_row run_key o.id db.runs)
          (λ (r : RunRow). leb (length (operation_items o.id db.items)) r.candidate_count) in
      let (held, _) = >>-eq-ok (guard covers conflict) _ (rw run at h) in
      rw run (guard-eq-ok covers conflict held)
  | inr other ↦ rw other refl
]

insert_event-CanLog :
    (event : NewAuditEvent) (db : LifecycleDatabase) (after : List NewAuditEvent)
    → insert_event event db.stored.events ≡ ok after
    → CanLog event db
unfolding insert_event to_i64
insert_event-CanLog event db after h =
    let (valid, h1) = >>-eq-ok (validate_audit event) _ h in
    let (at, fits, h2) = >>=-eq-ok (to_i64 event.created_at_ms) _ h1 in
    let fresh = any (λ (e : NewAuditEvent). str_eq e.id event.id) db.stored.events in
    let (unused, _) = >>-eq-ok (guard (not fresh) conflict) _ h2 in
    let free = guard-eq-ok (not fresh) conflict unused in (valid, ground arith, ground arith)

finish_pending-fits :
    (at : ℕ) (event : NewAuditEvent) (o : OperationRow) (db db' : LifecycleDatabase)
    → finish_pending o at event db ≡ ok db'
    → (validate_finished o event db ≡ ok tt) × CanLog event db × RunCovers o db
unfolding finish_pending
finish_pending-fits at event o db db' h =
    let (allowed, h1) = >>-eq-ok (validate_finished o event db) _ h in
    let without : LifecycleDatabase = record db { stored = purged o db } in
    let h2 = rw (delete_selected_metadata-purge o db) at h1 in
    let marked = mark_complete o.id at without in
    let (w, ran, h3) = >>=-eq-ok (complete_run o at marked) _ h2 in
    let (events, logged, _) = >>=-eq-ok (insert_event event w.stored.events) _ h3 in
    let stored : w.stored ≡ purged o db =
      ap (λ (d : LifecycleDatabase). d.stored) (complete_run_shape o at marked w ran) in
    let same : w.stored.events ≡ db.stored.events =
      ap (λ (s : ShareDatabase). s.events) stored ∙ purged_events o db in
    (
      allowed,
      insert_event-CanLog event db events (ap (insert_event event) (sym same) ∙ logged),
      complete_run-RunCovers o at marked w ran,
    )

finish_pending_total :
    (at : ℕ) (event : NewAuditEvent) (o : OperationRow) (db : LifecycleDatabase)
    → validate_finished o event db ≡ ok tt
    → CanLog event db
    → RunCovers o db
    → (db' : LifecycleDatabase) × (finish_pending o at event db ≡ ok db')
unfolding finish_pending
finish_pending_total at event o db allowed can_log covered =
    let without : LifecycleDatabase = record db { stored = purged o db } in
    let (w, ran, stored) = complete_run_total o at (mark_complete o.id at without) covered in
    let logged : insert_event event w.stored.events ≡ ok (db.stored.events ++ event ∷ []) =
      ap (λ (s : ShareDatabase). insert_event event s.events) stored
      ∙ ap (insert_event event) (purged_events o db)
      ∙ insert_event_total event db can_log in
    let events = db.stored.events ++ event ∷ [] in
    (
      record w { stored = record w.stored { events = events } },
      rw (allowed, delete_selected_metadata-purge o db, ran, logged) refl,
    )

-- A pending operation is finished exactly where the event fits it and can be added, and where, if
-- the operation is a retention, its run has considered at least as many versions as the operation
-- has items. Nothing else makes it fail: whatever uploads, grants and shares there are, no reference
-- between the modelled tables holds a removal up.
pub finish_total :
    (id : Str) (at : ℕ) (event : NewAuditEvent) (o : OperationRow) (db : LifecycleDatabase)
    → find_operation id db ≡ some o
    → is_done o.status ≡ false
    → ((db' : LifecycleDatabase) × (finish id at event db ≡ ok db'))
      ↔ ((validate_finished o event db ≡ ok tt) × CanLog event db × RunCovers o db)
unfolding finish
finish_total id at event o db row open_now = (
  λ (db', h). finish_pending-fits at event o db db' (rw (row, open_now) at h),
  λ (allowed, can_log, covered).
      let (db', done) = finish_pending_total at event o db allowed can_log covered in
      (db', rw (row, open_now) done),
)
