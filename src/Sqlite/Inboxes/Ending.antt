-- ===== src/Sqlite/Inboxes/Ending.antt =====
-- The completion and the abortion of an upload keep the accounts:
-- `crates/blobyard-repository-sqlite/src/inbox_uploads.rs`.
use mathlib.Core.Path.{subst}
use blobyard_core.Contract.{not_found, ObjectVersionRecord, UploadReservationRecord, is_uploaded}
use blobyard_core.Sqlite.Database.{Database, to_i64}
use blobyard_core.Sqlite.Transfers.{
  find_version, update_reservation, completed, completed_version, same_state, aborted_row,
  aborted_version, without_parts,
}
use blobyard_core.Sqlite.Transfers.Rows.{update_version_reservations}
use blobyard_core.Sqlite.Transfers.Lifecycle.{to_i64-eq-ok}
use blobyard_core.Sqlite.Sharing.Audit.{NewAuditEvent, insert_event}
use blobyard_core.Sqlite.Inboxes.{InboxRow, LinkStatus, InboxDatabase}
use blobyard_core.Sqlite.Inboxes.Uploads.{
  with_completed, with_released, holds, update_inbox, complete_capacity, release_capacity,
  transition_link, complete_rows, completable, write_completion, abortable, write_abortion,
  abort_rows, complete_inbox_upload, abort_inbox_upload,
}
use blobyard_core.Sqlite.Inboxes.Ledger.{IsBalanced, IsLedger}
use blobyard_core.Sqlite.Inboxes.Settling.{settled_links, IsBalanced-completed, IsBalanced-released}
use blobyard_core.Sqlite.Inboxes.Targets.{IsTarget, completable-IsTarget, abortable-IsTarget}
use blobyard_core.Sqlite.Inboxes.Keeping.{KeepsSizes, KeepsSizes-update, IsLedger-settled}
use blobyard_core.Base.{ℕ, ◌≡◌, refl, sym, ap, ◌∙◌, List, Str, ok_or, ok-injective, >>=-eq-ok, ok}

complete_capacity-eq-ok :
    (id : Str) (size : ℕ) (rows rows' : List InboxRow)
    → complete_capacity id size rows ≡ ok rows'
    → update_inbox id (holds size) (with_completed size) rows ≡ ok rows'
unfolding complete_capacity
complete_capacity-eq-ok id size rows rows' h =
    let (n, fits, h1) = >>=-eq-ok (to_i64 size) _ h in
    ap (λ k. update_inbox id (holds k) (with_completed k) rows) (sym (to_i64-eq-ok size n fits))
    ∙ h1

release_capacity-eq-ok :
    (id : Str) (size : ℕ) (rows rows' : List InboxRow)
    → release_capacity id size rows ≡ ok rows'
    → update_inbox id (holds size) (with_released size) rows ≡ ok rows'
unfolding release_capacity
release_capacity-eq-ok id size rows rows' h =
    let (n, fits, h1) = >>=-eq-ok (to_i64 size) _ h in
    ap (λ k. update_inbox id (holds k) (with_released k) rows) (sym (to_i64-eq-ok size n fits)) ∙ h1

complete_rows-KeepsSizes :
    (id : Str) (u : UploadReservationRecord) (db db' : Database)
    → complete_rows id u db ≡ ok db'
    → KeepsSizes db db'
unfolding complete_rows
complete_rows-KeepsSizes id u db db' h k r found =
    let (marked, first, h1) =
      >>=-eq-ok (update_reservation id (λ r. is_uploaded r.state) completed db) _ h in
    let (size, _, h2) = >>=-eq-ok (to_i64 u.expected_size) _ h1 in
    let (r', there, sized) =
      KeepsSizes-update id (λ r. is_uploaded r.state) completed db marked (λ r. refl) (λ r. refl)
        first k r found in
    (
      r',
      update_version_reservations u.version.id (completed_version size u.expected_checksum)
            (λ v. refl) marked db' h2 k
          ∙ there,
      sized,
    )

abort_rows-KeepsSizes :
    (id : Str) (u : UploadReservationRecord) (db db' : Database)
    → abort_rows id u db ≡ ok db'
    → KeepsSizes db db'
unfolding abort_rows
abort_rows-KeepsSizes id u db db' h k r found =
    let (marked, first, h1) =
      >>=-eq-ok (update_reservation id (λ r. same_state u.state r.state) aborted_row db) _ h in
    let (r', there, sized) =
      KeepsSizes-update id (λ r. same_state u.state r.state) aborted_row db marked (λ r. refl)
        (λ r. refl) first k r found in
    (
      r',
      update_version_reservations u.version.id aborted_version (λ v. refl) (without_parts id marked)
            db' h1 k
          ∙ there,
      sized,
    )

-- Both ends of an upload, given what its statements have written.
module _ (id : Str) (u : UploadReservationRecord) (inbox : Str) (db db' : InboxDatabase)
    (inv : IsLedger db) (t : IsTarget id u inbox db)
    (kept : KeepsSizes db.stored.uploads db'.stored.uploads) where
  IsLedger-completed :
      complete_capacity inbox u.expected_size db.inboxes ≡ ok db'.inboxes
      → transition_link id LinkStatus.complete db.links ≡ ok db'.links
      → IsLedger db'
  IsLedger-completed paid ended =
      IsLedger-settled id LinkStatus.complete u.expected_size (with_completed u.expected_size)
        (λ i. refl)
        (λ ls k row there held enough sized b.
          subst
            (λ n.
              IsBalanced k.inbox_id (with_completed n row)
                (settled_links id LinkStatus.complete ls))
            sized (IsBalanced-completed id ls k row there held enough b))
        db db' t.link inv t.found t.size kept
        (ap
            (λ k.
              update_inbox k (holds u.expected_size) (with_completed u.expected_size) db.inboxes)
            t.to
          ∙ complete_capacity-eq-ok inbox u.expected_size db.inboxes db'.inboxes paid)
        ended

  IsLedger-released :
      release_capacity inbox u.expected_size db.inboxes ≡ ok db'.inboxes
      → transition_link id LinkStatus.aborted db.links ≡ ok db'.links
      → IsLedger db'
  IsLedger-released paid ended =
      IsLedger-settled id LinkStatus.aborted u.expected_size (with_released u.expected_size)
        (λ i. refl)
        (λ ls k row there held enough sized b.
          subst
            (λ n.
              IsBalanced k.inbox_id (with_released n row) (settled_links id LinkStatus.aborted ls))
            sized (IsBalanced-released id ls k row there held enough b))
        db db' t.link inv t.found t.size kept
        (ap (λ k. update_inbox k (holds u.expected_size) (with_released u.expected_size) db.inboxes)
            t.to
          ∙ release_capacity-eq-ok inbox u.expected_size db.inboxes db'.inboxes paid)
        ended

write_completion-IsLedger :
    (id : Str) (u : UploadReservationRecord) (inbox : Str) (event : NewAuditEvent)
    (db db' : InboxDatabase) (v : ObjectVersionRecord)
    → write_completion id u inbox event db ≡ ok (v, db')
    → IsLedger db
    → IsTarget id u inbox db
    → IsLedger db'
unfolding write_completion
write_completion-IsLedger id u inbox event db db' v h inv t =
    let (uploads, marked, h1) = >>=-eq-ok (complete_rows id u db.stored.uploads) _ h in
    let (inboxes, paid, h2) = >>=-eq-ok (complete_capacity inbox u.expected_size db.inboxes) _ h1 in
    let (links, ended, h3) = >>=-eq-ok (transition_link id LinkStatus.complete db.links) _ h2 in
    let (events, _, h4) = >>=-eq-ok (insert_event event db.stored.events) _ h3 in
    let (w, _, h5) = >>=-eq-ok (ok_or (find_version u.version.id uploads) not_found) _ h4 in
    let middle : InboxDatabase = record db {
      stored = record db.stored { uploads = uploads; events = events };
      inboxes = inboxes;
      links = links;
    } in
    subst (λ (d : InboxDatabase). IsLedger d)
      (ap (λ (p : ObjectVersionRecord × InboxDatabase). p.1) (ok-injective (w, middle) (v, db') h5))
      (IsLedger-completed id u inbox db middle inv t
        (complete_rows-KeepsSizes id u db.stored.uploads uploads marked) paid ended)

write_abortion-IsLedger :
    (id : Str) (u : UploadReservationRecord) (inbox : Str) (db db' : InboxDatabase)
    (a : UploadReservationRecord)
    → write_abortion id u inbox db ≡ ok (a, db')
    → IsLedger db
    → IsTarget id u inbox db
    → IsLedger db'
unfolding write_abortion
write_abortion-IsLedger id u inbox db db' a h inv t =
    let (uploads, marked, h1) = >>=-eq-ok (abort_rows id u db.stored.uploads) _ h in
    let (inboxes, paid, h2) = >>=-eq-ok (release_capacity inbox u.expected_size db.inboxes) _ h1 in
    let (links, ended, h3) = >>=-eq-ok (transition_link id LinkStatus.aborted db.links) _ h2 in
    let middle : InboxDatabase = record db {
      stored = record db.stored { uploads = uploads };
      inboxes = inboxes;
      links = links;
    } in
    subst (λ (d : InboxDatabase). IsLedger d)
      (ap (λ (p : UploadReservationRecord × InboxDatabase). p.1)
        (ok-injective (u, middle) (a, db') h3))
      (IsLedger-released id u inbox db middle inv t
        (abort_rows-KeepsSizes id u db.stored.uploads uploads marked) paid ended)

pub complete_inbox_upload-IsLedger :
    (capability id : Str) (now_ms : ℕ) (event : NewAuditEvent) (db db' : InboxDatabase)
    (v : ObjectVersionRecord)
    → complete_inbox_upload capability id now_ms event db ≡ ok (v, db')
    → IsLedger db
    → IsLedger db'
unfolding complete_inbox_upload
complete_inbox_upload-IsLedger capability id now_ms event db db' v h inv =
    let (t, checked, h1) = >>=-eq-ok (completable capability id now_ms event db) _ h in
    write_completion-IsLedger id t.0 t.1 event db db' v h1 inv
      (completable-IsTarget capability id now_ms event db t inv checked)

pub abort_inbox_upload-IsLedger :
    (capability id : Str) (now_ms : ℕ) (db db' : InboxDatabase) (a : UploadReservationRecord)
    → abort_inbox_upload capability id now_ms db ≡ ok (a, db')
    → IsLedger db
    → IsLedger db'
unfolding abort_inbox_upload
abort_inbox_upload-IsLedger capability id now_ms db db' a h inv =
    let (t, checked, h1) = >>=-eq-ok (abortable capability id now_ms db) _ h in
    write_abortion-IsLedger id t.0 t.1 db db' a h1 inv
      (abortable-IsTarget capability id now_ms db t inv checked)
