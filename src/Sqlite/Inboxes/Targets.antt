-- ===== src/Sqlite/Inboxes/Targets.antt =====
-- The upload that a completion or an abortion is about:
-- `crates/blobyard-repository-sqlite/src/inbox_uploads.rs`.
use mathlib.Core.Path.{subst}
use blobyard_core.Contract.{
  Repo, conflict, not_found, UploadReservationRecord, is_inbox, is_uploaded,
}
use blobyard_core.Sqlite.Database.{ReservationRow, to_i64, validate_text}
use blobyard_core.Sqlite.Transfers.{find_reservation, is_open}
use blobyard_core.Sqlite.Transfers.Rows.{reservation_by_id-bind}
use blobyard_core.Sqlite.Sharing.{validate_capability}
use blobyard_core.Sqlite.Sharing.Audit.{NewAuditEvent}
use blobyard_core.Sqlite.Inboxes.{
  LinkRow, InboxDatabase, is_reserved, find_link, upload_of, link_opens,
}
use blobyard_core.Sqlite.Inboxes.Uploads.{
  inbox_reservation, reserved_inbox_id, validate_upload_event, completable, abortable,
}
use blobyard_core.Sqlite.Inboxes.Ledger.{IsLedger}
use blobyard_core.Base.{
  ℕ, ◌≡◌, sym, ap, ◌∙◌, some, Str, lit, ok_or, ◌>>=◌, guard, ok-injective, ok_or-eq-ok, >>=-eq-ok,
  >>-eq-ok, is_some_and, ok,
}

inbox_reservation-size :
    (capability id : Str) (now : ℕ) (db : InboxDatabase) (u : UploadReservationRecord)
    → inbox_reservation capability id now db ≡ ok u
    → (r : ReservationRow) × (find_reservation id db.stored.uploads ≡ some r)
      × (u.expected_size ≡ r.expected_size)
unfolding inbox_reservation upload_of
inbox_reservation-size capability id now db u h =
    let (u', read, h1) = >>=-eq-ok (upload_of capability id now db) _ h in
    let (_, h2) = >>-eq-ok (guard (is_inbox u'.version.source) not_found) _ h1 in
    let same : u' ≡ u = ok-injective u' u h2 in
    let (_, h3) =
      >>-eq-ok (guard (is_some_and (find_link id db) (link_opens capability now db)) not_found) _
        read in
    let (r, v, row, _, shape) =
      reservation_by_id-bind id db.stored.uploads (λ (x : UploadReservationRecord). ok x) u'
        (ap (λ (x : Repo UploadReservationRecord). x >>= λ y. ok y) h3) in
    (
      r,
      row,
      ap (λ (x : UploadReservationRecord). x.expected_size)
          (sym same ∙ sym (ok-injective _ _ shape)),
    )

reserved_inbox_id-eq-ok :
    (id inbox : Str) (db : InboxDatabase)
    → reserved_inbox_id id db ≡ ok inbox
    → (l : LinkRow) × (find_link id db ≡ some l) × (l.inbox_id ≡ inbox)
unfolding reserved_inbox_id
reserved_inbox_id-eq-ok id inbox db h =
    let (l, found, h1) = >>=-eq-ok (ok_or (find_link id db) not_found) _ h in
    let (_, h2) = >>-eq-ok (guard (is_reserved l.status) not_found) _ h1 in
    (l, ok_or-eq-ok (find_link id db) not_found found, ok-injective _ _ h2)

-- The size of the upload is the size that its link has reserved.
sized_link :
    (id : Str) (db : InboxDatabase) (u : UploadReservationRecord) (l : LinkRow)
    → IsLedger db
    → find_link id db ≡ some l
    → ((r : ReservationRow) × (find_reservation id db.stored.uploads ≡ some r)
        × (u.expected_size ≡ r.expected_size))
    → l.reserved_size ≡ u.expected_size
sized_link id db u l inv found (r, row, size) =
    let (r', row', size') = inv.backed id l found in
    let both : some r ≡ some r' = sym row ∙ row' in
    let same : r ≡ r' = cc in
    sym size' ∙ ap (λ (x : ReservationRow). x.expected_size) (sym same) ∙ sym size

-- An upload with the link of an inbox, of the size that the link has reserved.
pub record IsTarget (id : Str) (u : UploadReservationRecord) (inbox : Str) (db : InboxDatabase)
    : Type 0 where
  pub link : LinkRow
  pub found : find_link id db ≡ some link
  pub to : link.inbox_id ≡ inbox
  pub size : link.reserved_size ≡ u.expected_size

IsTarget-of_read :
    (capability id : Str) (now : ℕ) (u : UploadReservationRecord) (inbox : Str) (db : InboxDatabase)
    → IsLedger db
    → inbox_reservation capability id now db ≡ ok u
    → reserved_inbox_id id db ≡ ok inbox
    → IsTarget id u inbox db
IsTarget-of_read capability id now u inbox db inv read linked =
    let (l, found, to) = reserved_inbox_id-eq-ok id inbox db linked in
    record {
      link = l;
      found = found;
      to = to;
      size = sized_link id db u l inv found (inbox_reservation-size capability id now db u read);
    }

pub completable-IsTarget :
    (capability id : Str) (now_ms : ℕ) (event : NewAuditEvent) (db : InboxDatabase)
    (target : UploadReservationRecord × Str)
    → IsLedger db
    → completable capability id now_ms event db ≡ ok target
    → IsTarget id target.0 target.1 db
unfolding completable
completable-IsTarget capability id now_ms event db target inv h =
    let (_, h1) = >>-eq-ok (validate_capability capability) _ h in
    let (_, h2) = >>-eq-ok (validate_text id) _ h1 in
    let (now, _, h3) = >>=-eq-ok (to_i64 now_ms) _ h2 in
    let (u, read, h4) = >>=-eq-ok (inbox_reservation capability id now db) _ h3 in
    let (_, h5) = >>-eq-ok (guard (is_uploaded u.state) conflict) _ h4 in
    let (inbox, linked, h6) = >>=-eq-ok (reserved_inbox_id id db) _ h5 in
    let (_, h7) =
      >>-eq-ok (validate_upload_event event (lit "inbox.uploaded") inbox u.expected_size now_ms) _
        h6 in
    subst (λ (t : UploadReservationRecord × Str). IsTarget id t.0 t.1 db)
      (ok-injective (u, inbox) target h7)
      (IsTarget-of_read capability id now u inbox db inv read linked)

pub abortable-IsTarget :
    (capability id : Str) (now_ms : ℕ) (db : InboxDatabase) (target : UploadReservationRecord × Str)
    → IsLedger db
    → abortable capability id now_ms db ≡ ok target
    → IsTarget id target.0 target.1 db
unfolding abortable
abortable-IsTarget capability id now_ms db target inv h =
    let (_, h1) = >>-eq-ok (validate_capability capability) _ h in
    let (_, h2) = >>-eq-ok (validate_text id) _ h1 in
    let (now, _, h3) = >>=-eq-ok (to_i64 now_ms) _ h2 in
    let (u, read, h4) = >>=-eq-ok (inbox_reservation capability id now db) _ h3 in
    let (_, h5) = >>-eq-ok (guard (is_open u.state) conflict) _ h4 in
    let (inbox, linked, h6) = >>=-eq-ok (reserved_inbox_id id db) _ h5 in
    subst (λ (t : UploadReservationRecord × Str). IsTarget id t.0 t.1 db)
      (ok-injective (u, inbox) target h6)
      (IsTarget-of_read capability id now u inbox db inv read linked)
