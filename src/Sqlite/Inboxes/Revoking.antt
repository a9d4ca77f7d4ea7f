-- ===== src/Sqlite/Inboxes/Revoking.antt =====
-- The revocation of an inbox: `crates/blobyard-repository-sqlite/src/inboxes.rs`.
use mathlib.Core.Path.{subst}
use blobyard_core.Contract.{Repo, not_found, invalid_input}
use blobyard_core.Sqlite.Database.{to_i64, validate_texts, changed_once}
use blobyard_core.Sqlite.Table.{find_row, update_row, find_row-update_row_self, update_row-eq-one}
use blobyard_core.Sqlite.Transfers.Rows.{changed_once-eq-ok}
use blobyard_core.Sqlite.Sharing.Audit.{NewAuditEvent, insert_event}
use blobyard_core.Sqlite.Inboxes.{
  InboxRow, InboxRecord, InboxDatabase, inbox_key, is_open_inbox, inbox_by_id, find_inbox,
  validate_inbox_event, closed, can_close, close_inbox, revoke_inbox,
}
use blobyard_core.Base.{
  ℕ, ◌≡◌, refl, sym, ap, ◌∙◌, inl, inr, Bool, true, false, some, [], ◌∷◌, arith, leb, Bool-cases,
  Str, lit, str_eq, guard, ok-injective, >>=-eq-ok, >>-eq-ok, ok,
}

close_inbox_found :
    (id workspace : Str) (at_ms : ℕ) (event : NewAuditEvent) (inbox : InboxRecord)
    (db db' : InboxDatabase) (changed : Bool)
    → close_inbox id workspace at_ms event inbox db ≡ ok (changed, db')
    → (i : InboxRow) × (at : ℕ) × (can_close workspace i ≡ true)
      × (find_inbox id db' ≡ some (closed at i))
unfolding close_inbox
close_inbox_found id workspace at_ms event inbox db db' changed h =
    let (_, h1) =
      >>-eq-ok (validate_inbox_event event (lit "inbox.revoked") inbox.id inbox.workspace_id at_ms)
        _ h in
    let (at, _, h2) = >>=-eq-ok (to_i64 at_ms) _ h1 in
    let (_, h3) = >>-eq-ok (guard (leb inbox.created_at_ms at_ms) invalid_input) _ h2 in
    let updated = update_row inbox_key id (can_close workspace) (closed at) db.inboxes in
    let (once, h4) = >>-eq-ok (changed_once updated.0) _ h3 in
    let (events, _, h5) = >>=-eq-ok (insert_event event db.stored.events) _ h4 in
    let middle : InboxDatabase = record db {
      stored = record db.stored { events = events };
      inboxes = updated.1;
    } in
    let (i, there, passed) =
      update_row-eq-one inbox_key id (can_close workspace) (closed at) db.inboxes
        (changed_once-eq-ok _ once) in
    let same : db'.inboxes ≡ updated.1 =
      ap (λ (p : Bool × InboxDatabase). p.1.inboxes)
        (sym (ok-injective (true, middle) (changed, db') h5)) in
    (
      i,
      at,
      passed,
      ap (find_row inbox_key id) same
          ∙ find_row-update_row_self inbox_key id (can_close workspace) (closed at) db.inboxes
              (λ x. refl)
          ∙ rw (there, passed) refl,
    )

-- An inbox that was revoked, now or before, stays so: the same revocation at any later time and
-- with any event succeeds, says that it has changed nothing, and changes nothing.
pub revoke_inbox-revoke_inbox :
    (id workspace : Str) (at_ms again_ms : ℕ) (event other : NewAuditEvent) (db db' : InboxDatabase)
    (changed : Bool)
    → revoke_inbox id workspace at_ms event db ≡ ok (changed, db')
    → revoke_inbox id workspace again_ms other db' ≡ ok (false, db')
unfolding revoke_inbox inbox_by_id
revoke_inbox-revoke_inbox id workspace at_ms again_ms event other db db' changed h =
    let (texts, h1) = >>-eq-ok (validate_texts (id ∷ workspace ∷ [])) _ h in
    let (inbox, read, h2) = >>=-eq-ok (inbox_by_id id db) _ h1 in
    let (owner, h3) = >>-eq-ok (guard (str_eq inbox.workspace_id workspace) not_found) _ h2 in
    elim (Bool-cases (is_open_inbox inbox.status)) [
      | inl opened ↦
          let (i, at, passed, found) =
            close_inbox_found id workspace at_ms event inbox db db' changed (rw opened at h3) in
          let own : str_eq i.workspace_id workspace ≡ true = ground arith in
          rw (texts, found, own, revoke_inbox, inbox_by_id)
      | inr shut ↦
          let e : ◌≡◌ {A = Repo (Bool × InboxDatabase)} (ok (false, db)) (ok (changed, db')) =
            rw shut at h3 in
          let same : db ≡ db' =
            ap (λ (p : Bool × InboxDatabase). p.1) (ok-injective (false, db) (changed, db') e) in
          subst (λ d. revoke_inbox id workspace again_ms other d ≡ ok (false, d)) same
            (rw (texts, revoke_inbox, read, owner, shut))
    ]
