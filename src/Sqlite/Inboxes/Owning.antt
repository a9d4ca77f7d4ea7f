-- ===== src/Sqlite/Inboxes/Owning.antt =====
-- The creation and the revocation of an inbox keep the accounts:
-- `crates/blobyard-repository-sqlite/src/inboxes.rs`.
use mathlib.Core.Path.{subst}
use blobyard_core.Contract.{Repo, not_found, conflict, invalid_input}
use blobyard_core.Sqlite.Database.{to_i64, validate_texts, changed_once}
use blobyard_core.Sqlite.Table.{
  find_row, update_row, find_row-update_row_ne, find_row-update_row_self, update_row-eq-one,
}
use blobyard_core.Sqlite.Transfers.{find_reservation}
use blobyard_core.Sqlite.Transfers.Rows.{changed_once-eq-ok}
use blobyard_core.Sqlite.Transfers.Versions.{insert_row-eq-some}
use blobyard_core.Sqlite.Sharing.{workspace_of}
use blobyard_core.Sqlite.Sharing.Audit.{NewAuditEvent, insert_event}
use blobyard_core.Sqlite.Inboxes.{
  LinkRow, link_key, NewInbox, InboxRow, InboxRecord, InboxDatabase, inbox_key, is_open_inbox,
  inbox_by_id, find_inbox, ValidatedInbox, validate_new_inbox, validate_inbox_event, new_inbox_row,
  insert_inbox, create_inbox, closed, can_close, close_inbox, revoke_inbox,
}
use blobyard_core.Sqlite.Inboxes.Ledger.{IsBalanced, IsLedger}
use blobyard_core.Sqlite.Inboxes.Opening.{IsLedger-created}
use blobyard_core.Base.{
  ℕ, ◌≡◌, refl, sym, ap, ◌∙◌, inl, inr, Bool, true, false, not, none, some, List, [], ◌∷◌, ◌++◌,
  arith, leb, Bool-cases, any, Str, lit, str_eq, str_eq_iff, guard, ok-injective, ok_or-eq-ok,
  >>=-eq-ok, >>-eq-ok, is_some_and, ok,
}

insert_inbox_rows :
    (inbox : NewInbox) (values : ValidatedInbox) (db : InboxDatabase) (rows : List InboxRow)
    → insert_inbox inbox values db ≡ ok rows
    → (find_inbox inbox.id db ≡ none) × (rows ≡ db.inboxes ++ new_inbox_row inbox values ∷ [])
unfolding insert_inbox
insert_inbox_rows inbox values db rows h =
    let (_, h1) =
      >>-eq-ok
        (guard
          (is_some_and (workspace_of inbox.project_id db.stored) (λ w. str_eq w inbox.workspace_id))
          not_found)
        _ h in
    let (_, h2) =
      >>-eq-ok
        (guard
          (not (any (λ (i : InboxRow). str_eq i.capability_hash inbox.capability_hash) db.inboxes))
          conflict)
        _ h1 in
    insert_row-eq-some inbox_key (new_inbox_row inbox values) db.inboxes rows (ok_or-eq-ok _ _ h2)

pub create_inbox-IsLedger :
    (inbox : NewInbox) (event : NewAuditEvent) (db db' : InboxDatabase) (i : InboxRecord)
    → create_inbox inbox event db ≡ ok (i, db')
    → IsLedger db
    → IsLedger db'
unfolding create_inbox
create_inbox-IsLedger inbox event db db' i h inv =
    let (values, _, h1) = >>=-eq-ok (validate_new_inbox inbox) _ h in
    let (_, h2) =
      >>-eq-ok
        (validate_inbox_event event (lit "inbox.created") inbox.id inbox.workspace_id
          inbox.created_at_ms)
        _ h1 in
    let (rows, inserted, h3) = >>=-eq-ok (insert_inbox inbox values db) _ h2 in
    let (events, _, h4) = >>=-eq-ok (insert_event event db.stored.events) _ h3 in
    let middle : InboxDatabase = record db {
      stored = record db.stored { events = events };
      inboxes = rows;
    } in
    let (result, _, h5) = >>=-eq-ok (inbox_by_id inbox.id middle) _ h4 in
    let (free, shape) = insert_inbox_rows inbox values db rows inserted in
    subst (λ (d : InboxDatabase). IsLedger d)
      (ap (λ (p : InboxRecord × InboxDatabase). p.1) (ok-injective (result, middle) (i, db') h5))
      (IsLedger-created db middle (new_inbox_row inbox values) inv free shape refl refl refl refl
        refl refl)

-- A change of an inbox that leaves its counters and its bounds.
module _ (change : InboxRow → InboxRow) (keeps : (i : InboxRow) → (change i).id ≡ i.id)
    (steady : (j : Str) (i : InboxRow) (db : InboxDatabase)
      → IsBalanced j i db.links
      → IsBalanced j (change i) db.links) where
  IsLedger-changed :
      (id : Str) (test : InboxRow → Bool) (db db' : InboxDatabase) (i : InboxRow)
      → IsLedger db
      → find_inbox id db ≡ some i
      → test i ≡ true
      → db'.inboxes ≡ (update_row inbox_key id test change db.inboxes).1
      → db'.links ≡ db.links
      → db'.stored.uploads ≡ db.stored.uploads
      → IsLedger db'
  IsLedger-changed id test db db' i inv there passed inboxes links uploads =
      let after : find_inbox id db' ≡ some (change i) =
        ap (find_row inbox_key id) inboxes
        ∙ find_row-update_row_self inbox_key id test change db.inboxes keeps
        ∙ rw (there, passed) refl in
      let same_before : (j : Str) → str_eq id j ≡ false → find_inbox j db' ≡ find_inbox j db =
        λ j apart.
          ap (find_row inbox_key j) inboxes
          ∙ find_row-update_row_ne inbox_key j id test change db.inboxes keeps
              (ground (arith, str_eq_iff j id, str_eq_iff id j)) in
      record {
        balanced = λ j row here_row. elim (Bool-cases (str_eq id j)) [
          | inl own ↦
              let to : id ≡ j = (str_eq_iff id j).0 own in
              let e : some (change i) ≡ some row =
                sym after ∙ ap (λ x. find_row inbox_key x db'.inboxes) to ∙ here_row in
              let row' : change i ≡ row = cc in
              subst (λ x. IsBalanced x row db'.links) to
                (subst (λ x. IsBalanced id x db'.links) row'
                  (subst (λ x. IsBalanced id (change i) x) (sym links)
                    (steady id i db (inv.balanced id i there))))
          | inr apart ↦
              subst (λ x. IsBalanced j row x) (sym links)
                (inv.balanced j row (sym (same_before j apart) ∙ here_row))
        ];
        backed = λ k lk found_k.
            let (r, row, size) =
              inv.backed k lk (ap (λ ls. find_row link_key k ls) (sym links) ∙ found_k) in
            (r, ap (find_reservation k) uploads ∙ row, size);
        owned = λ j missing. elim (Bool-cases (str_eq id j)) [
          | inl own ↦
              let to : id ≡ j = (str_eq_iff id j).0 own in
              let bad : some (change i) ≡ none =
                sym after ∙ ap (λ x. find_row inbox_key x db'.inboxes) to ∙ missing in
              absurd (cc)
          | inr apart ↦
              ap (any (λ (x : LinkRow). str_eq x.inbox_id j)) links
              ∙ inv.owned j (sym (same_before j apart) ∙ missing)
        ];
      }

close_inbox-IsLedger :
    (id workspace : Str) (at_ms : ℕ) (event : NewAuditEvent) (inbox : InboxRecord)
    (db db' : InboxDatabase) (changed : Bool)
    → close_inbox id workspace at_ms event inbox db ≡ ok (changed, db')
    → IsLedger db
    → IsLedger db'
unfolding close_inbox
close_inbox-IsLedger id workspace at_ms event inbox db db' changed h inv =
    let (_, h1) =
      >>-eq-ok (validate_inbox_event event (lit "inbox.revoked") inbox.id inbox.workspace_id at_ms)
        _ h in
    let (at, _, h2) = >>=-eq-ok (to_i64 at_ms) _ h1 in
    let (_, h3) = >>-eq-ok (guard (leb inbox.created_at_ms at_ms) invalid_input) _ h2 in
    let updated = update_row inbox_key id (can_close workspace) (closed at) db.inboxes in
    let (once, h4) = >>-eq-ok (changed_once updated.0) _ h3 in
    let (events, _, h5) = >>=-eq-ok (insert_event event db.stored.events) _ h4 in
    let middle : InboxDatabase = record db {
      stored = record db.stored { events = events };
      inboxes = updated.1;
    } in
    let (i, there, passed) =
      update_row-eq-one inbox_key id (can_close workspace) (closed at) db.inboxes
        (changed_once-eq-ok _ once) in
    subst (λ (d : InboxDatabase). IsLedger d)
      (ap (λ (p : Bool × InboxDatabase). p.1) (ok-injective (true, middle) (changed, db') h5))
      (IsLedger-changed (closed at) (λ i. refl)
        (λ j row d b. record {
          reserved_files = b.reserved_files;
          reserved_bytes = b.reserved_bytes;
          current_files = b.current_files;
          current_bytes = b.current_bytes;
          files = b.files;
          bytes = b.bytes;
        })
        id (can_close workspace) db middle i inv there passed refl refl refl)

pub revoke_inbox-IsLedger :
    (id workspace : Str) (at_ms : ℕ) (event : NewAuditEvent) (db db' : InboxDatabase)
    (changed : Bool)
    → revoke_inbox id workspace at_ms event db ≡ ok (changed, db')
    → IsLedger db
    → IsLedger db'
unfolding revoke_inbox
revoke_inbox-IsLedger id workspace at_ms event db db' changed h inv =
    let (_, h1) = >>-eq-ok (validate_texts (id ∷ workspace ∷ [])) _ h in
    let (inbox, _, h2) = >>=-eq-ok (inbox_by_id id db) _ h1 in
    let (_, h3) = >>-eq-ok (guard (str_eq inbox.workspace_id workspace) not_found) _ h2 in
    elim (Bool-cases (is_open_inbox inbox.status)) [
      | inl opened ↦
          close_inbox-IsLedger id workspace at_ms event inbox db db' changed (rw opened at h3) inv
      | inr shut ↦
          let same : ◌≡◌ {A = Repo (Bool × InboxDatabase)} (ok (false, db)) (ok (changed, db')) =
            rw shut at h3 in
          subst (λ (d : InboxDatabase). IsLedger d)
            (ap (λ (p : Bool × InboxDatabase). p.1) (ok-injective (false, db) (changed, db') same))
            inv
    ]
