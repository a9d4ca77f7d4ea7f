-- ===== src/Sqlite/Inboxes/Ledger.antt =====
-- The counters of an inbox as an account of its uploads:
-- `crates/blobyard-repository-sqlite/src/inbox_uploads.rs`.
use blobyard_core.Sqlite.Database.{ReservationRow, changed_once}
use blobyard_core.Sqlite.Table.{
  find_row, update_row, find_row-update_row_self, find_row-update_row_ne, update_row-eq-one,
}
use blobyard_core.Sqlite.Transfers.{find_reservation}
use blobyard_core.Sqlite.Transfers.Rows.{changed_once-eq-ok}
use blobyard_core.Sqlite.Inboxes.{
  InboxRow, LinkRow, LinkStatus, InboxDatabase, inbox_key, link_key, is_reserved, is_complete_link,
  find_inbox, find_link,
}
use blobyard_core.Sqlite.Inboxes.Uploads.{update_inbox, with_status, transition_link}
use blobyard_core.Base.{
  ℕ, ◌+◌, ◌≤◌, ◌≡◌, refl, sym, ap, ◌∙◌, Bool, true, false, ◌&&◌, none, some, List, if◌then◌else◌,
  any, sum_by, Str, str_eq, ok-injective, >>-eq-ok, ok,
}

-- One, or the size, for an upload of an inbox whose link has a status.
abbrev pub one_if : (LinkStatus → Bool) → Str → LinkRow → ℕ
one_if p id l = if str_eq l.inbox_id id && p l.status then 1 else 0

abbrev pub size_if : (LinkStatus → Bool) → Str → LinkRow → ℕ
size_if p id l = if str_eq l.inbox_id id && p l.status then l.reserved_size else 0

-- The counters of an inbox are the numbers and the sizes of its reserved and of its complete
-- uploads, and together they are within its maximum.
pub record IsBalanced (id : Str) (row : InboxRow) (links : List LinkRow) : Type 0 where
  pub reserved_files : row.reserved_files ≡ sum_by (one_if is_reserved id) links
  pub reserved_bytes : row.reserved_bytes ≡ sum_by (size_if is_reserved id) links
  pub current_files : row.current_files ≡ sum_by (one_if is_complete_link id) links
  pub current_bytes : row.current_bytes ≡ sum_by (size_if is_complete_link id) links
  pub files : row.current_files + row.reserved_files ≤ row.maximum_files
  pub bytes : row.current_bytes + row.reserved_bytes ≤ row.maximum_bytes

-- Every inbox is balanced, every upload into one has a reservation of the size that is reserved,
-- and every upload is into an inbox that is there.
pub record IsLedger (db : InboxDatabase) : Type 0 where
  pub balanced :
      (id : Str) (row : InboxRow) → find_inbox id db ≡ some row → IsBalanced id row db.links
  pub backed :
      (id : Str) (l : LinkRow)
      → find_link id db ≡ some l
      → (r : ReservationRow) × (find_reservation id db.stored.uploads ≡ some r)
        × (r.expected_size ≡ l.reserved_size)
  pub owned :
      (id : Str)
      → find_inbox id db ≡ none
      → any (λ (l : LinkRow). str_eq l.inbox_id id) db.links ≡ false

module _ (id : Str) (test : InboxRow → Bool) (change : InboxRow → InboxRow)
    (keeps : (i : InboxRow) → (change i).id ≡ i.id) (rows rows' : List InboxRow)
    (h : update_inbox id test change rows ≡ ok rows') where
  pub update_inbox_rows : rows' ≡ (update_row inbox_key id test change rows).1
  unfolding update_inbox
  update_inbox_rows =
      let (_, e) = >>-eq-ok (changed_once (update_row inbox_key id test change rows).0) _ h in
      sym (ok-injective _ _ e)

  pub update_inbox_found :
      (i : InboxRow) × (find_row inbox_key id rows ≡ some i)
      × (test i ≡ true)
      × (find_row inbox_key id rows' ≡ some (change i))
  unfolding update_inbox
  update_inbox_found =
      let (once, _) = >>-eq-ok (changed_once (update_row inbox_key id test change rows).0) _ h in
      let (i, found, passed) =
        update_row-eq-one inbox_key id test change rows (changed_once-eq-ok _ once) in
      (
        i,
        found,
        passed,
        ap (find_row inbox_key id) update_inbox_rows
            ∙ find_row-update_row_self inbox_key id test change rows keeps
            ∙ rw (found, passed) refl,
      )

  pub update_inbox_ne :
      (j : Str) → str_eq j id ≡ false → find_row inbox_key j rows' ≡ find_row inbox_key j rows
  update_inbox_ne j apart =
      ap (find_row inbox_key j) update_inbox_rows
      ∙ find_row-update_row_ne inbox_key j id test change rows keeps apart

-- A link that leaves the reserved state.
module _ (id : Str) (status : LinkStatus) (links links' : List LinkRow)
    (h : transition_link id status links ≡ ok links') where
  pub transition_link_found :
      (l : LinkRow) × (find_row link_key id links ≡ some l)
      × (is_reserved l.status ≡ true)
      × (links' ≡ (update_row link_key id (λ k. is_reserved k.status) (with_status status) links).1)
  unfolding transition_link
  transition_link_found =
      let test = λ (k : LinkRow). is_reserved k.status in
      let (once, e) =
        >>-eq-ok (changed_once (update_row link_key id test (with_status status) links).0) _ h in
      let (l, found, passed) =
        update_row-eq-one link_key id test (with_status status) links (changed_once-eq-ok _ once) in
      (l, found, passed, sym (ok-injective _ _ e))
