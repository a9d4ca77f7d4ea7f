-- ===== src/Sqlite/Inboxes/Settling.antt =====
-- What the completion or the abortion of an upload does to the account of its inbox:
-- `crates/blobyard-repository-sqlite/src/inbox_uploads.rs`.
use blobyard_core.Sqlite.Table.{find_row, update_row, sum_by-update_row}
use blobyard_core.Sqlite.Inboxes.{
  InboxRow, LinkRow, LinkStatus, link_key, is_reserved, is_complete_link,
}
use blobyard_core.Sqlite.Inboxes.Uploads.{with_status, with_completed, with_released, holds}
use blobyard_core.Sqlite.Inboxes.Ledger.{one_if, size_if, IsBalanced}
use blobyard_core.Base.{
  ℕ, ◌+◌, ◌≡◌, true, false, some, List, arith, sum_by, Str, str_eq, str_eq_refl,
}

-- The links after one that was reserved got another status.
abbrev pub settled_links : Str → LinkStatus → List LinkRow → List LinkRow
settled_links id status links =
    (update_row link_key id (λ k. is_reserved k.status) (with_status status) links).1

module _ (id : Str) (status : LinkStatus) (links : List LinkRow) (l : LinkRow)
    (found : find_row link_key id links ≡ some l) (held : is_reserved l.status ≡ true) where
  moved :
      (w : LinkRow → ℕ)
      → sum_by w (settled_links id status links) + w l ≡ sum_by w links + w (with_status status l)
  moved w =
      sum_by-update_row link_key w id (λ k. is_reserved k.status) (with_status status) links l found
        held

  pub IsBalanced-other :
      (j : Str) (row : InboxRow)
      → str_eq l.inbox_id j ≡ false
      → IsBalanced j row links
      → IsBalanced j row (settled_links id status links)
  IsBalanced-other j row apart b = record {
    reserved_files =
        let e = moved (one_if is_reserved j) in let before = b.reserved_files in ground arith;
    reserved_bytes =
        let e = moved (size_if is_reserved j) in let before = b.reserved_bytes in ground arith;
    current_files =
        let e = moved (one_if is_complete_link j) in let before = b.current_files in ground arith;
    current_bytes =
        let e = moved (size_if is_complete_link j) in let before = b.current_bytes in ground arith;
    files = b.files;
    bytes = b.bytes;
  }

pub IsBalanced-completed :
    (id : Str) (links : List LinkRow) (l : LinkRow) (row : InboxRow)
    → find_row link_key id links ≡ some l
    → is_reserved l.status ≡ true
    → holds l.reserved_size row ≡ true
    → IsBalanced l.inbox_id row links
    → IsBalanced l.inbox_id
        (with_completed l.reserved_size row)
        (settled_links id LinkStatus.complete links)
IsBalanced-completed id links l row found held enough b =
    let own = str_eq_refl l.inbox_id in
    let move = moved id LinkStatus.complete links l found held in
    let bf = b.files in
    let bb = b.bytes in
    record {
      reserved_files =
          let e = move (one_if is_reserved l.inbox_id) in
          let before = b.reserved_files in ground arith;
      reserved_bytes =
          let e = move (size_if is_reserved l.inbox_id) in
          let before = b.reserved_bytes in ground arith;
      current_files =
          let e = move (one_if is_complete_link l.inbox_id) in
          let before = b.current_files in ground arith;
      current_bytes =
          let e = move (size_if is_complete_link l.inbox_id) in
          let before = b.current_bytes in ground arith;
      files = ground arith;
      bytes = ground arith;
    }

pub IsBalanced-released :
    (id : Str) (links : List LinkRow) (l : LinkRow) (row : InboxRow)
    → find_row link_key id links ≡ some l
    → is_reserved l.status ≡ true
    → holds l.reserved_size row ≡ true
    → IsBalanced l.inbox_id row links
    → IsBalanced l.inbox_id
        (with_released l.reserved_size row)
        (settled_links id LinkStatus.aborted links)
IsBalanced-released id links l row found held enough b =
    let own = str_eq_refl l.inbox_id in
    let move = moved id LinkStatus.aborted links l found held in
    let bf = b.files in
    let bb = b.bytes in
    record {
      reserved_files =
          let e = move (one_if is_reserved l.inbox_id) in
          let before = b.reserved_files in ground arith;
      reserved_bytes =
          let e = move (size_if is_reserved l.inbox_id) in
          let before = b.reserved_bytes in ground arith;
      current_files =
          let e = move (one_if is_complete_link l.inbox_id) in
          let before = b.current_files in ground arith;
      current_bytes =
          let e = move (size_if is_complete_link l.inbox_id) in
          let before = b.current_bytes in ground arith;
      files = ground arith;
      bytes = ground arith;
    }
