-- ===== src/Sqlite/Inboxes/Opening.antt =====
-- The account of an inbox through a new upload, and through a new inbox:
-- `crates/blobyard-repository-sqlite/src/inbox_uploads.rs` and `inboxes.rs`.
use mathlib.Core.Path.{subst}
use blobyard_core.Sqlite.Database.{ReservationRow}
use blobyard_core.Sqlite.Table.{find_row}
use blobyard_core.Sqlite.Transfers.{find_reservation}
use blobyard_core.Sqlite.Transfers.Versions.{find_inserted, find_other}
use blobyard_core.Sqlite.Inboxes.{
  InboxRow, LinkRow, LinkStatus, InboxDatabase, inbox_key, link_key, is_reserved, is_complete_link,
  find_inbox, find_link,
}
use blobyard_core.Sqlite.Inboxes.Uploads.{has_room, with_reserved, update_inbox}
use blobyard_core.Sqlite.Inboxes.Ledger.{
  one_if, size_if, IsBalanced, IsLedger, update_inbox_found, update_inbox_ne,
}
use blobyard_core.Sqlite.Inboxes.Keeping.{KeepsSizes}
use blobyard_core.Base.{
  ℕ, ◌+◌, ◌≡◌, refl, sym, ap, ◌∙◌, inl, inr, true, false, none, some, List, [], ◌∷◌, ◌++◌, arith,
  Bool-cases, any, any-append, sum_by, sum_by-append, sum_by_zero, Str, str_eq, str_eq_iff,
  str_eq_refl, ok,
}

module _ (links : List LinkRow) (l : LinkRow) (held : l.status ≡ LinkStatus.reserved) where
  added : (w : LinkRow → ℕ) → sum_by w (links ++ l ∷ []) ≡ sum_by w links + w l
  added w = omega (arith, sum_by-append w links (l ∷ []))

  pub IsBalanced-elsewhere :
      (j : Str) (row : InboxRow)
      → str_eq l.inbox_id j ≡ false
      → IsBalanced j row links
      → IsBalanced j row (links ++ l ∷ [])
  IsBalanced-elsewhere j row apart b = record {
    reserved_files =
        let e = added (one_if is_reserved j) in let before = b.reserved_files in ground arith;
    reserved_bytes =
        let e = added (size_if is_reserved j) in let before = b.reserved_bytes in ground arith;
    current_files =
        let e = added (one_if is_complete_link j) in let before = b.current_files in ground arith;
    current_bytes =
        let e = added (size_if is_complete_link j) in let before = b.current_bytes in ground arith;
    files = b.files;
    bytes = b.bytes;
  }

  pub IsBalanced-reserved :
      (row : InboxRow)
      → has_room l.reserved_size row ≡ true
      → IsBalanced l.inbox_id row links
      → IsBalanced l.inbox_id (with_reserved l.reserved_size row) (links ++ l ∷ [])
  IsBalanced-reserved row room b =
      let own = str_eq_refl l.inbox_id in
      let yes : is_reserved l.status ≡ true = ap is_reserved held in
      let no : is_complete_link l.status ≡ false = ap is_complete_link held in
      let bf = b.files in
      let bb = b.bytes in
      record {
        reserved_files =
            let e = added (one_if is_reserved l.inbox_id) in
            let before = b.reserved_files in ground arith;
        reserved_bytes =
            let e = added (size_if is_reserved l.inbox_id) in
            let before = b.reserved_bytes in ground arith;
        current_files =
            let e = added (one_if is_complete_link l.inbox_id) in
            let before = b.current_files in ground arith;
        current_bytes =
            let e = added (size_if is_complete_link l.inbox_id) in
            let before = b.current_bytes in ground arith;
        files = ground arith;
        bytes = ground arith;
      }

-- An upload that is reserved: a new link, and its inbox in step with it.
pub IsLedger-opened :
    (db db' : InboxDatabase) (l : LinkRow)
    → IsLedger db
    → l.status ≡ LinkStatus.reserved
    → find_link l.upload_id db ≡ none
    → db'.links ≡ db.links ++ l ∷ []
    → update_inbox l.inbox_id (has_room l.reserved_size) (with_reserved l.reserved_size) db.inboxes
      ≡ ok db'.inboxes
    → KeepsSizes db.stored.uploads db'.stored.uploads
    → ((r : ReservationRow) × (find_reservation l.upload_id db'.stored.uploads ≡ some r)
        × (r.expected_size ≡ l.reserved_size))
    → IsLedger db'
IsLedger-opened db db' l inv held free links paid kept backing =
    let change = with_reserved l.reserved_size in
    let (i, there, room, after) =
      update_inbox_found l.inbox_id (has_room l.reserved_size) change (λ x. refl) db.inboxes
        db'.inboxes paid in
    let same_before : (j : Str) → str_eq l.inbox_id j ≡ false → find_inbox j db' ≡ find_inbox j db =
      λ j apart.
        update_inbox_ne l.inbox_id (has_room l.reserved_size) change (λ x. refl) db.inboxes
          db'.inboxes paid j (ground (arith, str_eq_iff j l.inbox_id, str_eq_iff l.inbox_id j)) in
    record {
      balanced = λ j row here_row. elim (Bool-cases (str_eq l.inbox_id j)) [
        | inl own ↦
            let to : l.inbox_id ≡ j = (str_eq_iff l.inbox_id j).0 own in
            let e : some (change i) ≡ some row =
              sym after ∙ ap (λ x. find_row inbox_key x db'.inboxes) to ∙ here_row in
            let row' : change i ≡ row = cc in
            subst (λ x. IsBalanced x row db'.links) to
              (subst (λ x. IsBalanced l.inbox_id x db'.links) row'
                (subst (λ x. IsBalanced l.inbox_id (change i) x) (sym links)
                  (IsBalanced-reserved db.links l held i room (inv.balanced l.inbox_id i there))))
        | inr apart ↦
            subst (λ x. IsBalanced j row x) (sym links)
              (IsBalanced-elsewhere db.links l held j row apart
                (inv.balanced j row (sym (same_before j apart) ∙ here_row)))
      ];
      backed = λ k lk found_k. elim (Bool-cases (str_eq k l.upload_id)) [
        | inl own ↦
            let same : k ≡ l.upload_id = (str_eq_iff k l.upload_id).0 own in
            let e : some l ≡ some lk =
              sym (find_inserted link_key l db.links free)
              ∙ ap (λ x. find_row link_key x (db.links ++ l ∷ [])) (sym same)
              ∙ ap (find_row link_key k) (sym links)
              ∙ found_k in
            let lk' : l ≡ lk = cc in
            let (r, row, size) = backing in
            (
              r,
              ap (λ x. find_reservation x db'.stored.uploads) same ∙ row,
              size ∙ ap (λ (x : LinkRow). x.reserved_size) lk',
            )
        | inr apart ↦
            let (r, row, size) = inv.backed k lk (
              sym (find_other link_key k l db.links apart)
              ∙ ap (find_row link_key k) (sym links)
              ∙ found_k) in
            let (r', row', size') = kept k r row in (r', row', size' ∙ size)
      ];
      owned = λ j missing. elim (Bool-cases (str_eq l.inbox_id j)) [
        | inl own ↦
            let to : l.inbox_id ≡ j = (str_eq_iff l.inbox_id j).0 own in
            let bad : some (change i) ≡ none =
              sym after ∙ ap (λ x. find_row inbox_key x db'.inboxes) to ∙ missing in
            absurd (cc)
        | inr apart ↦
            let before = inv.owned j (sym (same_before j apart) ∙ missing) in
            ap (any (λ (x : LinkRow). str_eq x.inbox_id j)) links
            ∙ any-append (λ (x : LinkRow). str_eq x.inbox_id j) db.links (l ∷ [])
            ∙ ground arith
      ];
    }

-- A new inbox has no uploads, so that its counters are zero.
pub IsLedger-created :
    (db db' : InboxDatabase) (i : InboxRow)
    → IsLedger db
    → find_inbox i.id db ≡ none
    → db'.inboxes ≡ db.inboxes ++ i ∷ []
    → db'.links ≡ db.links
    → db'.stored.uploads ≡ db.stored.uploads
    → i.reserved_files ≡ 0
    → i.reserved_bytes ≡ 0
    → i.current_files ≡ 0
    → i.current_bytes ≡ 0
    → IsLedger db'
IsLedger-created db db' i inv free inboxes links uploads rf rb cf cb =
    let empty : (w : LinkRow → ℕ)
        → ((l : LinkRow) → str_eq l.inbox_id i.id ≡ false → w l ≡ 0)
        → sum_by w db.links ≡ 0 =
      λ w zeros.
        sum_by_zero (λ (l : LinkRow). str_eq l.inbox_id i.id) w db.links (inv.owned i.id free)
          zeros in
    let apart_of : (j : Str) → str_eq i.id j ≡ false → str_eq j i.id ≡ false =
      λ j apart. ground (arith, str_eq_iff j i.id, str_eq_iff i.id j) in
    let same_before : (j : Str) → str_eq i.id j ≡ false → find_inbox j db' ≡ find_inbox j db =
      λ j apart.
        ap (find_row inbox_key j) inboxes
        ∙ find_other inbox_key j i db.inboxes (apart_of j apart) in
    let after : find_inbox i.id db' ≡ some i =
      ap (find_row inbox_key i.id) inboxes ∙ find_inserted inbox_key i db.inboxes free in
    record {
      balanced = λ j row here_row. elim (Bool-cases (str_eq i.id j)) [
        | inl own ↦
            let to : i.id ≡ j = (str_eq_iff i.id j).0 own in
            let e : some i ≡ some row =
              sym after ∙ ap (λ x. find_row inbox_key x db'.inboxes) to ∙ here_row in
            let row' : i ≡ row = cc in
            subst (λ x. IsBalanced x row db'.links) to
              (subst (λ x. IsBalanced i.id x db'.links) row'
                (subst (λ x. IsBalanced i.id i x) (sym links)
                  (record {
                    reserved_files =
                        rf ∙ sym (empty (one_if is_reserved i.id) (λ l apart. rw apart));
                    reserved_bytes =
                        rb ∙ sym (empty (size_if is_reserved i.id) (λ l apart. rw apart));
                    current_files =
                        cf ∙ sym (empty (one_if is_complete_link i.id) (λ l apart. rw apart));
                    current_bytes =
                        cb ∙ sym (empty (size_if is_complete_link i.id) (λ l apart. rw apart));
                    files = ground arith;
                    bytes = ground arith;
                  })))
        | inr apart ↦
            subst (λ x. IsBalanced j row x) (sym links)
              (inv.balanced j row (sym (same_before j apart) ∙ here_row))
      ];
      backed = λ k lk found_k.
          let (r, row, size) = inv.backed k lk (ap (find_row link_key k) (sym links) ∙ found_k) in
          (r, ap (find_reservation k) uploads ∙ row, size);
      owned = λ j missing. elim (Bool-cases (str_eq i.id j)) [
        | inl own ↦
            let to : i.id ≡ j = (str_eq_iff i.id j).0 own in
            let bad : some i ≡ none =
              sym after ∙ ap (λ x. find_row inbox_key x db'.inboxes) to ∙ missing in
            absurd (cc)
        | inr apart ↦
            ap (any (λ (x : LinkRow). str_eq x.inbox_id j)) links
            ∙ inv.owned j (sym (same_before j apart) ∙ missing)
      ];
    }
