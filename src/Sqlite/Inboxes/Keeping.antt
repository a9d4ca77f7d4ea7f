-- ===== src/Sqlite/Inboxes/Keeping.antt =====
-- The account of every inbox through the end of an upload:
-- `crates/blobyard-repository-sqlite/src/inbox_uploads.rs`.
use mathlib.Core.Option
use mathlib.Core.Path.{subst}
use blobyard_core.Sqlite.Database.{ReservationRow, Database, reservation_key}
use blobyard_core.Sqlite.Table.{
  find_row, update_row, find_row-update_row_self, find_row-update_row_ne, any-update_row,
}
use blobyard_core.Sqlite.Transfers.{find_reservation, update_reservation}
use blobyard_core.Sqlite.Transfers.Rows.{update_reservation_rows}
use blobyard_core.Sqlite.Inboxes.{
  InboxRow, LinkRow, LinkStatus, InboxDatabase, inbox_key, link_key, is_reserved, find_link,
}
use blobyard_core.Sqlite.Inboxes.Uploads.{with_status, holds, update_inbox, transition_link}
use blobyard_core.Sqlite.Inboxes.Ledger.{
  IsBalanced, IsLedger, transition_link_found, update_inbox_found, update_inbox_ne,
}
use blobyard_core.Sqlite.Inboxes.Settling.{settled_links, IsBalanced-other}
use blobyard_core.Base.{
  ℕ, ◌≡◌, refl, sym, ap, ◌∙◌, inl, inr, Bool, true, false, none, some, List, arith, if◌then◌else◌,
  Bool-cases, Option-cases, any, Str, str_eq, str_eq_iff, ok,
}

-- Every reservation is there afterwards, with its size.
abbrev pub KeepsSizes : Database → Database → Type 0
KeepsSizes db db' =
    (id : Str) (r : ReservationRow)
    → find_reservation id db ≡ some r
    → (r' : ReservationRow) × (find_reservation id db' ≡ some r')
      × (r'.expected_size ≡ r.expected_size)

pub KeepsSizes-update :
    (id : Str) (test : ReservationRow → Bool) (change : ReservationRow → ReservationRow)
    (db db' : Database)
    → ((r : ReservationRow) → (change r).id ≡ r.id)
    → ((r : ReservationRow) → (change r).expected_size ≡ r.expected_size)
    → update_reservation id test change db ≡ ok db'
    → KeepsSizes db db'
KeepsSizes-update id test change db db' keeps size h j r found =
    let rows =
      ap (λ (d : Database). d.reservations)
        (update_reservation_rows id test change keeps db db' h) in
    elim (Bool-cases (str_eq j id)) [
      | inl own ↦
          let same : j ≡ id = (str_eq_iff j id).0 own in
          let after : find_reservation j db' ≡ some (if test r then change r else r) =
            ap (find_row reservation_key j) rows
            ∙ ap
                (λ k.
                  find_row reservation_key j
                    (update_row reservation_key k test change db.reservations).1)
                (sym same)
            ∙ find_row-update_row_self reservation_key j test change db.reservations keeps
            ∙ ap (Option.map (λ x. if test x then change x else x)) found in
          let sized = size r in ((if test r then change r else r), after, ground arith)
      | inr apart ↦ (
        r,
        ap (find_row reservation_key j) rows
            ∙ find_row-update_row_ne reservation_key j id test change db.reservations keeps apart
            ∙ found,
        refl,
      )
    ]

-- A link after one link has changed its status was there before, with its size.
link_before :
    (id : Str) (status : LinkStatus) (links : List LinkRow) (k : Str) (l : LinkRow)
    → find_row link_key k (settled_links id status links) ≡ some l
    → (before : LinkRow) × (find_row link_key k links ≡ some before)
      × (l.reserved_size ≡ before.reserved_size)
link_before id status links k l found = elim (Bool-cases (str_eq k id)) [
  | inl own ↦
      let same : k ≡ id = (str_eq_iff k id).0 own in
      let after =
        find_row-update_row_self link_key id (λ (x : LinkRow). is_reserved x.status)
          (with_status status) links (λ x. refl) in
      let now =
        sym after
        ∙ ap (λ x. find_row link_key x (settled_links id status links)) (sym same)
        ∙ found in
      elim (Option-cases (find_row link_key id links)) [
        | inl missing ↦ absurd (let bad : none ≡ some l = rw missing at now in cc)
        | inr (b, there) ↦
            let e : some (if is_reserved b.status then with_status status b else b) ≡ some l =
              rw there at now in
            let shape : (if is_reserved b.status then with_status status b else b) ≡ l = cc in
            let sized : (if is_reserved b.status then with_status status b else b).reserved_size
                ≡ b.reserved_size =
              ground arith in
            (
              b,
              ap (λ x. find_row link_key x links) same ∙ there,
              ap (λ (x : LinkRow). x.reserved_size) (sym shape) ∙ sized,
            )
      ]
  | inr apart ↦ (
    l,
    sym (
          find_row-update_row_ne link_key k id (λ (x : LinkRow). is_reserved x.status)
            (with_status status) links (λ x. refl) apart)
        ∙ found,
    refl,
  )
]

-- An upload that ends: its link leaves the reserved state, and its inbox changes in step.
module _ (id : Str) (status : LinkStatus) (size : ℕ) (change : InboxRow → InboxRow)
    (keeps : (i : InboxRow) → (change i).id ≡ i.id)
    (in_step : (links : List LinkRow) (l : LinkRow) (row : InboxRow)
      → find_row link_key id links ≡ some l
      → is_reserved l.status ≡ true
      → holds l.reserved_size row ≡ true
      → l.reserved_size ≡ size
      → IsBalanced l.inbox_id row links
      → IsBalanced l.inbox_id (change row) (settled_links id status links)) where
  pub IsLedger-settled :
      (db db' : InboxDatabase) (l : LinkRow)
      → IsLedger db
      → find_link id db ≡ some l
      → l.reserved_size ≡ size
      → KeepsSizes db.stored.uploads db'.stored.uploads
      → update_inbox l.inbox_id (holds size) change db.inboxes ≡ ok db'.inboxes
      → transition_link id status db.links ≡ ok db'.links
      → IsLedger db'
  IsLedger-settled db db' l inv found sized kept paid ended =
      let (k, found', held, links) = transition_link_found id status db.links db'.links ended in
      let both : some l ≡ some k = sym found ∙ found' in
      let same : k ≡ l = cc in
      let held_l : is_reserved l.status ≡ true =
        ap (λ (x : LinkRow). is_reserved x.status) (sym same) ∙ held in
      let (i, there, enough, after) =
        update_inbox_found l.inbox_id (holds size) change keeps db.inboxes db'.inboxes paid in
      let enough_l : holds l.reserved_size i ≡ true = ap (λ n. holds n i) sized ∙ enough in
      record {
        balanced = λ j row here_row. elim (Bool-cases (str_eq l.inbox_id j)) [
          | inl own ↦
              let to : l.inbox_id ≡ j = (str_eq_iff l.inbox_id j).0 own in
              let e : some (change i) ≡ some row =
                sym after ∙ ap (λ x. find_row inbox_key x db'.inboxes) to ∙ here_row in
              let row' : change i ≡ row = cc in
              let b =
                in_step db.links l i found held_l enough_l sized
                  (inv.balanced l.inbox_id i there) in
              subst (λ x. IsBalanced x row db'.links) to
                (subst (λ x. IsBalanced l.inbox_id x db'.links) row'
                  (subst (λ x. IsBalanced l.inbox_id (change i) x) (sym links) b))
          | inr apart ↦
              let apart' : str_eq j l.inbox_id ≡ false =
                ground (arith, str_eq_iff j l.inbox_id, str_eq_iff l.inbox_id j) in
              let before =
                sym (
                  update_inbox_ne l.inbox_id (holds size) change keeps db.inboxes db'.inboxes paid j
                    apart')
                ∙ here_row in
              subst (λ x. IsBalanced j row x) (sym links)
                (IsBalanced-other id status db.links l found held_l j row apart
                  (inv.balanced j row before))
        ];
        backed = λ k lk found_k.
            let (b, before, same_size) =
              link_before id status db.links k lk
                (ap (find_row link_key k) (sym links) ∙ found_k) in
            let (r, row, backing) = inv.backed k b before in
            let (r', row', backing') = kept k r row in
            (r', row', backing' ∙ backing ∙ sym same_size);
        owned = λ j missing. elim (Bool-cases (str_eq l.inbox_id j)) [
          | inl own ↦
              let to : l.inbox_id ≡ j = (str_eq_iff l.inbox_id j).0 own in
              let bad : some (change i) ≡ none =
                sym after ∙ ap (λ x. find_row inbox_key x db'.inboxes) to ∙ missing in
              absurd (cc)
          | inr apart ↦
              let apart' : str_eq j l.inbox_id ≡ false =
                ground (arith, str_eq_iff j l.inbox_id, str_eq_iff l.inbox_id j) in
              let before =
                sym (
                  update_inbox_ne l.inbox_id (holds size) change keeps db.inboxes db'.inboxes paid j
                    apart')
                ∙ missing in
              ap (any (λ (x : LinkRow). str_eq x.inbox_id j)) links
              ∙ any-update_row link_key (λ (x : LinkRow). str_eq x.inbox_id j) id
                  (λ (x : LinkRow). is_reserved x.status) (with_status status) db.links (λ x. refl)
              ∙ inv.owned j before
        ];
      }
