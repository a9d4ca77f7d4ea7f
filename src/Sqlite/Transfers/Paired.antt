-- ===== src/Sqlite/Transfers/Paired.antt =====
-- An update of the two rows of an upload, and the tables that it leaves alone:
-- `crates/blobyard-repository-sqlite/src/transfers.rs`.
use blobyard_core.Contract.{ObjectVersionRecord, is_pending}
use blobyard_core.Sqlite.Database.{ReservationRow, PartRow, Database, version_key}
use blobyard_core.Sqlite.Table.{update_row}
use blobyard_core.Sqlite.Transfers.{
  find_version, find_reservation, update_reservation, update_version,
}
use blobyard_core.Sqlite.Transfers.Rows.{
  TouchesOnly, update_reservation_rows, update_version_rows, update_reservation_found,
  update_reservation_touch, update_reservation_versions, update_version_found, update_version_touch,
  update_version_reservations,
}
use blobyard_core.Base.{
  ◌≡◌, sym, ap, ◌∙◌, Bool, true, false, not, ◌||◌, some, List, arith, any, keep, keep-keep-not,
  any-keep-not, keep_cong, Str, str_eq, ok,
}

-- Both rows after an update of the reservation and one of the version.
module _ (id : Str) (test : ReservationRow → Bool) (change : ReservationRow → ReservationRow)
    (keeps : (r : ReservationRow) → (change r).id ≡ r.id)
    (edit : ObjectVersionRecord → ObjectVersionRecord)
    (keeps_version : (v : ObjectVersionRecord) → (edit v).id ≡ v.id)
    (db marked middle db' : Database) (r : ReservationRow) (w : ObjectVersionRecord)
    (row : find_reservation id db ≡ some r) (ver : find_version id db ≡ some w)
    (mark : update_reservation id test change db ≡ ok marked)
    (same_rows : (j : Str) → find_reservation j middle ≡ find_reservation j marked)
    (same_versions : (j : Str) → find_version j middle ≡ find_version j marked)
    (finish : update_version id edit middle ≡ ok db') where
  pub both_found :
      (find_reservation id db' ≡ some (change r))
      × (find_version id db' ≡ some (edit w))
      × (is_pending w.state ≡ true)
      × (test r ≡ true)
  both_found =
      let (s, found, passed, after) =
        update_reservation_found id test change keeps db marked mark in
      let (v, found_v, pending, after_v) =
        update_version_found id edit keeps_version middle db' finish in
      let s' : s ≡ r = cc (found, row) in
      let v' : v ≡ w = cc (
        found_v,
        same_versions id,
        update_reservation_versions id test change keeps db marked mark id,
        ver,
      ) in
      (
        update_version_reservations id edit keeps_version middle db' finish id
            ∙ same_rows id
            ∙ after
            ∙ ap (λ (x : ReservationRow). some (change x)) s',
        after_v ∙ ap (λ (x : ObjectVersionRecord). some (edit x)) v',
        ap (λ (x : ObjectVersionRecord). is_pending x.state) (sym v') ∙ pending,
        ap test (sym s') ∙ passed,
      )

  pub both_touch : TouchesOnly id db db'
  both_touch j apart =
      let (a, b) = update_reservation_touch id test change keeps db marked mark j apart in
      let (c, d) = update_version_touch id edit keeps_version middle db' finish j apart in
      (c ∙ same_rows j ∙ a, d ∙ same_versions j ∙ b)

-- The tables after both updates, with some parts between them.
pub both_tables :
    (id other : Str) (test : ReservationRow → Bool) (change : ReservationRow → ReservationRow)
    (edit : ObjectVersionRecord → ObjectVersionRecord) (db marked db' : Database)
    (parts : List PartRow)
    → ((r : ReservationRow) → (change r).id ≡ r.id)
    → ((v : ObjectVersionRecord) → (edit v).id ≡ v.id)
    → update_reservation id test change db ≡ ok marked
    → update_version other edit (record marked { parts = parts }) ≡ ok db'
    → db' ≡ record db { reservations = db'.reservations; versions = db'.versions; parts = parts }
both_tables id other test change edit db marked db' parts keeps keeps_version mark finish =
    let middle : Database = record marked { parts = parts } in
    let rows = update_reservation_rows id test change keeps db marked mark in
    let last = update_version_rows other edit keeps_version middle db' finish in
    let shape : db'
        ≡ record db { reservations = marked.reservations; versions = db'.versions; parts = parts } =
      last
      ∙ ap
          (λ (d : Database). record d {
            reservations = marked.reservations;
            versions =
                (update_row version_key other (λ v. is_pending v.state) edit marked.versions).1;
            parts = parts;
          })
          rows
      ∙ ap (λ vs. record db { reservations = marked.reservations; versions = vs; parts = parts })
          (sym (ap (λ (d : Database). d.versions) last)) in
    shape
    ∙ ap (λ rs. record db { reservations = rs; versions = db'.versions; parts = parts })
        (sym (ap (λ (d : Database). d.reservations) shape))

-- A part of one upload.
abbrev pub is_part_of : Str → PartRow → Bool
is_part_of id p = str_eq p.upload_id id

-- The parts of one upload are gone, and all the others are there.
pub record DropsParts (id : Str) (before after : List PartRow) : Type 0 where
  pub gone : any (is_part_of id) after ≡ false
  pub others : keep (λ p. not (is_part_of id p)) after ≡ keep (λ p. not (is_part_of id p)) before

pub DropsParts-keep :
    (id : Str) (parts : List PartRow)
    → DropsParts id parts (keep (λ (p : PartRow). not (str_eq p.upload_id id)) parts)
DropsParts-keep id parts = record {
  gone = any-keep-not (is_part_of id) (is_part_of id) parts (λ p h. h);
  others =
      keep-keep-not (is_part_of id) (is_part_of id) parts
      ∙ keep_cong (λ p. not (is_part_of id p || is_part_of id p)) (λ p. not (is_part_of id p)) parts
          (λ p. ground arith);
}
