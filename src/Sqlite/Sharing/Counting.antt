-- ===== src/Sqlite/Sharing/Counting.antt =====
-- How many downloads the operations of `crates/blobyard-repository-sqlite/src/sharing.rs` issue for
-- one share.
use mathlib.Core.Option
use blobyard_core.Sqlite.Table.{
  find_row, update_row, changed, find_row-append, find_row-update_row_self, find_row-update_row_ne,
}
use blobyard_core.Sqlite.Sharing.Rows.{
  create_share_rows, consume-eq-ok, issue_share_download_rows, revoke_share_rows,
}
use blobyard_core.Sqlite.Sharing.{
  ShareStatus, active, exhausted, revoked, ShareRow, ShareDatabase, share_key, find_share,
  new_share_row, consumed, can_consume, consume, revoked_row, can_revoke,
}
use blobyard_core.Base.{
  ℕ, ◌+◌, ◌≤◌, ◌≡◌, refl, sym, ap, ◌∙◌, inl, inr, true, Option, some, List, [], ◌∷◌, ◌++◌, arith,
  if◌then◌else◌, Bool-cases, All, Str, str_eq, str_eq_iff, ok,
}
use blobyard_core.Sqlite.Sharing.Limits.{
  Fits, IsLimited, AllLimited, Run, start, creating, revoking, issuing, Run-AllLimited,
}

-- A row that counts `n` more downloads than another, under the same maximum.
abbrev Counts : Str → ShareRow → ℕ → ShareDatabase → Type 0
Counts id r n db =
    (s : ShareRow) × (find_share id db ≡ some s)
    × (s.maximum_downloads ≡ r.maximum_downloads)
    × (s.consumed_count ≡ r.consumed_count + n)

Counts-create :
    (id : Str) (r : ShareRow) (n : ℕ) (middle db' : ShareDatabase) (new : ShareRow)
    → db'.shares ≡ middle.shares ++ new ∷ []
    → Counts id r n middle
    → Counts id r n db'
Counts-create id r n middle db' new rows (s, found, same, count) = (
  s,
  ap (find_row share_key id) rows ∙ rw (find_row-append share_key id middle.shares new, found),
  same,
  count,
)

Counts-revoke :
    (id share workspace : Str) (stored : ℕ) (r : ShareRow) (n : ℕ) (middle db' : ShareDatabase)
    → db'.shares
      ≡ (update_row share_key share (can_revoke workspace) (revoked_row stored) middle.shares).1
    → Counts id r n middle
    → Counts id r n db'
Counts-revoke id share workspace stored r n middle db' rows (s, found, same, count) =
    elim (Bool-cases (str_eq id share)) [
      | inr apart ↦ (
        s,
        ap (find_row share_key id) rows
            ∙ find_row-update_row_ne share_key id share (can_revoke workspace) (revoked_row stored)
                middle.shares (λ r. refl) apart
            ∙ found,
        same,
        count,
      )
      | inl own ↦
          let e : id ≡ share = (str_eq_iff id share).0 own in
          let after : find_row share_key id db'.shares
              ≡ some (changed share_key (can_revoke workspace) (revoked_row stored) s) =
            ap (find_row share_key id) rows
            ∙ rw (sym e) (
                find_row-update_row_self share_key id (can_revoke workspace) (revoked_row stored)
                  middle.shares (λ r. refl))
            ∙ ap (Option.map (changed share_key (can_revoke workspace) (revoked_row stored)))
                found in
          elim (Bool-cases (can_revoke workspace s)) [
            | inl can ↦ (revoked_row stored s, rw can at after, same, count)
            | inr cannot ↦ (s, rw cannot at after, same, count)
          ]
    ]

Counts-consume :
    (id share : Str) (r : ShareRow) (n : ℕ) (middle db' : ShareDatabase)
    → consume share middle.shares ≡ ok db'.shares
    → Counts id r n middle
    → Counts id r (n + (if str_eq id share then 1 else 0)) db'
Counts-consume id share r n middle db' e (s, found, same, count) =
    let (t, found_t, can, rows) = consume-eq-ok share middle.shares db'.shares e in
    elim (Bool-cases (str_eq id share)) [
      | inr apart ↦ rw apart (
        s,
        ap (find_row share_key id) rows
            ∙ find_row-update_row_ne share_key id share can_consume consumed middle.shares
                (λ r. refl) apart
            ∙ found,
        same,
        omega arith,
      )
      | inl own ↦
          let e : id ≡ share = (str_eq_iff id share).0 own in
          let found' : find_row share_key share middle.shares ≡ some s = rw (sym e) found in
          let t' : t ≡ s = some-injective t s (sym found_t ∙ found') in
          let can' : can_consume s ≡ true = ap can_consume (sym t') ∙ can in
          let after : find_row share_key id db'.shares ≡ some (consumed s) =
            ap (find_row share_key id) rows
            ∙ rw (sym e) (
                find_row-update_row_self share_key id can_consume consumed middle.shares
                  (λ r. refl))
            ∙ ap (Option.map (changed share_key can_consume consumed)) found
            ∙ rw can' in
          rw own (consumed s, after, same, omega arith)
    ]
  where
    some-injective : (a b : ShareRow) → ◌≡◌ {A = Option ShareRow} (some a) (some b) → a ≡ b
    some-injective a b h = cc

Run-Counts :
    (id : Str) (db db' : ShareDatabase) (n : ℕ) (r : ShareRow)
    → find_share id db ≡ some r
    → Run id db n db'
    → Counts id r n db'
Run-Counts id db _ _ r found start = (r, found, refl, omega arith)
Run-Counts id db db' n r found (creating {middle = middle} share event s run e) =
    let (times, valid, free, rows) = create_share_rows share event middle s db' e in
    Counts-create id r n middle db' (new_share_row share times) rows
      (Run-Counts id db middle n r found run)
Run-Counts id db db' n r found (revoking {middle = middle} share workspace at event b run e) =
    let before = Run-Counts id db middle n r found run in
    elim (revoke_share_rows share workspace at event middle b db' e) [
      | inl rows ↦
          let (s, f, same, count) = before in (s, ap (find_row share_key id) rows ∙ f, same, count)
      | inr (stored, rows) ↦ Counts-revoke id share workspace stored r n middle db' rows before
    ]
Run-Counts id db db' _ r found
      (issuing {n = n} {middle = middle} capability now_ms grant event target run e) =
    Counts-consume id target.share.id r n middle db'
      (issue_share_download_rows capability now_ms grant event middle target db' e)
      (Run-Counts id db middle n r found run)

within_of_Fits : (s : ShareStatus) (maximum n : ℕ) → Fits s (some maximum) n → n ≤ maximum
within_of_Fits active maximum n h = omega arith
within_of_Fits exhausted maximum n h = omega arith
within_of_Fits revoked maximum n h = h

find_row-All :
    {R : Type 0} (P : R → Type 0) (key : R → Str) (k : Str) (rows : List R) (r : R)
    → All P rows
    → find_row key k rows ≡ some r
    → P r
unfolding find_row
find_row-All P key k [] r h e = absurd (cc)
find_row-All P key k (x ∷ rows) r (p, h) e = elim (Bool-cases (str_eq (key x) k)) [
  | inl same ↦ let e' : some x ≡ some r = rw same at e in let x' : x ≡ r = cc in rw x' at p
  | inr other ↦ find_row-All P key k rows r h (rw other at e)
]

-- Where the shares are within their limits, no sequence of operations issues more downloads for a
-- share than its maximum less the count it starts with, and the share's count ends as the count it
-- starts with and the downloads issued since.
pub Run-le-maximum :
    (id : Str) (db db' : ShareDatabase) (n maximum : ℕ) (r : ShareRow)
    → AllLimited db
    → find_share id db ≡ some r
    → r.maximum_downloads ≡ some maximum
    → Run id db n db'
    → (s : ShareRow) × (find_share id db' ≡ some s)
      × (s.consumed_count ≡ r.consumed_count + n)
      × (r.consumed_count + n ≤ maximum)
Run-le-maximum id db db' n maximum r limited found bound run =
    let (s, found', same, count) = Run-Counts id db db' n r found run in
    let fits =
      find_row-All IsLimited share_key id db'.shares s (Run-AllLimited id db db' n limited run)
        found' in
    let max_s : s.maximum_downloads ≡ some maximum = same ∙ bound in
    let within = within_of_Fits s.status maximum s.consumed_count (rw max_s at fits) in
    (s, found', count, omega arith)
