-- ===== src/Sqlite/Sharing/Limits.antt =====
-- The download limit of a share: `crates/blobyard-repository-sqlite/src/sharing.rs`.
use blobyard_core.Contract.{invalid_input, NewDownloadGrant}
use blobyard_core.Sqlite.Database.{to_i64, validate_texts, optional_i64}
use blobyard_core.Sqlite.Table.{update_row}
use blobyard_core.Sqlite.Sharing.Audit.{NewAuditEvent}
use blobyard_core.Sqlite.Sharing.Rows.{
  create_share_rows, consume-eq-ok, issue_share_download_rows, revoke_share_rows,
}
use blobyard_core.Sqlite.Sharing.{
  validate_capability, ShareStatus, active, exhausted, revoked, is_active, NewShare, ShareRow,
  ShareRecord, ShareTarget, ShareDatabase, share_key, ShareTimes, validate_new_share, new_share_row,
  create_share, is_spent, consumed, can_consume, issue_share_download, revoked_row, can_revoke,
  revoke_share,
}
use blobyard_core.Base.{
  ℕ, ◌+◌, ◌≤◌, ◌<◌, ◌≡◌, sym, ap, inl, inr, Bool, true, not, ◌&&◌, Option, none, some, List, [],
  ◌∷◌, ◌++◌, arith, ltb, ◌==◌, if◌then◌else◌, Bool-cases, All, Str, str_eq, guard, ok-injective,
  guard-eq-ok, >>=-eq-ok, >>-eq-ok, is_none_or, ok,
}

-- The share's status fits its count.
abbrev pub Fits : ShareStatus → Option ℕ → ℕ → Type 0
Fits active none n = Unit {0}
Fits active (some maximum) n = n < maximum
Fits exhausted none n = ⊥
Fits exhausted (some maximum) n = n ≡ maximum
Fits revoked none n = Unit {0}
Fits revoked (some maximum) n = n ≤ maximum

abbrev pub IsLimited : ShareRow → Type 0
IsLimited s = Fits s.status s.maximum_downloads s.consumed_count

Fits-of_consumed :
    (maximum : Option ℕ) (n : ℕ)
    → Fits active maximum n
    → Fits (if is_spent maximum (n + 1) then exhausted else active) maximum (n + 1)
Fits-of_consumed none n h = tt
Fits-of_consumed (some m) n h = elim (Bool-cases (m == n + 1)) [
  | inl spent ↦ rw spent (ground arith)
  | inr more ↦ rw more (ground arith)
]

Fits-revoked :
    (s : ShareStatus) (maximum : Option ℕ) (n : ℕ) → Fits s maximum n → Fits revoked maximum n
Fits-revoked active none n h = tt
Fits-revoked active (some m) n h = omega arith
Fits-revoked exhausted none n h = tt
Fits-revoked exhausted (some m) n h = omega arith
Fits-revoked revoked none n h = tt
Fits-revoked revoked (some m) n h = h

active_of_test : (s : ShareStatus) → is_active s ≡ true → s ≡ active
active_of_test s h = ground arith

consumed-IsLimited : (s : ShareRow) → can_consume s ≡ true → IsLimited s → IsLimited (consumed s)
consumed-IsLimited s can h =
    let on : s.status ≡ active = active_of_test s.status (ground arith) in
    Fits-of_consumed s.maximum_downloads s.consumed_count (rw on at h)

All-update_row :
    {R : Type 0} (P : R → Type 0) (key : R → Str) (k : Str) (test : R → Bool) (change : R → R)
    (rows : List R)
    → ((r : R) → test r ≡ true → P r → P (change r))
    → All P rows
    → All P (update_row key k test change rows).1
unfolding update_row
All-update_row P key k test change [] keeps h = tt
All-update_row P key k test change (r ∷ rows) keeps (p, h) = elim (Bool-cases (str_eq (key r) k)) [
  | inl same ↦ elim (Bool-cases (test r)) [
    | inl passed ↦ rw (same, passed) (keeps r passed p, h)
    | inr failed ↦ rw (same, failed) (p, h)
  ]
  | inr other ↦ rw other (p, All-update_row P key k test change rows keeps h)
]

All-snoc :
    {R : Type 0} (P : R → Type 0) (rows : List R) (r : R)
    → All P rows
    → P r
    → All P (rows ++ r ∷ [])
All-snoc P [] r h p = (p, tt)
All-snoc P (x ∷ rows) r (q, h) p = (q, All-snoc P rows r h p)

abbrev pub AllLimited : ShareDatabase → Type 0
AllLimited db = All IsLimited db.shares

new_share_row-IsLimited :
    (share : NewShare) (times : ShareTimes)
    → validate_new_share share ≡ ok times
    → IsLimited (new_share_row share times)
unfolding validate_new_share to_i64
new_share_row-IsLimited share times h =
    let (texts, h1) =
      >>-eq-ok (validate_texts (share.id ∷ share.workspace_id ∷ share.version_id ∷ [])) _ h in
    let (hash, h2) = >>-eq-ok (validate_capability share.capability_hash) _ h1 in
    let (expires, e1, h3) = >>=-eq-ok (to_i64 share.expires_at_ms) _ h2 in
    let (maximum, e2, h4) = >>=-eq-ok (optional_i64 share.maximum_downloads) _ h3 in
    let (created, e3, h5) = >>=-eq-ok (to_i64 share.created_at_ms) _ h4 in
    let (sane, h6) =
      >>-eq-ok
        (guard
          (ltb share.created_at_ms share.expires_at_ms
            && is_none_or share.maximum_downloads (λ n. not (n == 0)))
          invalid_input)
        _ h5 in
    let times' : record { expires = expires; maximum_downloads = maximum; created = created }
        ≡ times =
      ok-injective _ _ h6 in
    let kept : maximum ≡ times.maximum_downloads =
      ap (λ (t : ShareTimes). t.maximum_downloads) times' in
    let positive =
      guard-eq-ok
        (ltb share.created_at_ms share.expires_at_ms
          && is_none_or share.maximum_downloads (λ n. not (n == 0)))
        invalid_input sane in
    rw (sym kept) (first_fits share.maximum_downloads maximum e2 (ground arith))
  where
    first_fits :
        (given kept : Option ℕ)
        → optional_i64 given ≡ ok kept
        → is_none_or given (λ n. not (n == 0)) ≡ true
        → Fits active kept 0
    first_fits none kept e positive = let same = ok-injective _ _ e in rw (sym same) tt
    first_fits (some n) kept e positive =
        let (x, narrowed, e') = >>=-eq-ok (to_i64 n) _ e in
        let same : some x ≡ kept = ok-injective _ _ e' in rw (sym same) (ground arith)

-- The downloads that the operations issue for one share.
pub data Run (id : Str) (db : ShareDatabase) : ℕ → ShareDatabase → Type 0 where
  start : Run id db 0 db
  creating :
      {n : ℕ} {middle db' : ShareDatabase} (share : NewShare) (event : NewAuditEvent)
      (s : ShareRecord)
      → Run id db n middle
      → create_share share event middle ≡ ok (s, db')
      → Run id db n db'
  revoking :
      {n : ℕ} {middle db' : ShareDatabase} (share workspace : Str) (at : ℕ) (event : NewAuditEvent)
      (b : Bool)
      → Run id db n middle
      → revoke_share share workspace at event middle ≡ ok (b, db')
      → Run id db n db'
  issuing :
      {n : ℕ} {middle db' : ShareDatabase} (capability : Str) (now_ms : ℕ)
      (grant : NewDownloadGrant) (event : NewAuditEvent) (target : ShareTarget)
      → Run id db n middle
      → issue_share_download capability now_ms grant event middle ≡ ok (target, db')
      → Run id db (n + (if str_eq id target.share.id then 1 else 0)) db'

-- From shares within their limits, every sequence of operations keeps each share active below its
-- maximum, exhausted at it, and revoked at most there.
pub Run-AllLimited :
    (id : Str) (db db' : ShareDatabase) (n : ℕ) → AllLimited db → Run id db n db' → AllLimited db'
Run-AllLimited id db _ _ h start = h
Run-AllLimited id db db' n h (creating {middle = middle} share event s run e) =
    let (times, valid, free, rows) = create_share_rows share event middle s db' e in
    rw rows (
      All-snoc IsLimited middle.shares (new_share_row share times)
        (Run-AllLimited id db middle n h run) (new_share_row-IsLimited share times valid))
Run-AllLimited id db db' n h (revoking {middle = middle} share workspace at event b run e) =
    let before = Run-AllLimited id db middle n h run in
    elim (revoke_share_rows share workspace at event middle b db' e) [
      | inl rows ↦ rw rows before
      | inr (stored, rows) ↦ rw rows (
          All-update_row IsLimited share_key share (can_revoke workspace) (revoked_row stored)
            middle.shares (λ r test l. Fits-revoked r.status r.maximum_downloads r.consumed_count l)
            before)
    ]
Run-AllLimited id db db' _ h
      (issuing {n = n} {middle = middle} capability now_ms grant event target run e) =
    let (r, found, can, rows) =
      consume-eq-ok target.share.id middle.shares db'.shares
        (issue_share_download_rows capability now_ms grant event middle target db' e) in
    rw rows (
      All-update_row IsLimited share_key target.share.id can_consume consumed middle.shares
        consumed-IsLimited (Run-AllLimited id db middle n h run))
