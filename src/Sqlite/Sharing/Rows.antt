-- ===== src/Sqlite/Sharing/Rows.antt =====
-- What each operation does to the table of shares: `crates/blobyard-repository-sqlite/src/sharing.rs`.
use blobyard_core.Contract.{not_found, conflict, invalid_input, NewDownloadGrant}
use blobyard_core.Sqlite.Database.{Database, to_i64, validate_texts, changed_once}
use blobyard_core.Sqlite.Table.{find_row, update_row, find_row-key, update_row-eq-one}
use blobyard_core.Sqlite.Transfers.{find_version}
use blobyard_core.Sqlite.Transfers.Versions.{insert_row-eq-some}
use blobyard_core.Sqlite.Sharing.Audit.{NewAuditEvent, insert_event}
use blobyard_core.Sqlite.Sharing.{
  is_revoked, NewShare, ShareRow, ShareRecord, ShareTarget, ShareDatabase, share_key, share_record,
  find_share, share_by_id, ShareTimes, validate_new_share, validate_event, is_shareable,
  new_share_row, insert_share, create_share, consumed, within_maximum, can_consume, consume,
  insert_grant, download_target, issue_share_download, revoked_row, can_revoke, revoke_rows,
  revoke_active, revoke_share,
}
use blobyard_core.Base.{
  ℕ, ◌≡◌, sym, ap, ◌∙◌, ◌⊎◌, inl, inr, Bool, true, false, not, ◌||◌, none, some, List, [], ◌∷◌,
  ◌++◌, leb, ◌==◌, ==_iff, Bool-cases, any, Str, lit, str_eq, ok_or, guard, ok-injective,
  guard-eq-ok, ok_or-eq-ok, >>=-eq-ok, >>-eq-ok, is_none_or, ok,
}

share_by_id-eq-ok :
    (id : Str) (db : ShareDatabase) (x : ShareRecord) → share_by_id id db ≡ ok x → x.id ≡ id
unfolding share_by_id
share_by_id-eq-ok id db x h =
    let (s, found, e) = >>=-eq-ok (ok_or (find_share id db) not_found) _ h in
    let same : share_record s ≡ x = ok-injective _ _ e in
    ap (λ (r : ShareRecord). r.id) (sym same)
    ∙ find_row-key share_key id db.shares s (ok_or-eq-ok (find_share id db) not_found found)

-- What each operation does to the table of shares.
pub create_share_rows :
    (share : NewShare) (event : NewAuditEvent) (db : ShareDatabase) (s : ShareRecord)
    (db' : ShareDatabase)
    → create_share share event db ≡ ok (s, db')
    → (times : ShareTimes) × (validate_new_share share ≡ ok times)
      × (find_share share.id db ≡ none)
      × (db'.shares ≡ db.shares ++ new_share_row share times ∷ [])
unfolding create_share insert_share
create_share_rows share event db s db' h =
    let (times, valid, h1) = >>=-eq-ok (validate_new_share share) _ h in
    let (checked, h2) =
      >>-eq-ok
        (validate_event event (lit "share.created") share.id share.workspace_id share.created_at_ms)
        _ h1 in
    let (rows, inserted, h3) = >>=-eq-ok (insert_share share times db) _ h2 in
    let (events, logged, h4) = >>=-eq-ok (insert_event event db.events) _ h3 in
    let after : ShareDatabase = record db { shares = rows; events = events } in
    let (x, read, h5) = >>=-eq-ok (share_by_id share.id after) _ h4 in
    let same : ◌≡◌ {A = ShareRecord × ShareDatabase} (x, after) (s, db') = ok-injective _ _ h5 in
    let (version, known, i1) =
      >>=-eq-ok (ok_or (find_version share.version_id db.uploads) not_found) _ inserted in
    let (shareable, i2) =
      >>-eq-ok (guard (is_shareable db share.workspace_id version) not_found) _ i1 in
    let (unique, i3) =
      >>-eq-ok
        (guard
          (not (any (λ (s : ShareRow). str_eq s.capability_hash share.capability_hash) db.shares))
          conflict)
        _ i2 in
    let (free, shape) =
      insert_row-eq-some share_key (new_share_row share times) db.shares rows
        (ok_or-eq-ok _ conflict i3) in
    (times, valid, free, ap (λ (p : ShareRecord × ShareDatabase). p.1.shares) (sym same) ∙ shape)

pub consume-eq-ok :
    (id : Str) (shares rows : List ShareRow)
    → consume id shares ≡ ok rows
    → (r : ShareRow) × (find_row share_key id shares ≡ some r)
      × (can_consume r ≡ true)
      × (rows ≡ (update_row share_key id can_consume consumed shares).1)
unfolding consume
consume-eq-ok id shares rows h =
    let (sound, h1) =
      >>-eq-ok
        (guard
          (is_none_or (find_row share_key id shares)
            (λ s. not (can_consume s) || within_maximum (consumed s)))
          conflict)
        _ h in
    let (once, h2) =
      >>-eq-ok (guard ((update_row share_key id can_consume consumed shares).0 == 1) invalid_input)
        _ h1 in
    let (r, found, passed) = update_row-eq-one share_key id can_consume consumed shares (
      (==_iff (update_row share_key id can_consume consumed shares).0 1).0 (
        guard-eq-ok ((update_row share_key id can_consume consumed shares).0 == 1) invalid_input
          once)) in
    (r, found, passed, sym (ok-injective _ _ h2))

pub issue_share_download_rows :
    (capability : Str) (now_ms : ℕ) (grant : NewDownloadGrant) (event : NewAuditEvent)
    (db : ShareDatabase) (target : ShareTarget) (db' : ShareDatabase)
    → issue_share_download capability now_ms grant event db ≡ ok (target, db')
    → consume target.share.id db.shares ≡ ok db'.shares
unfolding issue_share_download
issue_share_download_rows capability now_ms grant event db target db' h =
    let ((found, expires), valid, h1) =
      >>=-eq-ok (download_target capability now_ms grant event db) _ h in
    let (downloads, granted, h2) =
      >>=-eq-ok (insert_grant grant expires db.uploads.downloads) _ h1 in
    let (shares, counted, h3) = >>=-eq-ok (consume found.share.id db.shares) _ h2 in
    let (events, logged, h4) = >>=-eq-ok (insert_event event db.events) _ h3 in
    let uploads : Database = record db.uploads { downloads = downloads } in
    let after : ShareDatabase = record db { uploads = uploads; shares = shares; events = events } in
    let (share, read, h5) = >>=-eq-ok (share_by_id found.share.id after) _ h4 in
    let same : ◌≡◌ {A = ShareTarget × ShareDatabase} (record found { share = share }, after)
        (target, db') =
      ok-injective _ _ h5 in
    let id : share.id ≡ found.share.id = share_by_id-eq-ok found.share.id after share read in
    let id' : target.share.id ≡ found.share.id =
      ap (λ (p : ShareTarget × ShareDatabase). p.0.share.id) (sym same) ∙ id in
    let rows : shares ≡ db'.shares = ap (λ (p : ShareTarget × ShareDatabase). p.1.shares) same in
    rw id' (rw rows at counted)

pub revoke_share_rows :
    (id workspace : Str) (revoked_at_ms : ℕ) (event : NewAuditEvent) (db : ShareDatabase) (b : Bool)
    (db' : ShareDatabase)
    → revoke_share id workspace revoked_at_ms event db ≡ ok (b, db')
    → (db'.shares ≡ db.shares)
      ⊎ ((at : ℕ) × (db'.shares
            ≡ (update_row share_key id (can_revoke workspace) (revoked_row at) db.shares).1))
unfolding revoke_share revoke_active revoke_rows
revoke_share_rows id workspace revoked_at_ms event db b db' h =
    let (valid, h1) = >>-eq-ok (validate_texts (id ∷ workspace ∷ [])) _ h in
    let (share, read, h2) = >>=-eq-ok (share_by_id id db) _ h1 in
    let (own, h3) = >>-eq-ok (guard (str_eq share.workspace_id workspace) not_found) _ h2 in
    elim (Bool-cases (is_revoked share.status)) [
      | inl already ↦
          let e : ok (false, db) ≡ ok (b, db') = rw already at h3 in
          let same : ◌≡◌ {A = Bool × ShareDatabase} (false, db) (b, db') = ok-injective _ _ e in
          inl (ap (λ (p : Bool × ShareDatabase). p.1.shares) (sym same))
      | inr still ↦
          let e : revoke_active id workspace revoked_at_ms event share db ≡ ok (b, db') =
            rw still at h3 in
          let (checked, e1) =
            >>-eq-ok
              (validate_event event (lit "share.revoked") share.id share.workspace_id revoked_at_ms)
              _ e in
          let (at, fits, e2) = >>=-eq-ok (to_i64 revoked_at_ms) _ e1 in
          let (rows, changed_rows, e3) = >>=-eq-ok (revoke_rows id workspace at db.shares) _ e2 in
          let (events, logged, e4) = >>=-eq-ok (insert_event event db.events) _ e3 in
          let after : ShareDatabase = record db { shares = rows; events = events } in
          let same : ◌≡◌ {A = Bool × ShareDatabase} (true, after) (b, db') = ok-injective _ _ e4 in
          let (sound, f1) =
            >>-eq-ok
              (guard
                (is_none_or (find_row share_key id db.shares)
                  (λ s. not (can_revoke workspace s) || leb s.created_at_ms at))
                conflict)
              _ changed_rows in
          let (once, f2) =
            >>-eq-ok
              (changed_once
                (update_row share_key id (can_revoke workspace) (revoked_row at) db.shares).0)
              _ f1 in
          let shape : (update_row share_key id (can_revoke workspace) (revoked_row at) db.shares).1
              ≡ rows =
            ok-injective _ _ f2 in
          inr (at, ap (λ (p : Bool × ShareDatabase). p.1.shares) (sym same) ∙ sym shape)
    ]
