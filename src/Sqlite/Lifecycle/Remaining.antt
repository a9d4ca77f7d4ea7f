-- ===== src/Sqlite/Lifecycle/Remaining.antt =====
-- The uploads and grants that `crates/blobyard-repository-sqlite/src/lifecycle_deletion.rs` leaves:
-- those of other versions stay as they were.
use mathlib.Core.Path.{subst}
use blobyard_core.Contract.{
  not_found, invalid_input, ObjectVersionRecord, StoredObjectRecord, checksum_valid, is_complete,
}
use blobyard_core.Sqlite.Database.{
  ReservationRow, DownloadRow, Database, version_key, reservation_key, to_i64,
}
use blobyard_core.Sqlite.Table.{
  find_row, find_row-key, find_row-keep, find_row-keep_test, find_row-keep_unique, IsUnique,
}
use blobyard_core.Sqlite.Transfers.{find_version}
use blobyard_core.Sqlite.Transfers.Rows.{IsConsistent}
use blobyard_core.Sqlite.Transfers.Downloads.{download_by_capability, stored_object}
use blobyard_core.Sqlite.Sharing.{ShareDatabase}
use blobyard_core.Sqlite.Sharing.Audit.{NewAuditEvent}
use blobyard_core.Sqlite.Lifecycle.{OperationRow, LifecycleDatabase, is_done, find_operation}
use blobyard_core.Sqlite.Lifecycle.Finish.{names, finish}
use blobyard_core.Sqlite.Lifecycle.Purge.{purge}
use blobyard_core.Sqlite.Lifecycle.Doomed.{is_doomed, names_doomed, goes_too}
use blobyard_core.Sqlite.Lifecycle.Completion.{finish_lem}
use blobyard_core.Base.{
  ℕ, ◌≡◌, sym, ap, ◌∙◌, inl, inr, Bool, true, false, not, ◌&&◌, some, List, [], ◌∷◌, arith, ltb,
  Bool-cases, find?, find?-test, find?-keep, Str, str_eq, str_eq_iff, ok_or, guard, ok-injective,
  guard-eq-ok, ok_or-eq-ok, >>=-eq-ok, >>-eq-ok, ok,
}

-- What a capability resolved through.
record Resolved (capability : Str) (now_ms : ℕ) (db : Database) (object : StoredObjectRecord)
    : Type 0 where
  hashed : checksum_valid capability ≡ true
  now : ℕ
  narrow : to_i64 now_ms ≡ ok now
  grant : DownloadRow
  granted :
      find?
        (λ (d : DownloadRow). str_eq d.capability_hash capability && ltb now d.expires_at_ms)
        db.downloads
      ≡ some grant
  version : ObjectVersionRecord
  found : find_version grant.version_id db ≡ some version
  done : is_complete version.state ≡ true
  reservation : ReservationRow
  reserved :
      find? (λ (r : ReservationRow). str_eq r.version_id version.id) db.reservations
      ≡ some reservation
  shape : stored_object version reservation ≡ object

download_by_capability-eq-ok :
    (capability : Str) (now_ms : ℕ) (db : Database) (object : StoredObjectRecord)
    → download_by_capability capability now_ms db ≡ ok object
    → Resolved capability now_ms db object
unfolding download_by_capability
download_by_capability-eq-ok capability now_ms db object h =
    let (hashed, h1) = >>-eq-ok (guard (checksum_valid capability) invalid_input) _ h in
    let (now, narrow, h2) = >>=-eq-ok (to_i64 now_ms) _ h1 in
    let wanted =
      find? (λ (d : DownloadRow). str_eq d.capability_hash capability && ltb now d.expires_at_ms)
        db.downloads in
    let (grant, granted, h3) = >>=-eq-ok (ok_or wanted not_found) _ h2 in
    let (v, found, h4) = >>=-eq-ok (ok_or (find_version grant.version_id db) not_found) _ h3 in
    let (done, h5) = >>-eq-ok (guard (is_complete v.state) not_found) _ h4 in
    let held = find? (λ (r : ReservationRow). str_eq r.version_id v.id) db.reservations in
    let (r, reserved, h6) = >>=-eq-ok (ok_or held not_found) _ h5 in
    record {
      hashed = guard-eq-ok (checksum_valid capability) invalid_input hashed;
      now = now;
      narrow = narrow;
      grant = grant;
      granted = ok_or-eq-ok wanted not_found granted;
      version = v;
      found = ok_or-eq-ok (find_version grant.version_id db) not_found found;
      done = guard-eq-ok (is_complete v.state) not_found done;
      reservation = r;
      reserved = ok_or-eq-ok held not_found reserved;
      shape = ok-injective _ _ h6;
    }

download_by_capability_of :
    (capability : Str) (now_ms : ℕ) (db : Database) (object : StoredObjectRecord)
    → Resolved capability now_ms db object
    → download_by_capability capability now_ms db ≡ ok object
unfolding download_by_capability
download_by_capability_of capability now_ms db object x =
    rw (x.hashed, x.narrow, x.granted, x.found, x.done, x.reserved) (ap (λ s. ok s) x.shape)

-- A grant resolves after a deletion only to a version that stays, and as before where the
-- deletion names nothing of its version.
module _ (n : Str → Bool) (g : ObjectVersionRecord → Bool) (db : ShareDatabase) where
  purge_resolves :
      (capability : Str) (now : ℕ) (object : StoredObjectRecord)
      → download_by_capability capability now db.uploads ≡ ok object
      → n object.version.id ≡ false
      → g object.version ≡ false
      → download_by_capability capability now (purge n g db).uploads ≡ ok object
  unfolding purge
  purge_resolves capability now object h other stays =
      let x = download_by_capability-eq-ok capability now db.uploads object h in
      let v : x.version ≡ object.version = ap (λ (s : StoredObjectRecord). s.version) x.shape in
      let own = find_row-key version_key x.grant.version_id db.uploads.versions x.version x.found in
      let keeps : not (n x.version.id) ≡ true =
        ap (λ (w : ObjectVersionRecord). not (n w.id)) v ∙ ap not other in
      let holder = (str_eq_iff x.reservation.version_id x.version.id).0 (
        find?-test (λ (r : ReservationRow). str_eq r.version_id x.version.id)
          db.uploads.reservations x.reservation x.reserved) in
      download_by_capability_of capability now (purge n g db).uploads object (record {
        hashed = x.hashed;
        now = x.now;
        narrow = x.narrow;
        grant = x.grant;
        granted =
            find?-keep
              (λ (d : DownloadRow).
                str_eq d.capability_hash capability && ltb x.now d.expires_at_ms)
              (λ (d : DownloadRow). not (n d.version_id)) db.uploads.downloads x.grant x.granted
              (ap (λ k. not (n k)) (sym own) ∙ keeps);
        version = x.version;
        found =
            find_row-keep version_key x.grant.version_id (λ (w : ObjectVersionRecord). not (g w))
              db.uploads.versions x.version x.found
              (ap (λ (w : ObjectVersionRecord). not (g w)) v ∙ ap not stays);
        done = x.done;
        reservation = x.reservation;
        reserved =
            find?-keep (λ (r : ReservationRow). str_eq r.version_id x.version.id)
              (λ (r : ReservationRow). not (n r.version_id)) db.uploads.reservations x.reservation
              x.reserved (ap (λ k. not (n k)) holder ∙ keeps);
        shape = x.shape;
      })

  purge_stays :
      (capability : Str) (now : ℕ) (object : StoredObjectRecord)
      → download_by_capability capability now (purge n g db).uploads ≡ ok object
      → g object.version ≡ false
  unfolding purge
  purge_stays capability now object h =
      let x = download_by_capability-eq-ok capability now (purge n g db).uploads object h in
      let kept =
        find_row-keep_test version_key x.grant.version_id (λ (w : ObjectVersionRecord). not (g w))
          db.uploads.versions x.version x.found in
      let kept' = ap (λ (s : StoredObjectRecord). not (g s.version)) (sym x.shape) ∙ kept in
      ground arith

-- After a pending deletion is finished, a download grant resolves only to a version that the
-- operation does not remove, and a grant of a version whose identifier it does not name resolves
-- as before.
pub finish-download_by_capability :
    (id : Str) (at : ℕ) (event : NewAuditEvent) (o : OperationRow) (db db' : LifecycleDatabase)
    (capability : Str) (now : ℕ) (object : StoredObjectRecord)
    → find_operation id db ≡ some o
    → is_done o.status ≡ false
    → finish id at event db ≡ ok db'
    → (download_by_capability capability now db'.stored.uploads ≡ ok object
        → is_doomed o db.items object.version ≡ false)
      × (download_by_capability capability now db.stored.uploads ≡ ok object
          → names_doomed o db.items db.stored.uploads.versions object.version.id ≡ false
          → download_by_capability capability now db'.stored.uploads ≡ ok object)
finish-download_by_capability id at event o db db' capability now object row open_now h =
    let left = (finish_lem id at event o db db' row open_now h).uploads in
    let n = names_doomed o db.items db.stored.uploads.versions in
    let g = is_doomed o db.items in
    (
      λ after.
          purge_stays n g db.stored capability now object
            (ap (download_by_capability capability now) (sym left) ∙ after),
      λ before other.
          let x = download_by_capability-eq-ok capability now db.stored.uploads object before in
          let done : is_complete object.version.state ≡ true =
            ap (λ (s : StoredObjectRecord). is_complete s.version.state) (sym x.shape) ∙ x.done in
          ap (download_by_capability capability now) left
          ∙ purge_resolves n g db.stored capability now object before other (ground arith),
    )

names_found :
    (g : ObjectVersionRecord → Bool) (versions : List ObjectVersionRecord) (k : Str)
    (v : ObjectVersionRecord)
    → find_row version_key k versions ≡ some v
    → g v ≡ true
    → names g versions k ≡ true
unfolding find_row
names_found g [] k v found h = absurd (cc)
names_found g (w ∷ versions) k v found h = elim (Bool-cases (str_eq w.id k)) [
  | inl own ↦
      let e : some w ≡ some v = rw own at found in
      let w' : w ≡ v = cc in let holds : g w ≡ true = ap g w' ∙ h in ground arith
  | inr other ↦ let rest = names_found g versions k v (rw other at found) h in ground arith
]

purge-IsConsistent :
    (n : Str → Bool) (g : ObjectVersionRecord → Bool) (db : ShareDatabase)
    → IsUnique reservation_key db.uploads.reservations
    → ((v : ObjectVersionRecord)
        → find_version v.id db.uploads ≡ some v
        → n v.id ≡ false
        → g v ≡ false)
    → IsConsistent db.uploads
    → IsConsistent (purge n g db).uploads
unfolding purge
purge-IsConsistent n g db unique apart inv id r found =
    let before =
      find_row-keep_unique reservation_key id (λ (s : ReservationRow). not (n s.version_id))
        db.uploads.reservations r unique found in
    let kept =
      find_row-keep_test reservation_key id (λ (s : ReservationRow). not (n s.version_id))
        db.uploads.reservations r found in
    let l = inv id r before in
    let own = find_row-key version_key id db.uploads.versions l.version l.found in
    let unnamed : n l.version.id ≡ false =
      let e : n l.version.id ≡ n r.version_id = ap n (own ∙ sym l.own) in ground arith in
    let stays = apart l.version (ap (λ k. find_version k db.uploads) own ∙ l.found) unnamed in
    record {
      own = l.own;
      version = l.version;
      found =
          find_row-keep version_key id (λ (v : ObjectVersionRecord). not (g v)) db.uploads.versions
            l.version l.found (ap not stays);
      agrees = l.agrees;
    }

-- Finishing a pending deletion of a consistent database whose reservations have different
-- identifiers leaves it consistent: every reservation that is left has its version.
pub finish-IsConsistent :
    (id : Str) (at : ℕ) (event : NewAuditEvent) (o : OperationRow) (db db' : LifecycleDatabase)
    → find_operation id db ≡ some o
    → is_done o.status ≡ false
    → finish id at event db ≡ ok db'
    → IsUnique reservation_key db.stored.uploads.reservations
    → IsConsistent db.stored.uploads
    → IsConsistent db'.stored.uploads
finish-IsConsistent id at event o db db' row open_now h unique inv =
    let left = (finish_lem id at event o db db' row open_now h).uploads in
    let versions = db.stored.uploads.versions in
    subst (λ d. IsConsistent d) (sym left)
      (purge-IsConsistent (names_doomed o db.items versions) (is_doomed o db.items) db.stored unique
        (λ v found other. elim (Bool-cases (goes_too o v)) [
          | inl gone ↦
              let named = names_found (goes_too o) versions v.id v found gone in
              absurd (ground arith)
          | inr stays ↦ ground arith
        ])
        inv)
