-- ===== src/Sqlite/Lifecycle/Purge.antt =====
-- What the deletions of `crates/blobyard-repository-sqlite/src/lifecycle_deletion.rs` leave of the
-- tables, as one removal instead of a loop of statements.
use mathlib.Core.Path.{fun_ext}
use blobyard_core.Contract.{ObjectVersionRecord}
use blobyard_core.Sqlite.Database.{ReservationRow, PartRow, DownloadRow}
use blobyard_core.Sqlite.Sharing.{ShareRow, ShareDatabase}
use blobyard_core.Sqlite.Lifecycle.{ItemRow}
use blobyard_core.Sqlite.Lifecycle.Finish.{
  delete_grants, delete_reservations, names, forget, without_version, delete_versions, has_id,
  delete_version, delete_each,
}
use blobyard_core.Base.{
  ◌≡◌, refl, sym, ap, ◌∙◌, inl, inr, Bool, true, false, not, ◌&&◌, ◌||◌, Option, none, some, List,
  [], ◌∷◌, map, arith, Bool-cases, any, keep, keep-keep-not, any-or, any-keep-not, keep_none,
  any_none, Str, str_eq, str_eq_iff, ok,
}

-- Remove the versions of a test, the reservations, parts and grants of a test of the version's
-- identifier, and the versions of shares.
unfoldable pub purge : (Str → Bool) → (ObjectVersionRecord → Bool) → ShareDatabase → ShareDatabase
purge named gone db = record db {
  uploads = record db.uploads {
    versions = keep (λ (v : ObjectVersionRecord). not (gone v)) db.uploads.versions;
    reservations = keep (λ (r : ReservationRow). not (named r.version_id)) db.uploads.reservations;
    parts =
        keep
          (λ (p : PartRow). not (
            any (λ (r : ReservationRow). named r.version_id && str_eq r.id p.upload_id)
              db.uploads.reservations))
          db.uploads.parts;
    downloads = keep (λ (d : DownloadRow). not (named d.version_id)) db.uploads.downloads;
  };
  shares = map (without_version (names gone db.uploads.versions)) db.shares;
}

forget-or : (p q : Str → Bool) (o : Option Str) → forget q (forget p o) ≡ forget (λ k. p k || q k) o
forget-or p q none = refl
forget-or p q (some k) = ground arith

forget_none : (o : Option Str) → forget (λ k. false) o ≡ o
forget_none none = refl
forget_none (some k) = refl

clear-or :
    (p q : Str → Bool) (shares : List ShareRow)
    → map (without_version q) (map (without_version p) shares)
      ≡ map (without_version (λ k. p k || q k)) shares
clear-or p q [] = refl
clear-or p q (s ∷ shares) =
    λ i. record s { version_id = forget-or p q s.version_id i } ∷ clear-or p q shares i

clear_none : (shares : List ShareRow) → map (without_version (λ k. false)) shares ≡ shares
clear_none [] = refl
clear_none (s ∷ shares) =
    λ i. record s { version_id = forget_none s.version_id i } ∷ clear_none shares i

pub purge-purge :
    (n m : Str → Bool) (g h : ObjectVersionRecord → Bool) (db : ShareDatabase)
    → purge m h (purge n g db) ≡ purge (λ k. n k || m k) (λ v. g v || h v) db
unfolding purge
purge-purge n m g h db =
    let versions = keep-keep-not g h db.uploads.versions in
    let reservations =
      keep-keep-not (λ (r : ReservationRow). n r.version_id)
        (λ (r : ReservationRow). m r.version_id) db.uploads.reservations in
    let downloads =
      keep-keep-not (λ (d : DownloadRow). n d.version_id) (λ (d : DownloadRow). m d.version_id)
        db.uploads.downloads in
    let parts =
      keep-keep-not
        (λ (p : PartRow).
          any (λ (r : ReservationRow). n r.version_id && str_eq r.id p.upload_id)
            db.uploads.reservations)
        (λ (p : PartRow).
          any (λ (r : ReservationRow). m r.version_id && str_eq r.id p.upload_id)
            (keep (λ (r : ReservationRow). not (n r.version_id)) db.uploads.reservations))
        db.uploads.parts in
    let both_parts = fun_ext λ (p : PartRow).
      any-or (λ (r : ReservationRow). n r.version_id) (λ (r : ReservationRow). m r.version_id)
        (λ (r : ReservationRow). str_eq r.id p.upload_id) db.uploads.reservations in
    let shares =
      clear-or (names g db.uploads.versions)
        (names h (keep (λ (v : ObjectVersionRecord). not (g v)) db.uploads.versions)) db.shares in
    let both_names =
      fun_ext
        λ (k : Str). any-or g h (λ (v : ObjectVersionRecord). str_eq v.id k) db.uploads.versions in
    λ i. record db {
      uploads = record db.uploads {
        versions = versions i;
        reservations = reservations i;
        parts =
            (parts
                ∙ ap (λ (f : PartRow → Bool). keep (λ p. not (f p)) db.uploads.parts)
                    (sym both_parts))
              i;
        downloads = downloads i;
      };
      shares =
          (shares ∙ ap (λ (f : Str → Bool). map (without_version f) db.shares) (sym both_names)) i;
    }

pub purge_none : (db : ShareDatabase) → purge (λ k. false) (λ v. false) db ≡ db
unfolding purge
purge_none db =
    let no_parts = fun_ext λ (p : PartRow).
      any_none (λ (r : ReservationRow). str_eq r.id p.upload_id) db.uploads.reservations in
    let no_names =
      fun_ext
        λ (k : Str). any_none (λ (v : ObjectVersionRecord). str_eq v.id k) db.uploads.versions in
    λ i. record db {
      uploads = record db.uploads {
        versions = keep_none db.uploads.versions i;
        reservations = keep_none db.uploads.reservations i;
        parts =
            (ap (λ (f : PartRow → Bool). keep (λ p. not (f p)) db.uploads.parts) no_parts
                ∙ keep_none db.uploads.parts)
              i;
        downloads = keep_none db.uploads.downloads i;
      };
      shares =
          (ap (λ (f : Str → Bool). map (without_version f) db.shares) no_names
              ∙ clear_none db.shares)
            i;
    }

names-implies :
    (g : ObjectVersionRecord → Bool) (t : Str → Bool) (versions : List ObjectVersionRecord)
    (k : Str)
    → ((v : ObjectVersionRecord) → g v ≡ true → t v.id ≡ true)
    → names g versions k ≡ true
    → t k ≡ true
names-implies g t [] k implies h = absurd (cc)
names-implies g t (v ∷ versions) k implies h = elim (Bool-cases (g v && str_eq v.id k)) [
  | inl own ↦
      let same : v.id ≡ k = (str_eq_iff v.id k).0 (ground arith) in
      rw same at (implies v (ground arith))
  | inr other ↦ names-implies g t versions k implies (ground arith)
]

-- Deleting versions after their reservations: the reference does not restrict.
delete_versions-purge :
    (n : Str → Bool) (g : ObjectVersionRecord → Bool) (db : ShareDatabase)
    → ((k : Str) → names g db.uploads.versions k ≡ true → n k ≡ true)
    → delete_versions g (delete_reservations n (delete_grants n db)) ≡ ok (purge n g db)
unfolding delete_versions delete_reservations delete_grants purge
delete_versions-purge n g db implies =
    let free =
      any-keep-not (λ (r : ReservationRow). n r.version_id)
        (λ (r : ReservationRow). names g db.uploads.versions r.version_id) db.uploads.reservations
        (λ r. implies r.version_id) in
    let twice =
      keep-keep-not (λ (d : DownloadRow). n d.version_id)
        (λ (d : DownloadRow). names g db.uploads.versions d.version_id) db.uploads.downloads in
    let once : (λ (d : DownloadRow). n d.version_id || names g db.uploads.versions d.version_id)
        ≡ (λ (d : DownloadRow). n d.version_id) =
      fun_ext λ (d : DownloadRow). ground (arith, implies d.version_id) in
    rw free λ i. ok (record db {
      uploads = record db.uploads {
        versions = keep (λ (v : ObjectVersionRecord). not (g v)) db.uploads.versions;
        reservations = keep (λ (r : ReservationRow). not (n r.version_id)) db.uploads.reservations;
        parts =
            keep
              (λ (p : PartRow). not (
                any (λ (r : ReservationRow). n r.version_id && str_eq r.id p.upload_id)
                  db.uploads.reservations))
              db.uploads.parts;
        downloads =
            (twice
                ∙ ap (λ (f : DownloadRow → Bool). keep (λ d. not (f d)) db.uploads.downloads) once)
              i;
      };
      shares = map (without_version (names g db.uploads.versions)) db.shares;
    })

delete_version-purge :
    (id : Str) (db : ShareDatabase)
    → delete_version id db ≡ ok (purge (has_id id) (λ (v : ObjectVersionRecord). str_eq v.id id) db)
unfolding delete_version
delete_version-purge id db =
    delete_versions-purge (has_id id) (λ (v : ObjectVersionRecord). str_eq v.id id) db
      (λ k.
        names-implies (λ (v : ObjectVersionRecord). str_eq v.id id) (has_id id) db.uploads.versions
          k (λ v h. h))

-- Some item of a list is for this version.
abbrev pub item_names : List ItemRow → Str → Bool
item_names items k = any (λ (i : ItemRow). str_eq k i.version_id) items

pub delete_each-purge :
    (items : List ItemRow) (db : ShareDatabase)
    → delete_each items db
      ≡ ok (purge (item_names items) (λ (v : ObjectVersionRecord). item_names items v.id) db)
unfolding delete_each
delete_each-purge [] db = ap (λ d. ok d) (sym (purge_none db))
delete_each-purge (i ∷ items) db =
    let first =
      purge (has_id i.version_id) (λ (v : ObjectVersionRecord). str_eq v.id i.version_id) db in
    rw (delete_version-purge i.version_id db, delete_each-purge items first)
      (ap (λ d. ok d)
        (purge-purge (has_id i.version_id) (item_names items)
          (λ (v : ObjectVersionRecord). str_eq v.id i.version_id)
          (λ (v : ObjectVersionRecord). item_names items v.id) db))
