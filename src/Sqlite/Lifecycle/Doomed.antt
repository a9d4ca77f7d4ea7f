-- ===== src/Sqlite/Lifecycle/Doomed.antt =====
-- The versions that one operation removes, as one removal:
-- `delete_selected_metadata` of `crates/blobyard-repository-sqlite/src/lifecycle_deletion.rs`.
use mathlib.Core.Path.{fun_ext}
use blobyard_core.Contract.{ObjectVersionRecord}
use blobyard_core.Sqlite.Database.{ReservationRow}
use blobyard_core.Sqlite.Sharing.{ShareDatabase}
use blobyard_core.Sqlite.Lifecycle.{
  OperationRow, ItemRow, LifecycleDatabase, is_object_delete, operation_items,
}
use blobyard_core.Sqlite.Lifecycle.Finish.{
  delete_reservations, names, delete_versions, aborted_target, delete_aborted_target,
  delete_selected_metadata,
}
use blobyard_core.Base.{
  ◌≡◌, refl, sym, ap, ◌∙◌, inl, inr, Bool, true, false, not, ◌&&◌, ◌||◌, List, [], ◌∷◌, arith,
  if◌then◌else◌, Bool-cases, any, keep, any-keep-not, any-keep, any_none, any-order_by, Str, str_eq,
  str_eq_iff, str_lt, ok,
}
use blobyard_core.Sqlite.Lifecycle.Purge.{
  purge, purge-purge, purge_none, item_names, delete_each-purge,
}

delete_aborted_target-purge :
    (o : OperationRow) (db : ShareDatabase)
    → delete_aborted_target o db
      ≡ ok (purge (names (aborted_target o) db.uploads.versions) (aborted_target o) db)
unfolding delete_aborted_target delete_versions delete_reservations purge
delete_aborted_target-purge o db =
    rw
      (any-keep-not
        (λ (r : ReservationRow). names (aborted_target o) db.uploads.versions r.version_id)
        (λ (r : ReservationRow). names (aborted_target o) db.uploads.versions r.version_id)
        db.uploads.reservations (λ r h. h))
      refl

-- The operation has an item for the version.
abbrev pub is_planned : Str → List ItemRow → Str → Bool
is_planned operation items k =
    any (λ (i : ItemRow). str_eq i.operation_id operation && str_eq k i.version_id) items

pub operation_items-names :
    (operation : Str) (items : List ItemRow) (k : Str)
    → item_names (operation_items operation items) k ≡ is_planned operation items k
unfolding operation_items
operation_items-names operation items k =
    any-order_by (λ (i : ItemRow). str_eq k i.version_id)
      (λ (i : ItemRow) (j : ItemRow). str_lt i.version_id j.version_id)
      (keep (λ (i : ItemRow). str_eq i.operation_id operation) items)
    ∙ any-keep (λ (i : ItemRow). str_eq k i.version_id)
        (λ (i : ItemRow). str_eq i.operation_id operation) items

-- A version that goes with a deleted object, since its upload was aborted.
abbrev pub goes_too : OperationRow → ObjectVersionRecord → Bool
goes_too o v = is_object_delete o.reason && aborted_target o v

-- The versions that an operation removes.
abbrev pub is_doomed : OperationRow → List ItemRow → ObjectVersionRecord → Bool
is_doomed o items v = is_planned o.id items v.id || goes_too o v

abbrev pub names_doomed : OperationRow → List ItemRow → List ObjectVersionRecord → Str → Bool
names_doomed o items versions k = is_planned o.id items k || names (goes_too o) versions k

purge_cong :
    {n m : Str → Bool} {g h : ObjectVersionRecord → Bool} (db : ShareDatabase)
    → ((k : Str) → n k ≡ m k)
    → ((v : ObjectVersionRecord) → g v ≡ h v)
    → purge n g db ≡ purge m h db
purge_cong db p q = λ i. purge (fun_ext p i) (fun_ext q i) db

delete_if_purge :
    (b : Bool) (o : OperationRow) (db : ShareDatabase)
    → (if b then delete_aborted_target o db else ok db)
      ≡ ok (
          purge
            (names (λ v. b && aborted_target o v) db.uploads.versions)
            (λ v. b && aborted_target o v)
            db)
delete_if_purge true o db = delete_aborted_target-purge o db
delete_if_purge false o db =
    ap (λ d. ok d)
      (sym (
        purge_cong db
          (λ k. any_none (λ (v : ObjectVersionRecord). str_eq v.id k) db.uploads.versions)
          (λ v. refl)
        ∙ purge_none db))

names-later :
    (p : Str → Bool) (g : ObjectVersionRecord → Bool) (versions : List ObjectVersionRecord)
    (k : Str)
    → (p k || names g (keep (λ (v : ObjectVersionRecord). not (p v.id)) versions) k)
      ≡ (p k || names g versions k)
names-later p g [] k = refl
names-later p g (v ∷ versions) k = elim (Bool-cases (str_eq v.id k)) [
  | inl own ↦
      let same : v.id ≡ k = (str_eq_iff v.id k).0 own in
      let found : p v.id ≡ p k = ap p same in ground (arith, names-later p g versions k)
  | inr other ↦ ground (arith, names-later p g versions k)
]

-- The statements of an operation together are one removal.
pub delete_selected_metadata-purge :
    (o : OperationRow) (db : LifecycleDatabase)
    → delete_selected_metadata o db
      ≡ ok (record db {
        stored =
            purge
              (names_doomed o db.items db.stored.uploads.versions)
              (is_doomed o db.items)
              db.stored;
      })
unfolding delete_selected_metadata purge
delete_selected_metadata-purge o db =
    let items = operation_items o.id db.items in
    let versions = db.stored.uploads.versions in
    let left =
      purge (item_names items) (λ (v : ObjectVersionRecord). item_names items v.id) db.stored in
    rw (delete_each-purge items db.stored, delete_if_purge (is_object_delete o.reason) o left)
      (ap (λ (s : ShareDatabase). ok (record db { stored = s }))
        (purge-purge (item_names items) (names (goes_too o) left.uploads.versions)
            (λ (v : ObjectVersionRecord). item_names items v.id) (goes_too o) db.stored
          ∙ purge_cong db.stored
              (λ k.
                names-later (item_names items) (goes_too o) versions k
                ∙ ap (λ b. b || names (goes_too o) versions k)
                    (operation_items-names o.id db.items k))
              (λ v. ap (λ b. b || goes_too o v) (operation_items-names o.id db.items v.id))))
