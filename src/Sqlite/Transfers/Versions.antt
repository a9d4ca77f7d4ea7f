-- ===== src/Sqlite/Transfers/Versions.antt =====
-- Reserving an upload and numbering its version:
-- `crates/blobyard-repository-sqlite/src/transfer_reservations.rs`.
use blobyard_core.Contract.{
  conflict, ObjectVersionRecord, NewUploadReservation, UploadReservationRecord,
}
use blobyard_core.Sqlite.Database.{
  DeletedVersion, Database, version_key, reservation_key, validate_reservation,
  ValidatedReservation,
}
use blobyard_core.Sqlite.Table.{find_row, insert_row, find_row-append}
use blobyard_core.Sqlite.Transfers.{
  find_version, find_reservation, ensure_project, max_live, max_deleted, next_version, same_place,
  new_version_row, insert_version, new_reservation_row, clashes, insert_reservation, reserve,
  reservation_by_id,
}
use blobyard_core.Sqlite.Transfers.Rows.{TouchesOnly}
use blobyard_core.Base.{
  ℕ, ◌+◌, ◌<◌, max, ◌≡◌, sym, ap, ◌∙◌, inl, inr, true, false, not, ◌&&◌, none, some, List, [], ◌∷◌,
  ◌++◌, arith, Bool-cases, Option-cases, any, All, Str, str_eq, str_eq_iff, str_eq_refl, guard,
  ok_or, >>=-eq-ok, >>-eq-ok, ok_or-eq-ok, ok-injective, ok,
}

-- A live version of the path, by its number.
abbrev pub IsAt : Str → Str → ObjectVersionRecord → Type 0
IsAt project path v = (v.project_id ≡ project) × (v.object_path ≡ path)

-- Every live version of the path has a smaller number, and so had every deleted one that is
-- recorded at the path, which is the path of the operation that deleted it.
abbrev pub IsNewest : Str → Str → ℕ → Database → Type 0
IsNewest project path n db =
    All (λ (v : ObjectVersionRecord). v.project_id ≡ project → v.object_path ≡ path → v.version < n)
      db.versions
    × All (λ (v : DeletedVersion). v.project_id ≡ project → v.object_path ≡ path → v.version < n)
        db.deleted

max_live_bounds :
    (project path : Str) (n : ℕ) (rows : List ObjectVersionRecord)
    → max_live project path rows < n
    → All
        (λ (v : ObjectVersionRecord). v.project_id ≡ project → v.object_path ≡ path → v.version < n)
        rows
unfolding max_live
max_live_bounds project path n [] h = tt
max_live_bounds project path n (v ∷ rows) h =
    elim (Bool-cases (str_eq v.project_id project && str_eq v.object_path path)) [
      | inl here ↦
          let h' : max v.version (max_live project path rows) < n = rw here at h in
          (λ p q. omega arith, max_live_bounds project path n rows (omega arith))
      | inr other ↦ (
        λ p q.
            let both : (str_eq v.project_id project && str_eq v.object_path path) ≡ true =
              rw (p, q, str_eq_refl, str_eq_refl) in
            absurd (cc),
        max_live_bounds project path n rows (rw other at h),
      )
    ]

max_deleted_bounds :
    (project path : Str) (n : ℕ) (rows : List DeletedVersion)
    → max_deleted project path rows < n
    → All
        (λ (v : DeletedVersion). v.project_id ≡ project → v.object_path ≡ path → v.version < n)
        rows
unfolding max_deleted
max_deleted_bounds project path n [] h = tt
max_deleted_bounds project path n (v ∷ rows) h =
    elim (Bool-cases (str_eq v.project_id project && str_eq v.object_path path)) [
      | inl here ↦
          let h' : max v.version (max_deleted project path rows) < n = rw here at h in
          (λ p q. omega arith, max_deleted_bounds project path n rows (omega arith))
      | inr other ↦ (
        λ p q.
            let both : (str_eq v.project_id project && str_eq v.object_path path) ≡ true =
              rw (p, q, str_eq_refl, str_eq_refl) in
            absurd (cc),
        max_deleted_bounds project path n rows (rw other at h),
      )
    ]

pub next_version-IsNewest :
    (value : NewUploadReservation) (db : Database) (n : ℕ)
    → next_version value db ≡ ok n
    → IsNewest value.project_id value.object_path n db
unfolding next_version
next_version-IsNewest value db n h =
    let live = max_live value.project_id value.object_path db.versions in
    let gone = max_deleted value.project_id value.object_path db.deleted in
    let e : max live gone + 1 ≡ n = ground arith in
    (
      max_live_bounds value.project_id value.object_path n db.versions (omega arith),
      max_deleted_bounds value.project_id value.object_path n db.deleted (omega arith),
    )

module _ {R : Type 0} (key : R → Str) where
  pub insert_row-eq-some :
      (r : R) (rows rows' : List R)
      → insert_row key r rows ≡ some rows'
      → (find_row key (key r) rows ≡ none) × (rows' ≡ rows ++ r ∷ [])
  unfolding insert_row
  insert_row-eq-some r rows rows' h = elim (Option-cases (find_row key (key r) rows)) [
    | inl free ↦
        (free, let e : some (rows ++ r ∷ []) ≡ some rows' = rw (free, insert_row) at h in cc)
    | inr (old, taken) ↦ let bad : none ≡ some rows' = rw (taken, insert_row) at h in absurd (cc)
  ]

  pub find_inserted :
      (r : R) (rows : List R)
      → find_row key (key r) rows ≡ none
      → find_row key (key r) (rows ++ r ∷ []) ≡ some r
  find_inserted r rows free = rw (find_row-append, free, str_eq_refl)

  pub find_other :
      (j : Str) (r : R) (rows : List R)
      → str_eq j (key r) ≡ false
      → find_row key j (rows ++ r ∷ []) ≡ find_row key j rows
  find_other j r rows apart =
      let swapped : str_eq (key r) j ≡ false =
        ground (arith, str_eq_iff j (key r), str_eq_iff (key r) j) in
      elim (Option-cases (find_row key j rows)) [
        | inl free ↦ rw (find_row-append, free, swapped)
        | inr (x, taken) ↦ rw (find_row-append, taken)
      ]

-- A reservation that succeeds was new in both tables. It adds the two rows, the version pending
-- under a number that is greater than that of every live version of the path, and of every version
-- that an operation on that path deleted. A version that a retention deleted is recorded at another
-- path and does not count. No other reservation, no other version and no other table changes.
pub reserve_lem :
    (value : NewUploadReservation) (db : Database) (u : UploadReservationRecord) (db' : Database)
    → reserve value db ≡ ok (u, db')
    → (validated : ValidatedReservation) × (n : ℕ) × (find_reservation value.id db ≡ none)
      × (find_version value.id db ≡ none)
      × IsNewest value.project_id value.object_path n db
      × (find_reservation value.id db' ≡ some (new_reservation_row value validated))
      × (find_version value.id db' ≡ some (new_version_row value n validated.created_at_ms))
      × TouchesOnly value.id db db'
      × (db' ≡ record db { reservations = db'.reservations; versions = db'.versions })
unfolding reserve insert_version insert_reservation
reserve_lem value db u db' h =
    let (validated, valid, h1) = >>=-eq-ok (validate_reservation value) _ h in
    let (known, h2) = >>-eq-ok (ensure_project value.project_id db) _ h1 in
    let (n, numbered, h3) = >>=-eq-ok (next_version value db) _ h2 in
    let (with_version, ins, h4) =
      >>=-eq-ok (insert_version value n validated.created_at_ms db) _ h3 in
    let (with_both, ins2, h5) = >>=-eq-ok (insert_reservation value validated with_version) _ h4 in
    let (x, read, h6) = >>=-eq-ok (reservation_by_id value.id with_both) _ h5 in
    let same : ◌≡◌ {A = UploadReservationRecord × Database} (x, with_both) (u, db') =
      ok-injective _ _ h6 in
    let vrow = new_version_row value n validated.created_at_ms in
    let rrow = new_reservation_row value validated in
    let (g1, i1) = >>-eq-ok (guard (not (any (same_place value n) db.versions)) conflict) _ ins in
    let (rows, r1, e1) =
      >>=-eq-ok (ok_or (insert_row version_key vrow db.versions) conflict) _ i1 in
    let (g2, i2) =
      >>-eq-ok (guard (not (any (clashes value) with_version.reservations)) conflict) _ ins2 in
    let (rows2, r2, e2) =
      >>=-eq-ok (ok_or (insert_row reservation_key rrow with_version.reservations) conflict) _ i2 in
    let w : record db { versions = rows } ≡ with_version = ok-injective _ _ e1 in
    let b : record with_version { reservations = rows2 } ≡ with_both = ok-injective _ _ e2 in
    let d : with_both ≡ db' = ap (λ p. p.1) same in
    let (free, shape) = insert_row-eq-some version_key vrow db.versions rows (ok_or-eq-ok _ _ r1) in
    let (free2, shape2) =
      insert_row-eq-some reservation_key rrow with_version.reservations rows2
        (ok_or-eq-ok _ _ r2) in
    let tables : with_both
        ≡ record db { reservations = with_both.reservations; versions = with_both.versions } =
      sym b
      ∙ ap (λ (x : Database). record x { reservations = rows2 }) (sym w)
      ∙ ap (λ (x : Database). record db { reservations = x.reservations; versions = x.versions })
          (ap (λ (x : Database). record x { reservations = rows2 }) w ∙ b) in
    let versions' : db'.versions ≡ db.versions ++ vrow ∷ [] =
      ap (λ (x : Database). x.versions) (sym d ∙ sym b)
      ∙ ap (λ (x : Database). x.versions) (sym w)
      ∙ shape in
    let rows_before : with_version.reservations ≡ db.reservations =
      ap (λ (x : Database). x.reservations) (sym w) in
    let reservations' : db'.reservations ≡ db.reservations ++ rrow ∷ [] =
      ap (λ (x : Database). x.reservations) (sym d ∙ sym b)
      ∙ shape2
      ∙ ap (λ l. l ++ rrow ∷ []) rows_before in
    let free_row : find_reservation value.id db ≡ none =
      ap (find_row reservation_key value.id) (sym rows_before) ∙ free2 in
    (
      validated,
      n,
      free_row,
      free,
      next_version-IsNewest value db n numbered,
      ap (find_row reservation_key value.id) reservations'
          ∙ find_inserted reservation_key rrow db.reservations free_row,
      ap (find_row version_key value.id) versions'
          ∙ find_inserted version_key vrow db.versions free,
      λ j apart. (
        ap (find_row reservation_key j) reservations'
            ∙ find_other reservation_key j rrow db.reservations apart,
        ap (find_row version_key j) versions' ∙ find_other version_key j vrow db.versions apart,
      ),
      sym d
          ∙ tables
          ∙ ap
              (λ (x : Database). record db { reservations = x.reservations; versions = x.versions })
              d,
    )
