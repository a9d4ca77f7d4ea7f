-- ===== src/Sqlite/Table.antt =====
-- Rows with a primary key. `UPDATE … WHERE key = ?1 AND test` reports how many rows it changed,
-- which is one or none.
use mathlib.Core.Option
use mathlib.Core.Path.{subst}
use blobyard_core.Base.{
  ℕ, ◌+◌, sum_by, ◌≡◌, refl, sym, ap, ◌∙◌, inl, inr, Bool, true, false, Option, none, some, List,
  [], ◌∷◌, ◌++◌, arith, if◌then◌else◌, keep, any, ◌&&◌, ◌||◌, All, All-map, Bool-cases, Str,
  str_eq_refl, str_eq, str_eq_iff,
}

module _ {R : Type 0} (key : R → Str) where
  unfoldable pub find_row : Str → List R → Option R
  find_row k [] = none
  find_row k (r ∷ rows) = if str_eq (key r) k then some r else find_row k rows

  unfoldable pub update_row : Str → (R → Bool) → (R → R) → List R → ℕ × List R
  update_row k test change [] = (0, [])
  update_row k test change (r ∷ rows) =
      let rest = update_row k test change rows in
      if str_eq (key r) k
      then (if test r then (1, change r ∷ rows) else (0, r ∷ rows))
      else (rest.0, r ∷ rest.1)

  -- `INSERT` into a table with this primary key: `none` is the constraint violation.
  unfoldable pub insert_row : R → List R → Option (List R)
  insert_row r rows = elim (find_row (key r) rows) [
    | none ↦ some (rows ++ r ∷ [])
    | some old ↦ none
  ]

  -- A row that an update with this test and this change leaves behind.
  abbrev pub changed : (R → Bool) → (R → R) → R → R
  changed test change r = if test r then change r else r

  pub find_row-key : (k : Str) (rows : List R) (r : R) → find_row k rows ≡ some r → key r ≡ k
  unfolding find_row
  find_row-key k [] r h = absurd (cc)
  find_row-key k (x ∷ rows) r h = elim (Bool-cases (str_eq (key x) k)) [
    | inl same ↦
        let e : some x ≡ some r = rw same at h in
        let x' : x ≡ r = cc in ap key (sym x') ∙ (str_eq_iff (key x) k).0 same
    | inr other ↦ find_row-key k rows r (rw other at h)
  ]

  pub find_row-update_row_self :
      (k : Str) (test : R → Bool) (change : R → R) (rows : List R)
      → ((r : R) → key (change r) ≡ key r)
      → find_row k (update_row k test change rows).1
        ≡ Option.map (changed test change) (find_row k rows)
  unfolding find_row update_row
  find_row-update_row_self k test change [] keeps = refl
  find_row-update_row_self k test change (r ∷ rows) keeps = elim (Bool-cases (str_eq (key r) k)) [
    | inl same ↦ elim (Bool-cases (test r)) [
      | inl yes_test ↦ rw (same, yes_test, keeps r, same)
      | inr no_test ↦ rw (same, no_test, same)
    ]
    | inr other ↦ rw (other, other) (find_row-update_row_self k test change rows keeps)
  ]

  pub find_row-update_row_ne :
      (j k : Str) (test : R → Bool) (change : R → R) (rows : List R)
      → ((r : R) → key (change r) ≡ key r)
      → str_eq j k ≡ false
      → find_row j (update_row k test change rows).1 ≡ find_row j rows
  unfolding find_row update_row
  find_row-update_row_ne j k test change [] keeps apart = refl
  find_row-update_row_ne j k test change (r ∷ rows) keeps apart =
      elim (Bool-cases (str_eq (key r) k)) [
        | inl same ↦
            let not_j : str_eq (key r) j ≡ false =
              ground (arith, str_eq_iff (key r) k, str_eq_iff (key r) j, str_eq_iff j k) in
            elim (Bool-cases (test r)) [
              | inl yes_test ↦ rw (same, yes_test, keeps r, not_j)
              | inr no_test ↦ rw (same, no_test)
            ]
        | inr other ↦ rw (other) (
            ap (λ o. if str_eq (key r) j then some r else o)
              (find_row-update_row_ne j k test change rows keeps apart))
      ]

  -- An update that changes one row found a row that passes its test.
  pub update_row-eq-one :
      (k : Str) (test : R → Bool) (change : R → R) (rows : List R)
      → (update_row k test change rows).0 ≡ 1
      → (r : R) × (find_row k rows ≡ some r) × (test r ≡ true)
  unfolding find_row update_row
  update_row-eq-one k test change [] h = absurd (omega arith)
  update_row-eq-one k test change (r ∷ rows) h = elim (Bool-cases (str_eq (key r) k)) [
    | inl same ↦ (r, rw same, ground arith)
    | inr other ↦
        let (x, found, passed) = update_row-eq-one k test change rows (rw other at h) in
        (x, rw other found, passed)
  ]

  pub update_row_count :
      (k : Str) (test : R → Bool) (change : R → R) (rows : List R) (r : R)
      → find_row k rows ≡ some r
      → (update_row k test change rows).0 ≡ (if test r then 1 else 0)
  unfolding find_row update_row
  update_row_count k test change [] r h = absurd (cc)
  update_row_count k test change (x ∷ rows) r h = elim (Bool-cases (str_eq (key x) k)) [
    | inl same ↦
        let e : some x ≡ some r = rw same at h in
        let x' : x ≡ r = cc in rw (same, ← x') (ground arith)
    | inr other ↦ rw other (update_row_count k test change rows r (rw other at h))
  ]

  -- What an update of one row does to the sum of a weight.
  pub sum_by-update_row :
      (w : R → ℕ) (k : Str) (test : R → Bool) (change : R → R) (rows : List R) (r : R)
      → find_row k rows ≡ some r
      → test r ≡ true
      → sum_by w (update_row k test change rows).1 + w r ≡ sum_by w rows + w (change r)
  unfolding find_row update_row
  sum_by-update_row w k test change [] r found passed = absurd (cc)
  sum_by-update_row w k test change (x ∷ rows) r found passed =
      elim (Bool-cases (str_eq (key x) k)) [
        | inl same ↦
            let e : some x ≡ some r = rw same at found in
            let x' : x ≡ r = cc in
            let own : test x ≡ true = ap test x' ∙ passed in
            let before : w x ≡ w r = ap w x' in
            let after : w (change x) ≡ w (change r) = ap (λ y. w (change y)) x' in
            rw (same, own) (omega arith)
        | inr other ↦
            let ih = sum_by-update_row w k test change rows r (rw other at found) passed in
            rw other (omega arith)
      ]

  pub any-update_row :
      (t : R → Bool) (k : Str) (test : R → Bool) (change : R → R) (rows : List R)
      → ((r : R) → t (change r) ≡ t r)
      → any t (update_row k test change rows).1 ≡ any t rows
  unfolding update_row
  any-update_row t k test change [] same = refl
  any-update_row t k test change (x ∷ rows) same =
      ground (arith, any-update_row t k test change rows same, same x)

  pub find_row-append :
      (j : Str) (rows : List R) (r : R)
      → find_row j (rows ++ r ∷ []) ≡ (elim (find_row j rows) [
        | some x ↦ some x
        | none ↦ if str_eq (key r) j then some r else none
      ])
  unfolding find_row
  find_row-append j [] r = refl
  find_row-append j (x ∷ rows) r = elim (Bool-cases (str_eq (key x) j)) [
    | inl same ↦ rw same
    | inr other ↦ rw other (find_row-append j rows r)
  ]

  -- A row that a removal keeps is found again, and what is found was kept.
  pub find_row-keep :
      (k : Str) (test : R → Bool) (rows : List R) (r : R)
      → find_row k rows ≡ some r
      → test r ≡ true
      → find_row k (keep test rows) ≡ some r
  unfolding find_row
  find_row-keep k test [] r found kept = absurd (cc)
  find_row-keep k test (x ∷ rows) r found kept = elim (Bool-cases (str_eq (key x) k)) [
    | inl same ↦
        let e : some x ≡ some r = rw same at found in
        let x' : x ≡ r = cc in rw (x', kept, ap (λ y. str_eq (key y) k) (sym x') ∙ same)
    | inr other ↦
        let ih = find_row-keep k test rows r (rw other at found) kept in
        elim (Bool-cases (test x)) [
          | inl yes_test ↦ rw (yes_test, other) ih
          | inr no_test ↦ rw no_test ih
        ]
  ]

  pub find_row-keep_test :
      (k : Str) (test : R → Bool) (rows : List R) (r : R)
      → find_row k (keep test rows) ≡ some r
      → test r ≡ true
  unfolding find_row
  find_row-keep_test k test [] r found = absurd (cc)
  find_row-keep_test k test (x ∷ rows) r found = elim (Bool-cases (test x)) [
    | inl kept ↦ elim (Bool-cases (str_eq (key x) k)) [
      | inl same ↦
          let e : some x ≡ some r = rw (kept, same) at found in
          let x' : x ≡ r = cc in ap test (sym x') ∙ kept
      | inr other ↦ find_row-keep_test k test rows r (rw (kept, other) at found)
    ]
    | inr gone ↦ find_row-keep_test k test rows r (rw gone at found)
  ]

  -- No two rows have one key.
  unfoldable pub IsUnique : List R → Type 0
  IsUnique [] = Unit
  IsUnique (r ∷ rows) = (find_row (key r) rows ≡ none) × IsUnique rows

  pub find_row-keep_unique :
      (k : Str) (test : R → Bool) (rows : List R) (r : R)
      → IsUnique rows
      → find_row k (keep test rows) ≡ some r
      → find_row k rows ≡ some r
  unfolding find_row IsUnique
  find_row-keep_unique k test [] r unique found = absurd (cc)
  find_row-keep_unique k test (x ∷ rows) r (alone, unique) found =
      elim (Bool-cases (str_eq (key x) k)) [
        | inl same ↦ elim (Bool-cases (test x)) [
          | inl kept ↦ rw same (rw (kept, same) at found)
          | inr gone ↦
              let later = find_row-keep_unique k test rows r unique (rw gone at found) in
              let k' : key x ≡ k = (str_eq_iff (key x) k).0 same in
              let bad : none ≡ some r = sym (rw k' at alone) ∙ later in absurd (cc)
        ]
        | inr other ↦ rw other (
            find_row-keep_unique k test rows r unique (elim (Bool-cases (test x)) [
              | inl kept ↦ rw (kept, other) at found
              | inr gone ↦ rw gone at found
            ]))
      ]

  IsUnique-found_rest :
      (x : R) (rows : List R) (r : R)
      → find_row (key x) rows ≡ none
      → find_row (key r) rows ≡ some r
      → find_row (key r) (x ∷ rows) ≡ some r
  unfolding find_row
  IsUnique-found_rest x rows r alone found = elim (Bool-cases (str_eq (key x) (key r))) [
    | inl same ↦
        let k : key x ≡ key r = (str_eq_iff (key x) (key r)).0 same in
        let bad : none ≡ some r = sym (rw k at alone) ∙ found in absurd (cc)
    | inr other ↦ rw other found
  ]

  pub IsUnique-found :
      (rows : List R) → IsUnique rows → All (λ (r : R). find_row (key r) rows ≡ some r) rows
  unfolding find_row IsUnique
  IsUnique-found [] unique = tt
  IsUnique-found (x ∷ rows) (alone, unique) = (
    rw (str_eq_refl (key x)),
    All-map rows (λ r. IsUnique-found_rest x rows r alone) (IsUnique-found rows unique),
  )

  absent_any :
      (p : R → Bool) (k : Str) (rows : List R)
      → find_row k rows ≡ none
      → any (λ (r : R). p r && str_eq k (key r)) rows ≡ false
  unfolding find_row
  absent_any p k [] h = refl
  absent_any p k (x ∷ rows) h = elim (Bool-cases (str_eq (key x) k)) [
    | inl same ↦ absurd (let bad : some x ≡ none = rw same at h in cc)
    | inr other ↦
        let ih = absent_any p k rows (rw other at h) in
        ground (arith, str_eq_iff (key x) k, str_eq_iff k (key x))
  ]

  -- Of the rows with the key of a row only that row can pass a test.
  pub IsUnique-any :
      (p : R → Bool) (r : R) (rows : List R)
      → IsUnique rows
      → find_row (key r) rows ≡ some r
      → any (λ (x : R). p x && str_eq (key r) (key x)) rows ≡ p r
  unfolding find_row IsUnique
  IsUnique-any p r [] unique found = absurd (cc)
  IsUnique-any p r (x ∷ rows) (alone, unique) found = elim (Bool-cases (str_eq (key x) (key r))) [
    | inl same ↦
        let e : some x ≡ some r = rw same at found in
        let x' : x ≡ r = cc in
        let none_left = absent_any p (key x) rows alone in
        let own : (p x && str_eq (key x) (key x)
              || any (λ (y : R). p y && str_eq (key x) (key y)) rows)
            ≡ p x =
          ground (arith, str_eq_refl (key x)) in
        subst (λ y. any (λ (z : R). p z && str_eq (key y) (key z)) (x ∷ rows) ≡ p y) x' own
    | inr other ↦
        let ih = IsUnique-any p r rows unique (rw other at found) in
        ground (arith, str_eq_iff (key x) (key r), str_eq_iff (key r) (key x))
  ]
