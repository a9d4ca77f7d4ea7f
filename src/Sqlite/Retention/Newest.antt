-- ===== src/Sqlite/Retention/Newest.antt =====
-- The order of the versions that a retention plan considers: `ORDER BY created_at_ms DESC, id DESC`
-- of `crates/blobyard-repository-sqlite/src/lifecycle_retention_plan.rs`.
use mathlib.Core.Path.{subst}
use blobyard_core.Contract.{ObjectVersionRecord, is_complete}
use blobyard_core.Sqlite.Retention.{
  RetentionPolicy, protected_path, policy_matches, newer, place, candidates, matching, add_matching,
}
use blobyard_core.Base.{
  ℕ, ◌+◌, ◌≤◌, ◌<◌, ◌≡◌, refl, ◌∙◌, ◌⊎◌, inl, inr, Bool, true, false, ◌&&◌, ◌||◌, Option, none,
  some, List, [], ◌∷◌, arith, ltb, Bool-cases, All, All-map, sum_by, Str, str_eq, str_lt,
}

-- The first of two versions may stand before the second: it is younger, or of the same age and its
-- identifier does not come before the other's.
abbrev pub MayPrecede : ObjectVersionRecord → ObjectVersionRecord → Type 0
MayPrecede v w =
    (w.created_at_ms < v.created_at_ms)
    ⊎ ((v.created_at_ms ≡ w.created_at_ms) × (str_lt v.id w.id ≡ false))

-- The youngest first.
abbrev pub IsNewestFirst : List ObjectVersionRecord → Type 0
IsNewestFirst [] = Unit {0}
IsNewestFirst (v ∷ rows) = All (MayPrecede v) rows × IsNewestFirst rows

str_lt-between : (a b c : Str) → str_lt a c ≡ true → (str_lt a b || str_lt b c) ≡ true
unfolding str_lt
str_lt-between [] b [] h = absurd (let bad : false ≡ true = h in cc)
str_lt-between (x ∷ a) b [] h = absurd (let bad : false ≡ true = h in cc)
str_lt-between [] [] (z ∷ c) h = refl
str_lt-between [] (y ∷ b) (z ∷ c) h = refl
str_lt-between (x ∷ a) [] (z ∷ c) h = refl
str_lt-between (x ∷ a) (y ∷ b) (z ∷ c) h = ground (arith, str_lt-between a b c)

str_lt_asym : (a b : Str) → str_lt a b ≡ true → str_lt b a ≡ false
unfolding str_lt
str_lt_asym [] [] h = refl
str_lt_asym [] (y ∷ b) h = refl
str_lt_asym (x ∷ a) [] h = absurd (let bad : false ≡ true = h in cc)
str_lt_asym (x ∷ a) (y ∷ b) h = ground (arith, str_lt_asym a b)

MayPrecede-trans : (u v w : ObjectVersionRecord) → MayPrecede u v → MayPrecede v w → MayPrecede u w
MayPrecede-trans u v w (inl p) (inl q) = inl (omega arith)
MayPrecede-trans u v w (inl p) (inr (q, _)) = inl (omega arith)
MayPrecede-trans u v w (inr (p, _)) (inl q) = inl (omega arith)
MayPrecede-trans u v w (inr (p, f)) (inr (q, g)) =
    inr (p ∙ q, ground (arith, str_lt-between u.id v.id w.id))

newer-MayPrecede : (v w : ObjectVersionRecord) → newer v w ≡ true → MayPrecede v w
unfolding newer
newer-MayPrecede v w h = elim (Bool-cases (ltb w.created_at_ms v.created_at_ms)) [
  | inl young ↦ inl (ground arith)
  | inr other ↦ inr (ground arith, ground arith)
]

newer-swapped : (v w : ObjectVersionRecord) → newer v w ≡ false → MayPrecede w v
unfolding newer
newer-swapped v w h = elim (Bool-cases (ltb v.created_at_ms w.created_at_ms)) [
  | inl young ↦ inl (ground arith)
  | inr other ↦ inr (ground arith, ground (arith, str_lt_asym v.id w.id))
]

All-place :
    (P : ObjectVersionRecord → Type 0) (v : ObjectVersionRecord) (rows : List ObjectVersionRecord)
    → P v
    → All P rows
    → All P (place v rows)
unfolding place
All-place P v [] p h = (p, tt)
All-place P v (w ∷ rows) p (q, h) = elim (Bool-cases (newer v w)) [
  | inl first ↦ rw first (p, (q, h))
  | inr later ↦ rw later (q, All-place P v rows p h)
]

place-IsNewestFirst :
    (v : ObjectVersionRecord) (rows : List ObjectVersionRecord)
    → IsNewestFirst rows
    → IsNewestFirst (place v rows)
unfolding place
place-IsNewestFirst v [] h = (tt, tt)
place-IsNewestFirst v (w ∷ rows) (low, h) = elim (Bool-cases (newer v w)) [
  | inl first ↦
      let p = newer-MayPrecede v w first in
      rw first ((p, All-map rows (λ x q. MayPrecede-trans v w x p q) low), (low, h))
  | inr later ↦
      rw later (
        All-place (MayPrecede w) v rows (newer-swapped v w later) low,
        place-IsNewestFirst v rows h,
      )
]

candidates-IsNewestFirst :
    (project : Str) (rows : List ObjectVersionRecord) → IsNewestFirst (candidates project rows)
unfolding candidates
candidates-IsNewestFirst project [] = tt
candidates-IsNewestFirst project (v ∷ rows) =
    let rest = candidates-IsNewestFirst project rows in
    elim (Bool-cases (str_eq v.project_id project && is_complete v.state)) [
      | inl listed ↦ rw listed (place-IsNewestFirst v (candidates project rows) rest)
      | inr other ↦ rw other rest
    ]

sum_by-place :
    (w : ObjectVersionRecord → ℕ) (v : ObjectVersionRecord) (rows : List ObjectVersionRecord)
    → sum_by w (place v rows) ≡ w v + sum_by w rows
unfolding place
sum_by-place w v [] = refl
sum_by-place w v (x ∷ rows) = elim (Bool-cases (newer v x)) [
  | inl first ↦ rw first refl
  | inr later ↦ rw later (omega (arith, sum_by-place w v rows))
]

sum_by-candidates :
    (w : ObjectVersionRecord → ℕ) (project : Str) (rows : List ObjectVersionRecord)
    → sum_by w (candidates project rows) ≤ sum_by w rows
unfolding candidates
sum_by-candidates w project [] = omega arith
sum_by-candidates w project (v ∷ rows) =
    let rest = sum_by-candidates w project rows in
    elim (Bool-cases (str_eq v.project_id project && is_complete v.state)) [
      | inl listed ↦ rw listed (omega (arith, sum_by-place w v (candidates project rows)))
      | inr other ↦ rw other (omega arith)
    ]

-- Some of the rows, in their order.
data IsPart : List ObjectVersionRecord → List ObjectVersionRecord → Type 0 where
  none_left : IsPart [] []
  kept :
      (v : ObjectVersionRecord) {some_rows rows : List ObjectVersionRecord}
      → IsPart some_rows rows
      → IsPart (v ∷ some_rows) (v ∷ rows)
  skipped :
      (v : ObjectVersionRecord) {some_rows rows : List ObjectVersionRecord}
      → IsPart some_rows rows
      → IsPart some_rows (v ∷ rows)

-- One version before the rest of the loop.
add_matching-IsPart :
    (v : ObjectVersionRecord) (rows chosen : List ObjectVersionRecord) (answer : Option Bool)
    (rest : Option (List ObjectVersionRecord))
    → ((found : List ObjectVersionRecord) → rest ≡ some found → IsPart found rows)
    → add_matching answer v rest ≡ some chosen
    → IsPart chosen (v ∷ rows)
add_matching-IsPart v rows chosen none rest part k = absurd (let bad : none ≡ some chosen = k in cc)
add_matching-IsPart v rows chosen (some true) none part k =
    absurd (let bad : none ≡ some chosen = k in cc)
add_matching-IsPart v rows chosen (some true) (some found) part k =
    let shape : some (v ∷ found) ≡ some chosen = k in
    let same : v ∷ found ≡ chosen = cc in
    subst (λ c. IsPart c (v ∷ rows)) same (kept v (part found refl))
add_matching-IsPart v rows chosen (some false) rest part k = skipped v (part chosen k)

matching-IsPart :
    (policy : RetentionPolicy) (rows chosen : List ObjectVersionRecord)
    → matching policy rows ≡ some chosen
    → IsPart chosen rows
unfolding matching
matching-IsPart policy [] chosen h =
    let e : ◌≡◌ {A = Option (List ObjectVersionRecord)} (some []) (some chosen) = h in
    let same : [] ≡ chosen = cc in subst (λ c. IsPart c []) same none_left
matching-IsPart policy (v ∷ rows) chosen h = elim (Bool-cases (protected_path v.object_path)) [
  | inl guarded ↦ skipped v (matching-IsPart policy rows chosen (rw guarded at h))
  | inr free ↦
      add_matching-IsPart v rows chosen (policy_matches policy v) (matching policy rows)
        (λ found e. matching-IsPart policy rows found e) (rw free at h)
]

IsPart-All :
    (P : ObjectVersionRecord → Type 0) {few rows : List ObjectVersionRecord}
    → IsPart few rows
    → All P rows
    → All P few
IsPart-All P none_left h = tt
IsPart-All P (kept v part) (p, h) = (p, IsPart-All P part h)
IsPart-All P (skipped v part) (p, h) = IsPart-All P part h

IsPart-IsNewestFirst :
    {few rows : List ObjectVersionRecord} → IsPart few rows → IsNewestFirst rows → IsNewestFirst few
IsPart-IsNewestFirst none_left h = tt
IsPart-IsNewestFirst (kept v part) (low, h) =
    (IsPart-All (MayPrecede v) part low, IsPart-IsNewestFirst part h)
IsPart-IsNewestFirst (skipped v part) (low, h) = IsPart-IsNewestFirst part h

sum_by-IsPart :
    (w : ObjectVersionRecord → ℕ) {few rows : List ObjectVersionRecord}
    → IsPart few rows
    → sum_by w few ≤ sum_by w rows
sum_by-IsPart w none_left = omega arith
sum_by-IsPart w (kept v part) = let rest = sum_by-IsPart w part in omega arith
sum_by-IsPart w (skipped v part) = let rest = sum_by-IsPart w part in omega arith

-- What a policy chooses of the listed versions stands in their order, and no more often than it is
-- stored.
pub matching-IsNewestFirst :
    (policy : RetentionPolicy) (rows chosen : List ObjectVersionRecord)
    → matching policy (candidates policy.project_id rows) ≡ some chosen
    → IsNewestFirst chosen × ((w : ObjectVersionRecord → ℕ) → sum_by w chosen ≤ sum_by w rows)
matching-IsNewestFirst policy rows chosen h =
    let part = matching-IsPart policy (candidates policy.project_id rows) chosen h in
    (
      IsPart-IsNewestFirst part (candidates-IsNewestFirst policy.project_id rows),
      λ w.
          let a = sum_by-IsPart w part in
          let b = sum_by-candidates w policy.project_id rows in omega arith,
    )
