-- ===== src/Cli/Parts/Progress.antt =====
-- What a resumed upload has sent and what it has left: `ResumeState` of
-- `crates/blobyard-cli/src/runner/transfers/resume.rs`.
use blobyard_core.Sqlite.Transfers.Multipart.{u64_max}
use blobyard_core.Cli.Parts.{
  total_parts, part_range, ResumeState, is_completed, one_to, pending, part_bytes, add_bytes,
  completed_bytes,
}
use blobyard_core.Cli.Parts.Tiling.{Tiles, total_parts-Tiles, Covers, total_parts-Covers, offset_lt}
use blobyard_core.Base.{
  ℕ, zero, suc, ◌+◌, ◌≤◌, ◌<◌, min, ◌≡◌, refl, sym, ap, ◌∙◌, inl, inr, Bool, true, false, not, List,
  [], ◌∷◌, ◌++◌, map, arith, ◌==◌, if◌then◌else◌, ==_iff, Bool-cases, keep, Str, ok,
}

-- Each number is that of a part, and stands once.
abbrev pub IsWithin : ℕ → List (ℕ × Str) → Type 0
IsWithin count [] = Unit {0}
IsWithin count ((n, tag) ∷ etags) =
    (0 < n) × (n ≤ count) × (is_completed n etags ≡ false) × IsWithin count etags

-- The bytes of the listed parts.
abbrev pub sum_parts : (ℕ → ℕ) → List ℕ → ℕ
sum_parts bytes [] = 0
sum_parts bytes (n ∷ ns) = bytes n + sum_parts bytes ns

abbrev pub part_length : ℕ → ℕ → ℕ → ℕ
part_length size part_size n = (part_range n part_size size).1

sum_parts-append :
    (bytes : ℕ → ℕ) (ns ms : List ℕ)
    → sum_parts bytes (ns ++ ms) ≡ sum_parts bytes ns + sum_parts bytes ms
sum_parts-append bytes [] ms = omega arith
sum_parts-append bytes (n ∷ ns) ms = omega (arith, sum_parts-append bytes ns ms)

sum_parts-one_to-suc :
    (bytes : ℕ → ℕ) (m : ℕ)
    → sum_parts bytes (one_to (suc m)) ≡ sum_parts bytes (one_to m) + bytes (suc m)
unfolding one_to
sum_parts-one_to-suc bytes m = omega (arith, sum_parts-append bytes (one_to m) (suc m ∷ []))

module _ (size p count : ℕ) (t : Tiles size p count) where
  offset_sum :
      (m : ℕ)
      → m < count
      → sum_parts (part_length size p) (one_to m) ≡ (part_range (m + 1) p size).0
  unfolding one_to part_range
  offset_sum zero inside = omega arith
  offset_sum (suc m) inside =
      let e = t.adjacent (suc m) (omega arith) inside in
      let e' : suc m ≡ m + 1 = omega arith in
      let before : sum_parts (part_length size p) (one_to m) ≡ (part_range (suc m) p size).0 =
        rw e' (offset_sum m (omega arith)) in
      sum_parts-one_to-suc (part_length size p) m
      ∙ ap (λ x. x + part_length size p (suc m)) before
      ∙ sym e

whole_sum :
    (size p count : ℕ)
    → Tiles size p count
    → 0 < count
    → sum_parts (part_length size p) (one_to count) ≡ size
whole_sum size p zero t some_part = absurd (omega arith)
whole_sum size p (suc k) t some_part =
    let e' : suc k ≡ k + 1 = omega arith in
    let before : sum_parts (part_length size p) (one_to k) ≡ (part_range (suc k) p size).0 =
      rw e' (offset_sum size p (suc k) t k (omega arith)) in
    sum_parts-one_to-suc (part_length size p) k
    ∙ ap (λ x. x + part_length size p (suc k)) before
    ∙ t.last

-- The parts that are left of the first `m`.
abbrev left_of : ℕ → List (ℕ × Str) → List ℕ
left_of m etags = keep (λ n. not (is_completed n etags)) (one_to m)

keep-append {ℓ} :
    {A : Type ℓ} (test : A → Bool) (xs ys : List A)
    → keep test (xs ++ ys) ≡ keep test xs ++ keep test ys
keep-append test [] ys = refl
keep-append test (x ∷ xs) ys = elim (Bool-cases (test x)) [
  | inl kept ↦ rw kept (ap (λ l. x ∷ l) (keep-append test xs ys))
  | inr dropped ↦ rw dropped (keep-append test xs ys)
]

module _ (bytes : ℕ → ℕ) where
  left_suc :
      (m : ℕ) (etags : List (ℕ × Str))
      → sum_parts bytes (left_of (suc m) etags)
        ≡ sum_parts bytes (left_of m etags)
          + (if is_completed (suc m) etags then 0 else bytes (suc m))
  unfolding one_to
  left_suc m etags =
      ap (sum_parts bytes) (keep-append (λ n. not (is_completed n etags)) (one_to m) (suc m ∷ []))
      ∙ sum_parts-append bytes (left_of m etags)
          (keep (λ n. not (is_completed n etags)) (suc m ∷ []))
      ∙ elim (Bool-cases (is_completed (suc m) etags)) [
        | inl done ↦ rw done
        | inr open_part ↦ rw open_part (omega arith)
      ]

  left_above :
      (m k : ℕ) (tag : Str) (etags : List (ℕ × Str))
      → m < k
      → sum_parts bytes (left_of m ((k, tag) ∷ etags)) ≡ sum_parts bytes (left_of m etags)
  unfolding one_to is_completed
  left_above zero k tag etags above = refl
  left_above (suc m) k tag etags above =
      let other : (k == suc m) ≡ false = ground arith in
      let now = left_suc m ((k, tag) ∷ etags) in
      let now' : sum_parts bytes (left_of (suc m) ((k, tag) ∷ etags))
          ≡ sum_parts bytes (left_of m ((k, tag) ∷ etags))
            + (if is_completed (suc m) etags then 0 else bytes (suc m)) =
        rw other at now in
      omega (arith, left_suc m etags, left_above m k tag etags (omega arith), now')

  left_here :
      (m : ℕ) (tag : Str) (etags : List (ℕ × Str))
      → is_completed (suc m) etags ≡ false
      → sum_parts bytes (left_of (suc m) ((suc m, tag) ∷ etags)) + bytes (suc m)
        ≡ sum_parts bytes (left_of (suc m) etags)
  unfolding is_completed
  left_here m tag etags new =
      let self : (suc m == suc m) ≡ true = ground arith in
      let now = left_suc m ((suc m, tag) ∷ etags) in
      let now' : sum_parts bytes (left_of (suc m) ((suc m, tag) ∷ etags))
          ≡ sum_parts bytes (left_of m ((suc m, tag) ∷ etags)) + 0 =
        rw self at now in
      let old = left_suc m etags in
      let old' : sum_parts bytes (left_of (suc m) etags)
          ≡ sum_parts bytes (left_of m etags) + bytes (suc m) =
        rw new at old in
      let rest = left_above m (suc m) tag etags (omega arith) in omega arith

  left_cons :
      (m k : ℕ) (tag : Str) (etags : List (ℕ × Str))
      → 0 < k
      → k ≤ m
      → is_completed k etags ≡ false
      → sum_parts bytes (left_of m ((k, tag) ∷ etags)) + bytes k ≡ sum_parts bytes (left_of m etags)
  unfolding is_completed
  left_cons zero k tag etags positive inside new = absurd (omega arith)
  left_cons (suc m) k tag etags positive inside new = elim (Bool-cases (k == suc m)) [
    | inl same ↦
        let e : k ≡ suc m = (==_iff k (suc m)).0 same in rw e (left_here m tag etags (rw e at new))
    | inr other ↦
        let now = left_suc m ((k, tag) ∷ etags) in
        let now' : sum_parts bytes (left_of (suc m) ((k, tag) ∷ etags))
            ≡ sum_parts bytes (left_of m ((k, tag) ∷ etags))
              + (if is_completed (suc m) etags then 0 else bytes (suc m)) =
          rw other at now in
        let old = left_suc m etags in
        let rest = left_cons m k tag etags positive (ground arith) new in omega arith
  ]

  -- The parts that are done and those that are left are all parts.
  done_and_left :
      (m : ℕ) (etags : List (ℕ × Str))
      → IsWithin m etags
      → sum_parts bytes (map (λ (e : ℕ × Str). e.0) etags) + sum_parts bytes (left_of m etags)
        ≡ sum_parts bytes (one_to m)
  unfolding is_completed
  done_and_left m [] inside = omega (arith, ap (sum_parts bytes) (keep_all (one_to m)))
    where
      keep_all : (ns : List ℕ) → keep (λ n. true) ns ≡ ns
      keep_all [] = refl
      keep_all (n ∷ ns) = ap (λ l. n ∷ l) (keep_all ns)
  done_and_left m ((k, tag) ∷ etags) (positive, inside, new, rest) =
      omega (arith, left_cons m k tag etags positive inside new, done_and_left m etags rest)

-- Within the range of `u64` no sum of the fold saturates.
add_bytes-eq :
    (size p count total : ℕ) (etags : List (ℕ × Str))
    → Covers size p count
    → size ≤ u64_max
    → IsWithin count etags
    → total + sum_parts (part_length size p) (map (λ (e : ℕ × Str). e.0) etags) ≤ u64_max
    → add_bytes size p total etags
      ≡ total + sum_parts (part_length size p) (map (λ (e : ℕ × Str). e.0) etags)
unfolding add_bytes
add_bytes-eq size p count total [] c fits inside small = omega arith
add_bytes-eq size p count total ((n, tag) ∷ etags) c fits (positive, last, new, rest) small =
    let starts = offset_lt size p count c n positive last in
    let e : part_bytes size p n ≡ part_length size p n =
      unfold part_bytes part_range in omega arith in
    let step : min (total + part_bytes size p n) u64_max ≡ total + part_length size p n =
      omega arith in
    rw step (
      add_bytes-eq size p count (total + part_length size p n) etags c fits rest (omega arith)
      ∙ omega arith)

-- For a file of a size and a number of parts that the client accepts, and a state that lists each
-- completed part once: the bytes reported as completed and the bytes of the parts still pending
-- are together the file.
pub completed_bytes-pending :
    (size count : ℕ) (state : ResumeState)
    → size ≤ u64_max
    → total_parts size state.part_size_bytes ≡ ok count
    → IsWithin count state.completed_etags
    → completed_bytes size state
        + sum_parts (part_length size state.part_size_bytes) (pending count state)
      ≡ size
unfolding completed_bytes pending
completed_bytes-pending size count state fits h inside =
    let p = state.part_size_bytes in
    let c = total_parts-Covers size p count h in
    let whole = whole_sum size p count (total_parts-Tiles size p count h) c.some_part in
    let parts = done_and_left (part_length size p) count state.completed_etags inside in
    let done = add_bytes-eq size p count 0 state.completed_etags c fits inside (omega arith) in
    omega arith
