-- ===== src/Cli/Parts/Tiling.antt =====
-- The parts of a file tile it: `crates/blobyard-cli/src/runner/transfers/upload_math.rs`, with
-- `expected_part_size` of `crates/blobyard-repository-sqlite/src/transfer_multipart.rs`.
use native.Mathlib.Nat.{div-mul-le_self, mul-le-mul_right, lt-div-mul-add, mod-eq_of_lt}
use blobyard_core.Contract.{div_ceil}
use blobyard_core.Sqlite.Transfers.Multipart.{u64_max, expected_part_size}
use blobyard_core.Cli.Parts.{
  provider_unavailable, max_parts, min_part_size, total_parts, part_range,
}
use blobyard_core.Base.{
  ℕ, zero, suc, ◌+◌, ◌-◌, ◌*◌, ◌%◌, ◌^◌, ◌≤◌, ◌<◌, ◌≡◌, sym, ◌∙◌, not, ◌||◌, arith, ltb, ◌==◌,
  guard, >>-eq-ok, guard-eq-ok, ok-injective, ok,
}

-- The last part starts before the end, and all parts together reach it.
pub record Covers (size part_size count : ℕ) : Type 0 where
  pub positive : 0 < part_size
  pub some_part : 0 < count
  pub starts : (count - 1) * part_size < size
  pub reaches : size ≤ count * part_size
  pub bounded : count ≤ max_parts

times_suc : (k p : ℕ) → suc k * p ≡ k * p + p
times_suc k p = omega arith

pred_suc : (k : ℕ) → suc k - 1 ≡ k
pred_suc k = omega arith

Covers-of_quotient :
    (size p c : ℕ)
    → 0 < p
    → 0 < c
    → c ≤ max_parts
    → c * p ≤ size + (p - 1)
    → size + (p - 1) < c * p + p
    → Covers size p c
Covers-of_quotient size p zero positive some_part few low high = absurd (omega arith)
Covers-of_quotient size p (suc k) positive some_part few low high =
    let e = times_suc k p in
    record {
      positive = positive;
      some_part = some_part;
      starts = rw (pred_suc k) (omega arith);
      reaches = omega arith;
      bounded = few;
    }

div_ceil-Covers :
    (size p : ℕ)
    → 0 < p
    → 0 < div_ceil size p
    → div_ceil size p ≤ max_parts
    → Covers size p (div_ceil size p)
div_ceil-Covers size p positive some_part few =
    Covers-of_quotient size p (div_ceil size p) positive some_part few
      (div-mul-le_self (size + (p - 1)) p) (lt-div-mul-add positive)

pub total_parts-Covers : (size p count : ℕ) → total_parts size p ≡ ok count → Covers size p count
unfolding total_parts
total_parts-Covers size p count h =
    let (big, h1) = >>-eq-ok (guard (not (ltb p min_part_size)) provider_unavailable) _ h in
    let (few, h2) =
      >>-eq-ok
        (guard (not (div_ceil size p == 0 || ltb max_parts (div_ceil size p))) provider_unavailable)
        _ h1 in
    let large = guard-eq-ok (not (ltb p min_part_size)) provider_unavailable big in
    let some_few =
      guard-eq-ok (not (div_ceil size p == 0 || ltb max_parts (div_ceil size p)))
        provider_unavailable few in
    let bound : div_ceil size p ≤ max_parts = ground arith in
    let e : div_ceil size p % 2 ^ 32 ≡ count = ok-injective _ _ h2 in
    let fits : div_ceil size p < 2 ^ 32 = omega arith in
    let same : div_ceil size p ≡ count = sym (mod-eq_of_lt fits) ∙ e in
    rw same at (div_ceil-Covers size p (ground arith) (ground arith) bound)

-- The offset of a part is where the part before it ends.
offset_next : (n p : ℕ) → 0 < n → (n + 1 - 1) * p ≡ (n - 1) * p + p
offset_next zero p some_part = absurd (omega arith)
offset_next (suc k) p some_part = rw (pred_suc k, pred_next k) (times_suc k p)
  where
    pred_next : (k : ℕ) → suc k + 1 - 1 ≡ suc k
    pred_next k = omega arith

module _ (size p count : ℕ) (c : Covers size p count) where
  pub offset_lt : (n : ℕ) → 0 < n → n ≤ count → (n - 1) * p < size
  offset_lt n first last =
      let step : (n - 1) * p ≤ (count - 1) * p = mul-le-mul_right p (omega arith) in
      let starts = c.starts in omega arith

  offset_full : (n : ℕ) → 0 < n → n < count → (n - 1) * p + p < size
  offset_full n first last =
      let e = offset_next n p first in
      let after = offset_lt (n + 1) (omega arith) (omega arith) in omega arith

  count_end : size ≤ (count - 1) * p + p
  count_end =
      let e = offset_next count p c.some_part in
      let same : count + 1 - 1 ≡ count = omega arith in
      let e' : count * p ≡ (count - 1) * p + p = rw same at e in let r = c.reaches in omega arith

-- The parts `1..=count` tile a file of `size` bytes: the first starts at its start, each starts
-- where the one before it ends, the last ends at its end, and none is empty or over the part size.
pub record Tiles (size part_size count : ℕ) : Type 0 where
  pub first : (part_range 1 part_size size).0 ≡ 0
  pub adjacent :
      (n : ℕ)
      → 0 < n
      → n < count
      → (part_range (n + 1) part_size size).0
        ≡ (part_range n part_size size).0 + (part_range n part_size size).1
  pub last : (part_range count part_size size).0 + (part_range count part_size size).1 ≡ size
  pub sized :
      (n : ℕ)
      → 0 < n
      → n ≤ count
      → (0 < (part_range n part_size size).1)
        × ((part_range n part_size size).1 ≤ part_size)
        × ((part_range n part_size size).0 + (part_range n part_size size).1 ≤ size)

-- A file is tiled by its parts where the client accepts its part size and their number: the first
-- starts at its start, each starts where the one before it ends, the last ends at its end, and
-- none is empty or over the part size.
pub total_parts-Tiles :
    (size part_size count : ℕ) → total_parts size part_size ≡ ok count → Tiles size part_size count
unfolding part_range
total_parts-Tiles size p count h =
    let c = total_parts-Covers size p count h in
    let positive = c.positive in
    record {
      first = omega arith;
      adjacent = λ n first last.
          let e = offset_next n p first in
          let full = offset_full size p count c n first last in omega arith;
      last = let starts = c.starts in let end = count_end size p count c in omega arith;
      sized = λ n first last.
          let starts = offset_lt size p count c n first last in
          (omega arith, omega arith, omega arith);
    }

-- For a file within the range of `u64`, of a part size and a number of parts that the client
-- accepts, each of its parts that the client sends is of the size that the server expects of it.
pub expected_part_size-part_range :
    (size part_size count n : ℕ)
    → size ≤ u64_max
    → total_parts size part_size ≡ ok count
    → 0 < n
    → n ≤ count
    → expected_part_size size n part_size ≡ (part_range n part_size size).1
unfolding part_range expected_part_size
expected_part_size-part_range size p count n fits h first last =
    let starts = offset_lt size p count (total_parts-Covers size p count h) n first last in
    omega arith
