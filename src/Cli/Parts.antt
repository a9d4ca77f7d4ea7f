-- ===== src/Cli/Parts.antt =====
-- The parts of a file and the resume state: `crates/blobyard-cli/src/runner/transfers/upload_math.rs`
-- and `resume.rs`. Sizes are `u64` and part numbers `u32`; an `i..=j` is a list. The map from part
-- numbers to tags is a list in ascending order of its keys.
pub mod Tiling
pub mod Progress
pub mod Tests
use blobyard_core.Sqlite.Transfers.Multipart.{u64_max}
use blobyard_core.Contract.{div_ceil}
use blobyard_core.Base.{
  ℕ, zero, suc, ◌+◌, ◌-◌, ◌*◌, ◌/◌, ◌%◌, ◌^◌, ◌≤◌, ◌<◌, min, max, ◌≡◌, refl, sym, ap, ◌∙◌, ◌≡⟨◌⟩◌,
  ◌∎, ◌≢◌, ◌↔◌, ◌⊎◌, inl, inr, Bool, true, false, not, ◌&&◌, ◌||◌, Option, none, some, List, [],
  ◌∷◌, ◌++◌, map, reverse, reverse-cons, arith, ltb, leb, ◌==◌, if◌then◌else◌, ltb→lt, lt→ltb,
  leb→le, le→leb, ==_iff, tests, Bool-cases, Option-cases, length, is_empty, get_elem?, take, drop,
  all, any, keep, find?, length-append, All, Any, Str, lit, str_eq, str_eq_iff, str_eq_refl, str_lt,
  add_first, split, strip_prefix, is_digit, is_lower, is_upper, is_alphabetic, is_alphanumeric,
  Result, ◌>>=◌, ◌>>◌, guard, ok_or, >>=-eq-ok, >>-eq-ok, guard-eq-ok, ok_or-eq-ok, ok-injective,
  chars, is_control, is_whitespace, has_control, is_utf8, contains, set_insert, to_set, sort,
  lookup, has_key, contains-append, contains-reverse, contains-set_insert, contains-to_set,
  contains-sort, has_key_iff, has_key_of_lookup, has_key_of_none, first_is, last_is, split_once,
  rsplit_once, strip_suffix, starts_with, ends_with, is_some_and, is_none_or, one_of, ok, err,
  text_runs,
}

-- `contract_error()`.
pub data ContractError : Type 0 where
  provider_unavailable : ContractError

abbrev pub max_parts : ℕ
max_parts = 10000

abbrev pub min_part_size : ℕ
min_part_size = 8 * 1024 * 1024

-- The last step keeps the four low bytes of the count.
unfoldable pub total_parts : ℕ → ℕ → Result ℕ ContractError
total_parts size part_size = do
  guard (not (ltb part_size min_part_size)) provider_unavailable
  let count = div_ceil size part_size
  guard (not (count == 0 || ltb max_parts count)) provider_unavailable
  ok (count % 2 ^ 32)

-- The differences and the product are those of `u64`, where they do not leave it.
unfoldable pub part_range : ℕ → ℕ → ℕ → ℕ × ℕ
part_range part_number part_size total_size =
    let offset = (part_number - 1) * part_size in (offset, min (total_size - offset) part_size)

pub record ResumeState : Type 0 where
  pub upload_id : Str
  pub source_fingerprint : Str
  pub part_size_bytes : ℕ
  pub completed_etags : List (ℕ × Str)

abbrev pub new_state : Str → Str → ℕ → ResumeState
new_state upload_id fingerprint part_size = record {
  upload_id = upload_id;
  source_fingerprint = fingerprint;
  part_size_bytes = part_size;
  completed_etags = [];
}

abbrev pub matches : Str → ResumeState → Bool
matches fingerprint state = str_eq state.source_fingerprint fingerprint

unfoldable pub is_completed : ℕ → List (ℕ × Str) → Bool
is_completed n [] = false
is_completed n ((k, tag) ∷ etags) = k == n || is_completed n etags

unfoldable pub retain_server_parts : List ℕ → ResumeState → ResumeState
retain_server_parts server_parts state = record state {
  completed_etags = keep (λ (e : ℕ × Str). any (λ p. p == e.0) server_parts) state.completed_etags;
}

-- The insertion of a `BTreeMap`: an equal key takes the new tag.
unfoldable pub put_etag : ℕ → Str → List (ℕ × Str) → List (ℕ × Str)
put_etag n tag [] = (n, tag) ∷ []
put_etag n tag ((k, old) ∷ etags) =
    let rest = put_etag n tag etags in
    if k == n
    then (n, tag) ∷ etags
    else if ltb n k
    then (n, tag) ∷ (k, old) ∷ etags
    else (k, old) ∷ rest

unfoldable pub record_etag : ℕ → Str → ResumeState → ResumeState
record_etag n tag state = record state { completed_etags = put_etag n tag state.completed_etags }

-- `1..=total_parts`.
unfoldable pub one_to : ℕ → List ℕ
one_to zero = []
one_to (suc n) = one_to n ++ suc n ∷ []

unfoldable pub pending : ℕ → ResumeState → List ℕ
pending total state = keep (λ n. not (is_completed n state.completed_etags)) (one_to total)

-- `saturating_sub` stops at zero as `-` does.
unfoldable pub part_bytes : ℕ → ℕ → ℕ → ℕ
part_bytes size part_size n =
    let offset = min ((n - 1) * part_size) u64_max in min (size - offset) part_size

-- `fold` with `saturating_add`.
unfoldable pub add_bytes : ℕ → ℕ → ℕ → List (ℕ × Str) → ℕ
add_bytes size part_size total [] = total
add_bytes size part_size total ((n, tag) ∷ etags) =
    add_bytes size part_size (min (total + part_bytes size part_size n) u64_max) etags

unfoldable pub completed_bytes : ℕ → ResumeState → ℕ
completed_bytes size state = add_bytes size state.part_size_bytes 0 state.completed_etags
