-- ===== src/Server/Expiry.antt =====
-- The lifetime of a share, an inbox or a preview: `crates/blobyard-server/src/expiry.rs`. The panic
-- of `split_at` within a character is a result of its own.
pub mod Duration
pub mod Lifetime
pub mod Tests
use blobyard_core.Sqlite.Transfers.Multipart.{u64_max}
use blobyard_core.Base.{
  ℕ, zero, suc, ◌+◌, ◌-◌, ◌*◌, ◌/◌, ◌%◌, ◌^◌, ◌≤◌, ◌<◌, min, max, ◌≡◌, refl, sym, ap, ◌∙◌, ◌≡⟨◌⟩◌,
  ◌∎, ◌≢◌, ◌↔◌, ◌⊎◌, inl, inr, Bool, true, false, not, ◌&&◌, ◌||◌, Option, none, some, List, [],
  ◌∷◌, ◌++◌, map, reverse, reverse-cons, arith, ltb, leb, ◌==◌, if◌then◌else◌, ltb→lt, lt→ltb,
  leb→le, le→leb, ==_iff, tests, Bool-cases, Option-cases, length, is_empty, get_elem?, take, drop,
  all, any, keep, find?, length-append, All, Any, Str, lit, str_eq, str_eq_iff, str_eq_refl, str_lt,
  add_first, split, strip_prefix, is_digit, is_lower, is_upper, is_alphabetic, is_alphanumeric,
  Result, ok_or, ◌>>=◌, ◌>>◌, guard, ok-injective, guard-eq-ok, ok_or-eq-ok, >>=-eq-ok, >>-eq-ok,
  chars, is_control, is_whitespace, has_control, is_utf8, contains, set_insert, to_set, sort,
  lookup, has_key, contains-append, contains-reverse, contains-set_insert, contains-to_set,
  contains-sort, has_key_iff, has_key_of_lookup, has_key_of_none, first_is, last_is, split_once,
  rsplit_once, strip_suffix, starts_with, ends_with, is_some_and, is_none_or, one_of, ok, err,
  text_runs,
}

pub data Failure : Type 0 where
  invalid_request panicked : Failure

-- `split_at(len - 1)`, and `none` where there is no byte.
unfoldable pub split_last : Str → Option (Str × ℕ)
split_last [] = none
split_last (b ∷ []) = some ([], b)
split_last (b ∷ c ∷ s) = elim (split_last (c ∷ s)) [
  | none ↦ none
  | some (front, last) ↦ some (b ∷ front, last)
]

-- A byte that goes on a character: no place before it is a character boundary.
abbrev pub is_continuation : ℕ → Bool
is_continuation b = leb 0x80 b && ltb b 0xc0

-- The value of decimal digits.
unfoldable pub digits_value : ℕ → Str → ℕ
digits_value acc [] = acc
digits_value acc (b ∷ s) = digits_value (acc * 10 + (b - b'0')) s

abbrev pub checked : ℕ → Result ℕ Failure
checked n = if leb n u64_max then ok n else err invalid_request

abbrev pub multiplier : ℕ → Result ℕ Failure
multiplier unit =
    if unit == b'd'
    then ok (24 * 60 * 60 * 1000)
    else if unit == b'h'
    then ok (60 * 60 * 1000)
    else if unit == b'm'
    then ok (60 * 1000)
    else if unit == b's'
    then ok 1000
    else err invalid_request

abbrev pub amount_valid : Str → Bool
amount_valid amount =
    not (is_empty amount) && all is_digit amount && not (first_is (λ b. b == b'0') amount)

unfoldable pub parse_duration : Str → Result ℕ Failure
parse_duration value = do
  (amount, unit) ← ok_or (split_last value) invalid_request
  guard (not (is_continuation unit)) panicked
  guard (amount_valid amount) invalid_request
  number ← checked (digits_value 0 amount)
  factor ← multiplier unit
  checked (number * factor)

abbrev pub lifetime : Option Str → ℕ → Result ℕ Failure
lifetime none default_ms = ok default_ms
lifetime (some value) default_ms = parse_duration value

unfoldable pub bounded_expiry : ℕ → Option Str → ℕ → ℕ → Result ℕ Failure
bounded_expiry now duration default_ms maximum_ms = do
  span ← lifetime duration default_ms
  guard (leb span maximum_ms) invalid_request
  checked (now + span)
