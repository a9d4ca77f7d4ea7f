-- ===== src/Sqlite/Inboxes/Rates.antt =====
-- The rate limit of an inbox: `crates/blobyard-repository-sqlite/src/inbox_rates.rs`.
pub mod Windows
pub mod Quota
mod Tests
use blobyard_core.Contract.{Repo, RepositoryError, invalid_input}
use blobyard_core.Sqlite.Database.{to_i64, i64_max}
use blobyard_core.Sqlite.Table.{find_row, update_row, find_row-append, find_row-update_row_self}
use blobyard_core.Sqlite.Transfers.Lifecycle.{to_i64-eq-ok}
use blobyard_core.Sqlite.Sharing.{validate_capability}
use blobyard_core.Base.{
  ℕ, zero, suc, ◌+◌, ◌-◌, ◌*◌, ◌/◌, ◌%◌, ◌^◌, ◌≤◌, ◌<◌, min, max, ◌≡◌, refl, sym, ap, ◌∙◌, ◌≡⟨◌⟩◌,
  ◌∎, ◌≢◌, ◌↔◌, ◌⊎◌, inl, inr, Bool, true, false, not, ◌&&◌, ◌||◌, Option, none, some, List, [],
  ◌∷◌, ◌++◌, map, reverse, reverse-cons, arith, ltb, leb, ◌==◌, if◌then◌else◌, ltb→lt, lt→ltb,
  leb→le, le→leb, ==_iff, tests, Bool-cases, Option-cases, length, is_empty, get_elem?, take, drop,
  all, any, keep, find?, place_by, order_by, length-append, All, Any, keep-keep-not, any-or,
  any-keep-not, any-implies, any-keep, find?-test, find?-keep, find?-append_last, keep_none,
  any_none, any-place_by, any-order_by, All-map, All-zip, All-of_any, any_of_All, All-of_append_map,
  keep_cong-All, keep_cong, any_cong, any_and, any-append, any-map, length-place_by,
  length-order_by, length-keep_images, length-drop, sum_by, sum_by-append, sum_by_zero, drop_elem,
  drop_end, get_elem?-lt, get_elem?-end, plus_one, plus_two, Str, lit, str_eq, str_eq_iff,
  str_eq_refl, str_lt, add_first, split, strip_prefix, is_digit, is_lower, is_upper, is_alphabetic,
  is_alphanumeric, Result, ok_or, ◌>>=◌, ◌>>◌, guard, ok-injective, guard-eq-ok, ok_or-eq-ok,
  >>=-eq-ok, >>-eq-ok, chars, is_control, is_whitespace, has_control, is_utf8, contains, set_insert,
  to_set, sort, lookup, has_key, contains-append, contains-reverse, contains-set_insert,
  contains-to_set, contains-sort, has_key_iff, has_key_of_lookup, has_key_of_none, first_is,
  last_is, split_once, rsplit_once, strip_suffix, starts_with, ends_with, is_some_and, is_none_or,
  one_of, ok, err, text_runs,
}

-- A row of `inbox_rate_limits`.
pub record RateRow : Type 0 where
  pub rate_key : Str
  pub window_started_at_ms : ℕ
  pub request_count : ℕ

pub data InboxRateResult : Type 0 where
  allowed : InboxRateResult
  limited : (retry_after_seconds : ℕ) → InboxRateResult

abbrev pub row_key : RateRow → Str
row_key r = r.rate_key

-- Both times are from 0 to the maximum, so that `now.saturating_sub(started)` is the difference,
-- which is negative where the clock has gone back.
abbrev pub in_window : ℕ → ℕ → RateRow → Bool
in_window now window r = ltb now (r.window_started_at_ms + window)

-- `started.saturating_add(window).saturating_sub(now)` of a row in its window, which is not
-- negative.
abbrev pub remaining_ms : ℕ → ℕ → RateRow → ℕ
remaining_ms now window r = min (r.window_started_at_ms + window) i64_max - now

abbrev pub counted : RateRow → RateRow
counted r = record r { request_count = r.request_count + 1 }

-- `Ok(Allowed)` whatever the number of rows that the update changes.
unfoldable pub consume_current :
    Str → ℕ → ℕ → ℕ → RateRow → List RateRow → InboxRateResult × List RateRow
consume_current key now window limit r rows =
    if leb limit r.request_count
    then (limited ((remaining_ms now window r + 999) / 1000), rows)
    else (allowed, (update_row row_key key (λ x. true) counted rows).1)

abbrev pub restarted : ℕ → RateRow → RateRow
restarted now r = record r { window_started_at_ms = now; request_count = 1 }

-- `INSERT … ON CONFLICT(rate_key) DO UPDATE`.
unfoldable pub reset : Str → ℕ → List RateRow → InboxRateResult × List RateRow
reset key now rows = elim (find_row row_key key rows) [
  | some _ ↦ (allowed, (update_row row_key key (λ x. true) (restarted now) rows).1)
  | none ↦ (
    allowed,
    rows ++ record { rate_key = key; window_started_at_ms = now; request_count = 1 } ∷ [],
  )
]

unfoldable pub consume_at : Str → ℕ → ℕ → ℕ → List RateRow → InboxRateResult × List RateRow
consume_at key now window limit rows = elim (find_row row_key key rows) [
  | some r ↦
      if in_window now window r
      then consume_current key now window limit r rows
      else reset key now rows
  | none ↦ reset key now rows
]

unfoldable pub consume_rate : Str → ℕ → ℕ → ℕ → List RateRow → Repo (InboxRateResult × List RateRow)
consume_rate key window_ms limit now_ms rows = do
  guard (not (window_ms == 0 || limit == 0)) invalid_input
  validate_capability key
  now ← to_i64 now_ms
  window ← to_i64 window_ms
  ok (consume_at key now window limit rows)
