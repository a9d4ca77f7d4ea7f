-- ===== src/Sqlite/Inboxes/Rates/Windows.antt =====
-- Waiting for a rate limit, and the requests of one window:
-- `crates/blobyard-repository-sqlite/src/inbox_rates.rs`.
use blobyard_core.Contract.{RepositoryError, invalid_input}
use blobyard_core.Sqlite.Database.{to_i64, i64_max}
use blobyard_core.Sqlite.Table.{find_row, update_row}
use blobyard_core.Sqlite.Transfers.Lifecycle.{to_i64-eq-ok}
use blobyard_core.Sqlite.Sharing.{validate_capability}
use blobyard_core.Sqlite.Inboxes.Rates.{
  RateRow, InboxRateResult, allowed, limited, row_key, in_window, remaining_ms, counted,
  consume_current, reset, consume_at, consume_rate,
}
use blobyard_core.Base.{
  ℕ, ◌+◌, ◌*◌, ◌/◌, ◌≤◌, ◌<◌, ◌≡◌, sym, ap, ◌∙◌, inl, inr, true, false, not, ◌||◌, some, List,
  arith, leb, ◌==◌, le→leb, Bool-cases, Option-cases, Str, guard, ok-injective, >>=-eq-ok, >>-eq-ok,
  ok,
}

to_i64_ok : (n : ℕ) → n ≤ i64_max → to_i64 n ≡ ok n
unfolding to_i64
to_i64_ok n h = let e : leb n i64_max ≡ true = le→leb n i64_max h in rw e

reset-allowed : (key : Str) (now : ℕ) (rows : List RateRow) → (reset key now rows).0 ≡ allowed
unfolding reset
reset-allowed key now rows = elim (Option-cases (find_row row_key key rows)) [
  | inl missing ↦ rw (missing, reset)
  | inr (r, found) ↦ rw (found, reset)
]

-- What a request that is answered has passed, and its answer.
pub consume_rate-eq-ok :
    (key : Str) (window limit now : ℕ) (rows : List RateRow) (p : InboxRateResult × List RateRow)
    → consume_rate key window limit now rows ≡ ok p
    → (guard {E = RepositoryError} (not (window == 0 || limit == 0)) invalid_input ≡ ok tt)
      × (validate_capability key ≡ ok tt)
      × (to_i64 window ≡ ok window)
      × (consume_at key now window limit rows ≡ p)
unfolding consume_rate
consume_rate-eq-ok key window limit now rows p h =
    let (g, h1) = >>-eq-ok (guard (not (window == 0 || limit == 0)) invalid_input) _ h in
    let (v, h2) = >>-eq-ok (validate_capability key) _ h1 in
    let (n, fits, h3) = >>=-eq-ok (to_i64 now) _ h2 in
    let (w, sized, h4) = >>=-eq-ok (to_i64 window) _ h3 in
    let same = to_i64-eq-ok now n fits in
    let same_w = to_i64-eq-ok window w sized in
    (
      g,
      v,
      sized ∙ ap ok same_w,
      ap (λ k. consume_at key k window limit rows) (sym same)
          ∙ ap (λ k. consume_at key n k limit rows) (sym same_w)
          ∙ ok-injective _ p h4,
    )

-- A limited answer is that of a row in its window, which has reached the limit.
consume_at-limited :
    (key : Str) (window limit now s : ℕ) (rows rows' : List RateRow)
    → consume_at key now window limit rows ≡ (limited s, rows')
    → (r : RateRow) × (find_row row_key key rows ≡ some r)
      × (rows' ≡ rows)
      × (s ≡ (remaining_ms now window r + 999) / 1000)
unfolding consume_at consume_current
consume_at-limited key window limit now s rows rows' h =
    let Answer = InboxRateResult × List RateRow in
    let restarts : ◌≡◌ {A = Answer} (reset key now rows) (limited s, rows') → ⊥ = λ e.
      let bad : allowed ≡ limited s =
        sym (reset-allowed key now rows) ∙ ap (λ (p : Answer). p.0) e in
      cc in
    elim (Option-cases (find_row row_key key rows)) [
      | inl missing ↦ absurd (restarts (rw (missing, consume_at) at h))
      | inr (r, found) ↦ elim (Bool-cases (in_window now window r)) [
        | inr out ↦ absurd (restarts (rw (found, consume_at, out) at h))
        | inl inside ↦ elim (Bool-cases (leb limit r.request_count)) [
          | inl full ↦
              let e : ◌≡◌ {A = Answer} (limited ((remaining_ms now window r + 999) / 1000), rows)
                  (limited s, rows') =
                rw (found, consume_at, inside, consume_current, full) at h in
              (r, found, ap (λ (p : Answer). p.1) (sym e), let l = ap (λ (p : Answer). p.0) e in cc)
          | inr room ↦
              let e : ◌≡◌ {A = Answer}
                  (allowed, (update_row row_key key (λ x. true) counted rows).1)
                  (limited s, rows') =
                rw (found, consume_at, inside, consume_current, room) at h in
              absurd (let l = ap (λ (p : Answer). p.0) e in cc)
        ]
      ]
    ]

-- The first moment that a limited answer names is late enough: a request of the same key and
-- window is then allowed, unless that moment is the last that the database can hold.
pub consume_rate-retry :
    (key : Str) (window limit now s : ℕ) (rows rows' : List RateRow) (later : ℕ)
    → consume_rate key window limit now rows ≡ ok (limited s, rows')
    → now + s * 1000 ≤ later
    → later < i64_max
    → (after : List RateRow) × (consume_rate key window limit later rows' ≡ ok (allowed, after))
unfolding consume_rate consume_at
consume_rate-retry key window limit now s rows rows' later h waited fits =
    let (g, v, w, at) = consume_rate-eq-ok key window limit now rows (limited s, rows') h in
    let (r, found, same, wait) = consume_at-limited key window limit now s rows rows' at in
    let past : in_window later window r ≡ false = ground arith in
    let t = to_i64_ok later (omega arith) in
    let found' = ap (find_row row_key key) same ∙ found in
    let answer : consume_at key later window limit rows' ≡ reset key later rows' =
      rw (found', consume_at, past) in
    (
      (reset key later rows').1,
      rw (g, v, t, w, answer, consume_rate)
          (ap (λ a. ok (a, (reset key later rows').1)) (reset-allowed key later rows')),
    )
