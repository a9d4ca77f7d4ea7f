-- ===== src/Sqlite/Inboxes/Rates/Quota.antt =====
-- The requests that one window admits: `crates/blobyard-repository-sqlite/src/inbox_rates.rs`.
use mathlib.Core.Path.{subst}
use blobyard_core.Contract.{Repo}
use blobyard_core.Sqlite.Table.{find_row, find_row-update_row_self}
use blobyard_core.Sqlite.Inboxes.Rates.{
  RateRow, InboxRateResult, allowed, limited, row_key, in_window, counted, consume_current,
  consume_at, consume_rate,
}
use blobyard_core.Sqlite.Inboxes.Rates.Windows.{consume_rate-eq-ok}
use blobyard_core.Base.{
  max, ℕ, ◌+◌, ◌≤◌, ◌≡◌, refl, sym, ◌∙◌, inl, inr, true, some, List, [], ◌∷◌, arith, ltb, leb,
  Bool-cases, All, Str, ok, err,
}

-- Whether a request is admitted, and the rows after it.
abbrev pub outcome : List RateRow → Repo (InboxRateResult × List RateRow) → ℕ × List RateRow
outcome rows (err e) = (0, rows)
outcome rows (ok (allowed, rows')) = (1, rows')
outcome rows (ok (limited s, rows')) = (0, rows')

-- How many of the requests of a key at some times, one after the other, are admitted.
abbrev pub admitted : Str → ℕ → ℕ → List ℕ → List RateRow → ℕ
admitted key window limit [] rows = 0
admitted key window limit (now ∷ times) rows =
    let o = outcome rows (consume_rate key window limit now rows) in
    o.0 + admitted key window limit times o.1

-- One request of a row that is in its window: the row counts it if it is admitted, up to the limit.
record IsCounted (key : Str) (limit : ℕ) (r : RateRow) (o : ℕ × List RateRow) : Type 0 where
  after : RateRow
  found : find_row row_key key o.1 ≡ some after
  started : after.window_started_at_ms ≡ r.window_started_at_ms
  count : after.request_count ≡ o.0 + r.request_count
  bound : after.request_count ≤ max limit r.request_count

module _ (key : Str) (window limit now : ℕ) (rows : List RateRow) (r : RateRow)
    (found : find_row row_key key rows ≡ some r) (inside : in_window now window r ≡ true) where
  IsCounted-same : IsCounted key limit r (0, rows)
  IsCounted-same = record {
    after = r;
    found = found;
    started = refl;
    count = omega arith;
    bound = omega arith;
  }

  IsCounted-consume_at :
      IsCounted key limit r (outcome rows (ok (consume_at key now window limit rows)))
  unfolding consume_at consume_current
  IsCounted-consume_at = elim (Bool-cases (leb limit r.request_count)) [
    | inl full ↦ rw (found, consume_at, inside, consume_current, full) IsCounted-same
    | inr room ↦
        rw (found, consume_at, inside, consume_current, room)
          (record {
            after = counted r;
            found =
                find_row-update_row_self row_key key (λ x. true) counted rows (λ x. refl)
                ∙ rw found refl;
            started = refl;
            count = omega arith;
            bound = ground arith;
          })
  ]

  IsCounted-consume_rate :
      (x : Repo (InboxRateResult × List RateRow))
      → consume_rate key window limit now rows ≡ x
      → IsCounted key limit r (outcome rows x)
  IsCounted-consume_rate (err e) h = IsCounted-same
  IsCounted-consume_rate (ok p) h =
      let (_, _, _, at) = consume_rate-eq-ok key window limit now rows p h in
      subst (λ q. IsCounted key limit r (outcome rows (ok q))) at IsCounted-consume_at

-- The requests of a key that a row counts in its window, all under one limit: what has been counted
-- before, and what is admitted of the requests that come until the window ends, is together at
-- most the limit, or what has been counted before where that is more, in which case no further
-- request is admitted.
pub admitted-le-limit :
    (key : Str) (window limit : ℕ) (times : List ℕ) (rows : List RateRow) (r : RateRow)
    → find_row row_key key rows ≡ some r
    → All (λ now. in_window now window r ≡ true) times
    → r.request_count + admitted key window limit times rows ≤ max limit r.request_count
admitted-le-limit key window limit [] rows r found inside = omega arith
admitted-le-limit key window limit (now ∷ times) rows r found (here, inside) =
    let c =
      IsCounted-consume_rate key window limit now rows r found here
        (consume_rate key window limit now rows) refl in
    let o = outcome rows (consume_rate key window limit now rows) in
    let inside' : All (λ t. in_window t window c.after ≡ true) times =
      subst (λ n. All (λ t. ltb t (n + window) ≡ true) times) (sym c.started) inside in
    let rest = admitted-le-limit key window limit times o.1 c.after c.found inside' in
    let upper = c.bound in let counts = c.count in omega arith
