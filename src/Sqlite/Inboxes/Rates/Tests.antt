-- ===== src/Sqlite/Inboxes/Rates/Tests.antt =====
-- Runs of `crates/blobyard-repository-sqlite/src/inbox_rates.rs` on one key.
use blobyard_core.Contract.{invalid_input, checksum_valid}
use blobyard_core.Sqlite.Database.{to_i64}
use blobyard_core.Sqlite.Table.{find_row, update_row}
use blobyard_core.Sqlite.Sharing.{validate_capability}
use blobyard_core.Sqlite.Transfers.Tests.{digest}
use blobyard_core.Sqlite.Inboxes.Rates.{
  RateRow, allowed, limited, consume_current, reset, consume_at, consume_rate,
}
use blobyard_core.Sqlite.Inboxes.Rates.Windows.{consume_rate-retry}
use blobyard_core.Sqlite.Inboxes.Rates.Quota.{admitted, admitted-le-limit}
use blobyard_core.Base.{max, ℕ, ◌+◌, ◌≤◌, ◌≡◌, refl, List, [], ◌∷◌, arith, ok, err, text_runs}

unfoldable rate_runs : Unit {0}
unfolding text_runs checksum_valid to_i64 find_row update_row validate_capability consume_current
    reset consume_at consume_rate
rate_runs = tt

abbrev counts : ℕ → ℕ → RateRow
counts started n = record { rate_key = digest; window_started_at_ms = started; request_count = n }

run_first : consume_rate digest 60000 2 1000 [] ≡ ok (allowed, counts 1000 1 ∷ [])
unfolding rate_runs
run_first = refl

run_limited :
    consume_rate digest 60000 2 1500 (counts 1000 2 ∷ []) ≡ ok (limited 60, counts 1000 2 ∷ [])
unfolding rate_runs
run_limited = refl

run_no_window : consume_rate digest 0 2 1500 [] ≡ err invalid_input
unfolding rate_runs
run_no_window = refl

-- A clock that has gone back stays in the window.
run_back : consume_rate digest 60000 2 500 (counts 1000 1 ∷ []) ≡ ok (allowed, counts 1000 2 ∷ [])
unfolding rate_runs
run_back = refl

consume_rate-retry_example :
    (after : List RateRow) × (consume_rate digest 60000 2 61500 (counts 1000 2 ∷ [])
      ≡ ok (allowed, after))
consume_rate-retry_example =
    consume_rate-retry digest 60000 2 1500 60 (counts 1000 2 ∷ []) (counts 1000 2 ∷ []) 61500
      run_limited (omega arith) (omega arith)

admitted-le-limit_example :
    1 + admitted digest 60000 2 (1500 ∷ 2000 ∷ 3000 ∷ []) (counts 1000 1 ∷ []) ≤ max 2 1
unfolding rate_runs
admitted-le-limit_example =
    admitted-le-limit digest 60000 2 (1500 ∷ 2000 ∷ 3000 ∷ []) (counts 1000 1 ∷ []) (counts 1000 1)
      refl (refl, (refl, (refl, tt)))
