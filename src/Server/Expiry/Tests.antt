-- ===== src/Server/Expiry/Tests.antt =====
-- Runs of `crates/blobyard-server/src/expiry.rs`.
use blobyard_core.Sqlite.Transfers.Multipart.{u64_max}
use blobyard_core.Server.Expiry.{
  invalid_request, panicked, split_last, digits_value, parse_duration, bounded_expiry,
}
use blobyard_core.Server.Expiry.Lifetime.{IsSpan, bounded_expiry-IsSpan, bounded_expiry-lt}
use blobyard_core.Base.{ℕ, ◌+◌, ◌≤◌, ◌<◌, ◌≡◌, refl, ◌↔◌, some, [], ◌∷◌, lit, ok, err}

two_days : bounded_expiry 1000 (some (lit "2d")) 5 700000000 ≡ ok 172801000
unfolding bounded_expiry parse_duration split_last digits_value
two_days = refl

leading_zero : bounded_expiry 1000 (some (lit "02d")) 5 700000000 ≡ err invalid_request
unfolding bounded_expiry parse_duration split_last digits_value
leading_zero = refl

bounded_expiry-IsSpan_example :
    (bounded_expiry 1000 (some (lit "2d")) 5 700000000 ≡ ok 172801000) ↔ (
      (span : ℕ) × IsSpan (some (lit "2d")) 5 span
      × (span ≤ 700000000)
      × (172801000 ≡ 1000 + span)
      × (172801000 ≤ u64_max))
bounded_expiry-IsSpan_example = bounded_expiry-IsSpan 1000 (some (lit "2d")) 5 700000000 172801000

bounded_expiry-lt_example : 1000 < 172801000
bounded_expiry-lt_example = bounded_expiry-lt 1000 (lit "2d") 5 700000000 172801000 two_days

-- `1é`: no place before its last byte is a character boundary.
within_character : bounded_expiry 1000 (some (0x31 ∷ 0xc3 ∷ 0xa9 ∷ [])) 5 700000000 ≡ err panicked
unfolding bounded_expiry parse_duration split_last digits_value
within_character = refl
