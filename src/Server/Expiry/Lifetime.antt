-- ===== src/Server/Expiry/Lifetime.antt =====
-- Which expiry times `crates/blobyard-server/src/expiry.rs` grants.
use blobyard_core.Sqlite.Transfers.Multipart.{u64_max}
use native.Mathlib.Nat.{mul-le-mul_left}
use blobyard_core.Server.Expiry.{
  invalid_request, panicked, split_last, is_continuation, digits_value, checked, multiplier,
  amount_valid, parse_duration, lifetime, bounded_expiry,
}
use blobyard_core.Server.Expiry.Duration.{
  decimal, IsDuration, digits_value-zero, amount_valid_iff, multiplier-IsUnit, IsUnit-multiplier,
}
use blobyard_core.Base.{
  ℕ, ◌+◌, ◌-◌, ◌*◌, ◌≤◌, ◌<◌, ◌≡◌, refl, sym, ap, ◌∙◌, ◌↔◌, inl, inr, true, false, not, Option,
  none, some, [], ◌∷◌, ◌++◌, arith, leb, ◌==◌, leb→le, le→leb, Option-cases, Str, is_digit, ok_or,
  guard, ok-injective, guard-eq-ok, ok_or-eq-ok, >>=-eq-ok, >>-eq-ok, ok,
}

split_last-snoc : (s : Str) (b : ℕ) → split_last (s ++ b ∷ []) ≡ some (s, b)
unfolding split_last
split_last-snoc [] b = refl
split_last-snoc (c ∷ []) b = refl
split_last-snoc (c ∷ d ∷ s) b = rw (split_last-snoc (d ∷ s) b)

some-injective {ℓ} : {A : Type ℓ} (a b : A) → ◌≡◌ {A = Option A} (some a) (some b) → a ≡ b
some-injective a b h = cc

split_last-eq-some :
    (s front : Str) (last : ℕ) → split_last s ≡ some (front, last) → s ≡ front ++ last ∷ []
unfolding split_last
split_last-eq-some [] front last h = absurd (cc)
split_last-eq-some (b ∷ []) front last h =
    let same : ◌≡◌ {A = Str × ℕ} ([], b) (front, last) = some-injective _ _ h in
    ap (λ (p : Str × ℕ). p.0 ++ p.1 ∷ []) same
split_last-eq-some (b ∷ c ∷ s) front last h = elim (Option-cases (split_last (c ∷ s))) [
  | inl e ↦
      let bad : ◌≡◌ {A = Option (Str × ℕ)} none (some (front, last)) = rw e at h in absurd (cc)
  | inr ((f, l), e) ↦
      let found : some (b ∷ f, l) ≡ some (front, last) = rw e at h in
      let same : ◌≡◌ {A = Str × ℕ} (b ∷ f, l) (front, last) = some-injective _ _ found in
      ap (λ t. b ∷ t) (split_last-eq-some (c ∷ s) f l e)
      ∙ ap (λ (p : Str × ℕ). p.0 ++ p.1 ∷ []) same
]

digits_value-le : (acc : ℕ) (s : Str) → acc ≤ digits_value acc s
unfolding digits_value
digits_value-le acc [] = omega arith
digits_value-le acc (b ∷ s) = omega (arith, digits_value-le (acc * 10 + (b - b'0')) s)

amount_positive : (s : Str) → amount_valid s ≡ true → 0 < digits_value 0 s
unfolding digits_value
amount_positive [] h = absurd (cc)
amount_positive (b ∷ s) h =
    let low = digits_value-le (0 * 10 + (b - b'0')) s in
    let digit : is_digit b ≡ true = ground arith in
    let first : (b == b'0') ≡ false = ground arith in ground arith

checked-eq-ok : (n m : ℕ) → checked n ≡ ok m → (m ≡ n) × (n ≤ u64_max)
checked-eq-ok n m h = (ground arith, ground arith)

checked_fits : (n : ℕ) → n ≤ u64_max → checked n ≡ ok n
checked_fits n fits = ground arith

-- A unit is a letter, and stands for some time.
unit_known :
    (unit factor : ℕ) → multiplier unit ≡ ok factor → (is_continuation unit ≡ false) × (0 < factor)
unit_known unit factor h = (ground arith, ground arith)

parse_duration-IsDuration :
    (value : Str) (span : ℕ)
    → parse_duration value ≡ ok span
    → IsDuration value span × (span ≤ u64_max)
unfolding parse_duration
parse_duration-IsDuration value span h =
    let ((amount, unit), parted, h1) = >>=-eq-ok (ok_or (split_last value) invalid_request) _ h in
    let (whole, h2) = >>-eq-ok (guard (not (is_continuation unit)) panicked) _ h1 in
    let (valid, h3) = >>-eq-ok (guard (amount_valid amount) invalid_request) _ h2 in
    let (number, counted, h4) = >>=-eq-ok (checked (digits_value 0 amount)) _ h3 in
    let (factor, scaled, h5) = >>=-eq-ok (multiplier unit) _ h4 in
    let (same, fits) = checked-eq-ok (number * factor) span h5 in
    let number' : number ≡ digits_value 0 amount =
      (checked-eq-ok (digits_value 0 amount) number counted).0 in
    (
      record {
        amount = amount;
        unit = unit;
        factor = factor;
        written =
            split_last-eq-some value amount unit
              (ok_or-eq-ok (split_last value) invalid_request parted);
        counted =
            (amount_valid_iff amount).0 (guard-eq-ok (amount_valid amount) invalid_request valid);
        scaled = multiplier-IsUnit unit factor scaled;
        spans = same ∙ ap (λ n. n * factor) (number' ∙ digits_value-zero amount);
      },
      rw (sym same) at fits,
    )

IsDuration-parse_duration :
    (value : Str) (span : ℕ)
    → IsDuration value span
    → span ≤ u64_max
    → parse_duration value ≡ ok span
unfolding parse_duration
IsDuration-parse_duration value span d fits =
    let scaled = IsUnit-multiplier d.unit d.factor d.scaled in
    let valid = (amount_valid_iff d.amount).1 d.counted in
    let (letter, positive) = unit_known d.unit d.factor scaled in
    let number = digits_value 0 d.amount in
    let low : number * 1 ≤ number * d.factor = mul-le-mul_left number positive in
    let e : span ≡ number * d.factor =
      d.spans ∙ ap (λ n. n * d.factor) (sym (digits_value-zero d.amount)) in
    let product : number * d.factor ≤ u64_max = omega arith in
    let small : number ≤ u64_max = omega arith in
    rw (d.written, split_last-snoc, letter, valid, checked_fits number small, scaled, e)
      (checked_fits (number * d.factor) product)

-- How long a request may last: as it says, or by default.
abbrev pub IsSpan : Option Str → ℕ → ℕ → Type 0
IsSpan none default_ms span = span ≡ default_ms
IsSpan (some value) default_ms span = IsDuration value span

lifetime-IsSpan :
    (duration : Option Str) (default_ms span : ℕ)
    → lifetime duration default_ms ≡ ok span
    → IsSpan duration default_ms span
lifetime-IsSpan none default_ms span h = sym (ok-injective _ _ h)
lifetime-IsSpan (some value) default_ms span h = (parse_duration-IsDuration value span h).0

IsSpan-lifetime :
    (duration : Option Str) (default_ms span : ℕ)
    → IsSpan duration default_ms span
    → span ≤ u64_max
    → lifetime duration default_ms ≡ ok span
IsSpan-lifetime none default_ms span h fits = rw h
IsSpan-lifetime (some value) default_ms span d fits = IsDuration-parse_duration value span d fits

-- An expiry time is granted exactly where it is the time now and a lifetime, the default one or the
-- one that the request gives, that is not over the maximum, and where it is in the range of `u64`.
-- A request gives a lifetime as a decimal number, without a leading zero, and a letter: `d`, `h`, `m`
-- or `s`, which stand for 86400000, 3600000, 60000 and 1000 milliseconds.
pub bounded_expiry-IsSpan :
    (now : ℕ) (duration : Option Str) (default_ms maximum_ms expiry : ℕ)
    → (bounded_expiry now duration default_ms maximum_ms ≡ ok expiry) ↔ (
        (span : ℕ) × IsSpan duration default_ms span
        × (span ≤ maximum_ms)
        × (expiry ≡ now + span)
        × (expiry ≤ u64_max))
unfolding bounded_expiry
bounded_expiry-IsSpan now duration default_ms maximum_ms expiry = (
  λ h.
      let (span, said, h1) = >>=-eq-ok (lifetime duration default_ms) _ h in
      let (short, h2) = >>-eq-ok (guard (leb span maximum_ms) invalid_request) _ h1 in
      let (same, fits) = checked-eq-ok (now + span) expiry h2 in
      let within = guard-eq-ok (leb span maximum_ms) invalid_request short in
      (
        span,
        lifetime-IsSpan duration default_ms span said,
        leb→le span maximum_ms within,
        same,
        rw (sym same) at fits,
      ),
  λ (span, said, within, same, fits).
      rw
        (
          IsSpan-lifetime duration default_ms span said (omega arith),
          le→leb span maximum_ms within,
          same,
        )
        (checked_fits (now + span) (omega arith)),
)

-- An expiry time that is granted for a lifetime which the request gives lies after the time now.
pub bounded_expiry-lt :
    (now : ℕ) (value : Str) (default_ms maximum_ms expiry : ℕ)
    → bounded_expiry now (some value) default_ms maximum_ms ≡ ok expiry
    → now < expiry
bounded_expiry-lt now value default_ms maximum_ms expiry h =
    let (span, d, within, same, fits) =
      (bounded_expiry-IsSpan now (some value) default_ms maximum_ms expiry).0 h in
    let (letter, positive) =
      unit_known d.unit d.factor (IsUnit-multiplier d.unit d.factor d.scaled) in
    let some_amount : 0 < decimal d.amount =
      rw (digits_value-zero d.amount) at
        (amount_positive d.amount ((amount_valid_iff d.amount).1 d.counted)) in
    let product : decimal d.amount * 1 ≤ decimal d.amount * d.factor =
      mul-le-mul_left (decimal d.amount) positive in
    let e = d.spans in omega arith
