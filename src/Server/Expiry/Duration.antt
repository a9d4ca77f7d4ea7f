-- ===== src/Server/Expiry/Duration.antt =====
-- What a duration means that `crates/blobyard-server/src/expiry.rs` parses.
use native.Mathlib.Nat.{mul_assoc, add-mul, add_assoc, zero-mul, pow-succ'}
use blobyard_core.Server.Expiry.{digits_value, multiplier, amount_valid}
use blobyard_core.Base.{
  ℕ, ◌+◌, ◌-◌, ◌*◌, ◌^◌, ◌≤◌, ◌≡◌, refl, sym, ap, ◌∙◌, ◌↔◌, inl, inr, true, [], ◌∷◌, ◌++◌, arith,
  ◌==◌, Bool-cases, length, all, All, Str, is_digit, ok,
}

-- What a number of decimal digits stands for: each digit by its place.
abbrev pub decimal : Str → ℕ
decimal [] = 0
decimal (b ∷ s) = (b - b'0') * 10 ^ length s + decimal s

-- Decimal digits, at least one, of which the first is not a zero.
abbrev pub IsAmount : Str → Type 0
IsAmount [] = ⊥
IsAmount (b ∷ s) = ((b'1' ≤ b) × (b ≤ b'9')) × All (λ (d : ℕ). (b'0' ≤ d) × (d ≤ b'9')) s

-- The letters of days, hours, minutes and seconds, with their lengths in milliseconds.
pub data IsUnit (unit factor : ℕ) : Type 0 where
  days : unit ≡ b'd' → factor ≡ 86400000 → IsUnit unit factor
  hours : unit ≡ b'h' → factor ≡ 3600000 → IsUnit unit factor
  minutes : unit ≡ b'm' → factor ≡ 60000 → IsUnit unit factor
  seconds : unit ≡ b's' → factor ≡ 1000 → IsUnit unit factor

-- A text that says how long: an amount without a leading zero, and a unit.
pub record IsDuration (value : Str) (span : ℕ) : Type 0 where
  pub amount : Str
  pub unit : ℕ
  pub factor : ℕ
  pub written : value ≡ amount ++ unit ∷ []
  pub counted : IsAmount amount
  pub scaled : IsUnit unit factor
  pub spans : span ≡ decimal amount * factor

digits_value-decimal : (acc : ℕ) (s : Str) → digits_value acc s ≡ acc * 10 ^ length s + decimal s
unfolding digits_value
digits_value-decimal acc [] = omega arith
digits_value-decimal acc (b ∷ s) =
    let d = b - b'0' in
    let p = 10 ^ length s in
    let shifted : acc * 10 * p ≡ acc * 10 ^ length (b ∷ s) =
      mul_assoc acc 10 p ∙ ap (λ k. acc * k) (sym (pow-succ' 10 (length s))) in
    digits_value-decimal (acc * 10 + d) s
    ∙ ap (λ k. k + decimal s) (add-mul (acc * 10) d p ∙ ap (λ k. k + d * p) shifted)
    ∙ add_assoc (acc * 10 ^ length (b ∷ s)) (d * p) (decimal s)

pub digits_value-zero : (s : Str) → digits_value 0 s ≡ decimal s
digits_value-zero s = digits_value-decimal 0 s ∙ omega (arith, zero-mul (10 ^ length s))

digits_All : (s : Str) → (all is_digit s ≡ true) ↔ All (λ (d : ℕ). (b'0' ≤ d) × (d ≤ b'9')) s
digits_All [] = (λ h. tt, λ h. refl)
digits_All (b ∷ s) =
    let (there, back) = digits_All s in
    (
      λ h. ((ground arith, ground arith), there (ground arith)),
      λ ((low, high), rest). let r = back rest in ground arith,
    )

pub amount_valid_iff : (s : Str) → (amount_valid s ≡ true) ↔ IsAmount s
amount_valid_iff [] = (λ h. absurd (cc), λ h. absurd h)
amount_valid_iff (b ∷ s) =
    let (there, back) = digits_All s in
    (
      λ h. ((ground arith, ground arith), there (ground arith)),
      λ ((low, high), rest). let r = back rest in ground arith,
    )

pub multiplier-IsUnit : (unit factor : ℕ) → multiplier unit ≡ ok factor → IsUnit unit factor
multiplier-IsUnit unit factor h = elim (Bool-cases (unit == b'd')) [
  | inl d ↦ days (ground arith) (ground arith)
  | inr not_d ↦ elim (Bool-cases (unit == b'h')) [
    | inl u ↦ hours (ground arith) (ground arith)
    | inr not_h ↦ elim (Bool-cases (unit == b'm')) [
      | inl m ↦ minutes (ground arith) (ground arith)
      | inr not_m ↦ seconds (ground arith) (ground arith)
    ]
  ]
]

pub IsUnit-multiplier : (unit factor : ℕ) → IsUnit unit factor → multiplier unit ≡ ok factor
IsUnit-multiplier unit factor (days u f) = rw (u, f) refl
IsUnit-multiplier unit factor (hours u f) = rw (u, f) refl
IsUnit-multiplier unit factor (minutes u f) = rw (u, f) refl
IsUnit-multiplier unit factor (seconds u f) = rw (u, f) refl
