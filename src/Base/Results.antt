-- ===== src/Base/Results.antt =====
-- A computation that fails with a typed error.
use mathlib.Core.Path.{◌≡◌, refl}
use mathlib.Core.Bool.{Bool, true, false}
use mathlib.Core.Option.{Option, none, some}

pub data Result {ℓ κ} (A : Type ℓ) (E : Type κ) : Type (ℓ ⊔ κ) where
  ok : A → Result A E
  err : E → Result A E

abbrev pub ok_or {ℓ μ} : {A : Type ℓ} {E : Type μ} → Option A → E → Result A E
ok_or none e = err e
ok_or (some a) e = ok a

infixl 5 ◌>>=◌
abbrev pub ◌>>=◌ {ℓ κ μ} :
    {A : Type ℓ} {B : Type κ} {E : Type μ} → Result A E → (A → Result B E) → Result B E
err problem >>= next = err problem
ok value >>= next = next value

infixl 5 ◌>>◌
abbrev pub ◌>>◌ {ℓ μ} : {B : Type ℓ} {E : Type μ} → Result (Unit {0}) E → Result B E → Result B E
check >> rest = check >>= λ _. rest

abbrev pub guard {μ} : {E : Type μ} → Bool → E → Result (Unit {0}) E
guard false problem = err problem
guard true problem = ok tt

pub ok-injective {ℓ μ} :
    {A : Type ℓ} {E : Type μ} (a b : A) → ◌≡◌ {A = Result A E} (ok a) (ok b) → a ≡ b
ok-injective a b h = cc

-- What a chain that ends in `ok` has passed.
pub guard-eq-ok {μ} : {E : Type μ} (b : Bool) (e : E) → guard b e ≡ ok tt → b ≡ true
guard-eq-ok true e h = refl
guard-eq-ok false e h = absurd (cc)

pub ok_or-eq-ok {ℓ μ} :
    {A : Type ℓ} {E : Type μ} (o : Option A) (e : E) {a : A} → ok_or o e ≡ ok a → o ≡ some a
ok_or-eq-ok none e h = absurd (cc)
ok_or-eq-ok (some x) e h = cc

pub >>=-eq-ok {ℓ κ μ} :
    {V : Type ℓ} {W : Type κ} {E : Type μ} (first : Result V E) (next : V → Result W E) {last : W}
    → (first >>= next) ≡ ok last
    → (value : V) × (first ≡ ok value) × (next value ≡ ok last)
>>=-eq-ok (err problem) next stopped = absurd (cc)
>>=-eq-ok (ok value) next reached = (value, refl, reached)

pub >>-eq-ok {ℓ μ} :
    {W : Type ℓ} {E : Type μ} (check : Result (Unit {0}) E) (rest : Result W E) {last : W}
    → (check >> rest) ≡ ok last
    → (check ≡ ok tt) × (rest ≡ ok last)
>>-eq-ok (err problem) rest stopped = absurd (cc)
>>-eq-ok (ok tt) rest reached = (refl, reached)
