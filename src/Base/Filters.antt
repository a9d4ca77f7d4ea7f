-- ===== src/Base/Filters.antt =====
-- Searches and filters of lists, alone and one after the other.
use Prim.Native.Nat.{◌+◌, ℕ, zero, suc, ◌≤◌}
use mathlib.Core.Path.{◌≡◌, refl, ap, ◌∙◌}
use mathlib.Core.Bool.{Bool, true, false, not, ◌&&◌, ◌||◌}
use mathlib.Core.Option.{none, some}
use mathlib.Core.List.{List, [], ◌∷◌, ◌++◌, map}
use native.Mathlib.Omega.{arith}
use blobyard_core.Base.Lists.{All, length, drop, any, keep, find?, place_by, order_by}

module _ {ℓ} {A : Type ℓ} where
  -- Two filters of removals, and searches under them.
  pub keep-keep-not :
      (p q : A → Bool) (xs : List A)
      → keep (λ x. not (q x)) (keep (λ x. not (p x)) xs) ≡ keep (λ x. not (p x || q x)) xs
  keep-keep-not p q [] = refl
  keep-keep-not p q (x ∷ xs) = ground (arith, keep-keep-not p q xs)

  pub any-or :
      (p q t : A → Bool) (xs : List A)
      → any (λ x. (p x || q x) && t x) xs
        ≡ (any (λ x. p x && t x) xs || any (λ x. q x && t x) (keep (λ x. not (p x)) xs))
  any-or p q t [] = refl
  any-or p q t (x ∷ xs) = ground (arith, any-or p q t xs)

  pub any-keep-not :
      (p t : A → Bool) (xs : List A)
      → ((x : A) → t x ≡ true → p x ≡ true)
      → any t (keep (λ x. not (p x)) xs) ≡ false
  any-keep-not p t [] implies = refl
  any-keep-not p t (x ∷ xs) implies = ground (arith, any-keep-not p t xs implies, implies x)

  pub any-implies :
      (p q : A → Bool) (xs : List A)
      → ((x : A) → p x ≡ true → q x ≡ true)
      → any p xs ≡ true
      → any q xs ≡ true
  any-implies p q [] implies h = absurd (cc)
  any-implies p q (x ∷ xs) implies h = ground (arith, any-implies p q xs implies, implies x)

  pub any-keep : (p q : A → Bool) (xs : List A) → any p (keep q xs) ≡ any (λ x. q x && p x) xs
  any-keep p q [] = refl
  any-keep p q (x ∷ xs) = ground (arith, any-keep p q xs)

  pub find?-test : (p : A → Bool) (xs : List A) (x : A) → find? p xs ≡ some x → p x ≡ true
  find?-test p [] x h = absurd (cc)
  find?-test p (y ∷ xs) x h = ground (arith, find?-test p xs x)

  pub find?-keep :
      (p q : A → Bool) (xs : List A) (x : A)
      → find? p xs ≡ some x
      → q x ≡ true
      → find? p (keep q xs) ≡ some x
  find?-keep p q [] x h kept = absurd (cc)
  find?-keep p q (y ∷ xs) x h kept = ground (arith, find?-keep p q xs x)

  pub find?-append_last :
      (p : A → Bool) (xs : List A) (x : A)
      → find? p xs ≡ none
      → p x ≡ true
      → find? p (xs ++ x ∷ []) ≡ some x
  find?-append_last p [] x absent passes = rw passes
  find?-append_last p (y ∷ xs) x absent passes = ground (arith, find?-append_last p xs x)

  pub keep_none : (xs : List A) → keep (λ x. true) xs ≡ xs
  keep_none [] = refl
  keep_none (x ∷ xs) = ap (λ ys. x ∷ ys) (keep_none xs)

  pub any_none : (t : A → Bool) (xs : List A) → any (λ x. false && t x) xs ≡ false
  any_none t [] = refl
  any_none t (x ∷ xs) = any_none t xs

  pub any-place_by :
      (p : A → Bool) (before : A → A → Bool) (x : A) (xs : List A)
      → any p (place_by before x xs) ≡ (p x || any p xs)
  any-place_by p before x [] = refl
  any-place_by p before x (y ∷ ys) = ground (arith, any-place_by p before x ys)

  pub any-order_by :
      (p : A → Bool) (before : A → A → Bool) (xs : List A) → any p (order_by before xs) ≡ any p xs
  any-order_by p before [] = refl
  any-order_by p before (x ∷ xs) =
      ground (arith, any-place_by p before x (order_by before xs), any-order_by p before xs)

pub All-map {ℓ κ μ} :
    {A : Type ℓ} {P : A → Type κ} {Q : A → Type μ} (xs : List A)
    → ((x : A) → P x → Q x)
    → All P xs
    → All Q xs
All-map [] f all_p = tt
All-map (x ∷ xs) f (p, ps) = (f x p, All-map xs f ps)

pub All-zip {ℓ κ μ} :
    {A : Type ℓ} (P : A → Type κ) (Q : A → Type μ) (xs : List A)
    → All P xs
    → All Q xs
    → All (λ x. P x × Q x) xs
All-zip P Q [] all_p all_q = tt
All-zip P Q (x ∷ xs) (p, ps) (q, qs) = ((p, q), All-zip P Q xs ps qs)

pub All-of_any {ℓ} :
    {A : Type ℓ} (t : A → Bool) (xs : List A) → any t xs ≡ false → All (λ x. t x ≡ false) xs
All-of_any t [] h = tt
All-of_any t (x ∷ xs) h = (ground arith, All-of_any t xs (ground arith))

pub any_of_All {ℓ} :
    {A : Type ℓ} (t : A → Bool) (xs : List A) → All (λ x. t x ≡ false) xs → any t xs ≡ false
any_of_All t [] h = refl
any_of_All t (x ∷ xs) (e, h) = ground (arith, any_of_All t xs h)

-- What holds of a list and of the images of another holds of the other by its images.
pub All-of_append_map {ℓ κ μ} :
    {A : Type ℓ} {B : Type κ} (P : B → Type μ) (f : A → B) (xs : List B) (ys : List A)
    → All P (xs ++ map f ys)
    → All (λ y. P (f y)) ys
All-of_append_map P f [] [] h = tt
All-of_append_map P f [] (y ∷ ys) (p, h) = (p, All-of_append_map P f [] ys h)
All-of_append_map P f (x ∷ xs) ys (p, h) = All-of_append_map P f xs ys h

pub keep_cong-All {ℓ} :
    {A : Type ℓ} (p q : A → Bool) (xs : List A) → All (λ x. p x ≡ q x) xs → keep p xs ≡ keep q xs
keep_cong-All p q [] same = refl
keep_cong-All p q (x ∷ xs) (e, same) = ground (arith, keep_cong-All p q xs same)

pub keep_cong {ℓ} :
    {A : Type ℓ} (p q : A → Bool) (xs : List A) → ((x : A) → p x ≡ q x) → keep p xs ≡ keep q xs
keep_cong p q [] same = refl
keep_cong p q (x ∷ xs) same = ground (arith, keep_cong p q xs same, same x)

pub any_cong {ℓ} :
    {A : Type ℓ} (p q : A → Bool) (xs : List A) → ((x : A) → p x ≡ q x) → any p xs ≡ any q xs
any_cong p q [] same = refl
any_cong p q (x ∷ xs) same = ground (arith, any_cong p q xs same, same x)

pub any_and {ℓ} :
    {A : Type ℓ} (p q : A → Bool) (xs : List A)
    → any p xs ≡ false
    → any (λ x. p x && q x) xs ≡ false
any_and p q [] h = refl
any_and p q (x ∷ xs) h = ground (arith, any_and p q xs)

pub any-append {ℓ} :
    {A : Type ℓ} (t : A → Bool) (xs ys : List A) → any t (xs ++ ys) ≡ (any t xs || any t ys)
any-append t [] ys = refl
any-append t (x ∷ xs) ys = ground (arith, any-append t xs ys)

pub any-map {ℓ κ} :
    {A : Type ℓ} {B : Type κ} (t : B → Bool) (f : A → B) (xs : List A)
    → any t (map f xs) ≡ any (λ x. t (f x)) xs
any-map t f [] = refl
any-map t f (x ∷ xs) = ap (λ b. t (f x) || b) (any-map t f xs)

pub length-place_by {ℓ} :
    {A : Type ℓ} (before : A → A → Bool) (x : A) (xs : List A)
    → length (place_by before x xs) ≡ suc (length xs)
length-place_by before x [] = refl
length-place_by before x (y ∷ ys) = ground (arith, length-place_by before x ys)

pub length-order_by {ℓ} :
    {A : Type ℓ} (before : A → A → Bool) (xs : List A) → length (order_by before xs) ≡ length xs
length-order_by before [] = refl
length-order_by before (x ∷ xs) =
    length-place_by before x (order_by before xs) ∙ ap suc (length-order_by before xs)

-- How many items of a list pass a test: none of the first part, and all images of the second.
pub length-keep_images {ℓ κ} :
    {A : Type ℓ} {B : Type κ} (t : B → Bool) (f : A → B) (xs : List B) (ys : List A)
    → any t xs ≡ false
    → ((y : A) → t (f y) ≡ true)
    → length (keep t (xs ++ map f ys)) ≡ length ys
length-keep_images t f [] [] none_before own = refl
length-keep_images t f [] (y ∷ ys) none_before own =
    ground (arith, own y, length-keep_images t f [] ys none_before own)
length-keep_images t f (x ∷ xs) ys none_before own =
    ground (arith, length-keep_images t f xs ys (ground arith) own)

pub length-drop {ℓ} : {A : Type ℓ} (n : ℕ) (xs : List A) → length (drop n xs) ≤ length xs
length-drop zero xs = omega arith
length-drop (suc n) [] = omega arith
length-drop (suc n) (x ∷ xs) = omega (arith, length-drop n xs)

-- The sum of a weight over a list.
abbrev pub sum_by {ℓ} : {A : Type ℓ} → (A → ℕ) → List A → ℕ
sum_by w [] = 0
sum_by w (x ∷ xs) = w x + sum_by w xs

pub sum_by-append {ℓ} :
    {A : Type ℓ} (w : A → ℕ) (xs ys : List A) → sum_by w (xs ++ ys) ≡ sum_by w xs + sum_by w ys
sum_by-append w [] ys = omega arith
sum_by-append w (x ∷ xs) ys = omega (arith, sum_by-append w xs ys)

pub sum_by_zero {ℓ} :
    {A : Type ℓ} (t : A → Bool) (w : A → ℕ) (xs : List A)
    → any t xs ≡ false
    → ((x : A) → t x ≡ false → w x ≡ 0)
    → sum_by w xs ≡ 0
sum_by_zero t w [] h zero_weight = refl
sum_by_zero t w (x ∷ xs) h zero_weight =
    let rest = sum_by_zero t w xs (ground arith) zero_weight in
    let first = zero_weight x (ground arith) in omega arith
