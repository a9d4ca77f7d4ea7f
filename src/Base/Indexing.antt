-- ===== src/Base/Indexing.antt =====
-- The items of a list by their places.
use Prim.Native.Nat.{ℕ, zero, suc, ◌+◌, ◌≤◌, ◌<◌}
use mathlib.Core.Path.{◌≡◌, refl, ap}
use mathlib.Core.Option.{none, some}
use mathlib.Core.List.{List, [], ◌∷◌}
use native.Mathlib.Omega.{arith}
use blobyard_core.Base.Lists.{length, get_elem?, drop}

module _ {ℓ} {A : Type ℓ} where
  pub drop_elem :
      (xs : List A) (n : ℕ) (x : A) → get_elem? xs n ≡ some x → drop n xs ≡ x ∷ drop (suc n) xs
  drop_elem [] n x h = absurd (cc)
  drop_elem (y ∷ ys) zero x h = let e : y ≡ x = cc in ap (λ z. z ∷ ys) e
  drop_elem (y ∷ ys) (suc n) x h = drop_elem ys n x h

  pub drop_end : (xs : List A) (n : ℕ) → get_elem? xs n ≡ none → drop n xs ≡ []
  drop_end [] zero h = refl
  drop_end [] (suc n) h = refl
  drop_end (y ∷ ys) zero h = absurd (cc)
  drop_end (y ∷ ys) (suc n) h = drop_end ys n h

  pub get_elem?-lt : (xs : List A) (n : ℕ) (x : A) → get_elem? xs n ≡ some x → n < length xs
  get_elem?-lt [] n x h = absurd (cc)
  get_elem?-lt (y ∷ ys) zero x h = omega arith
  get_elem?-lt (y ∷ ys) (suc n) x h = omega (arith, get_elem?-lt ys n x h)

  pub get_elem?-end : (xs : List A) (n : ℕ) → get_elem? xs n ≡ none → length xs ≤ n
  get_elem?-end [] n h = omega arith
  get_elem?-end (y ∷ ys) zero h = absurd (cc)
  get_elem?-end (y ∷ ys) (suc n) h = omega (arith, get_elem?-end ys n h)

pub plus_one : (n : ℕ) → n + 1 ≡ suc n
plus_one n = omega arith

pub plus_two : (n : ℕ) → n + 2 ≡ suc (suc n)
plus_two n = omega arith
