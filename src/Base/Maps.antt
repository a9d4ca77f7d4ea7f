-- ===== src/Base/Maps.antt =====
-- `BTreeSet<String>` is the ascending list of its items, and `BTreeMap<String, V>` a list of
-- entries in the order of their keys.
use mathlib.Core.Path.{◌≡◌, refl, ap}
use mathlib.Core.Logic.{inl, inr}
use mathlib.Core.Bool.{Bool, true, false, ◌||◌}
use mathlib.Core.Option.{Option, none, some}
use mathlib.Core.List.{List, [], ◌∷◌, ◌++◌, reverse, reverse-cons}
use native.Mathlib.Omega.{arith}
use blobyard_core.Base.Tests.{if◌then◌else◌, Bool-cases}
use blobyard_core.Base.Text.{Str, str_eq, str_eq_iff, str_lt}

unfoldable pub contains : Str → List Str → Bool
contains x [] = false
contains x (y ∷ ys) = str_eq x y || contains x ys

-- `BTreeSet::insert`, whose answer is `not (contains x s)`.
unfoldable pub set_insert : Str → List Str → List Str
set_insert x [] = x ∷ []
set_insert x (y ∷ ys) =
    if str_eq x y then y ∷ ys else if str_lt x y then x ∷ y ∷ ys else y ∷ set_insert x ys

-- `collect::<BTreeSet<_>>`.
unfoldable pub to_set : List Str → List Str
to_set [] = []
to_set (x ∷ xs) = set_insert x (to_set xs)

place : Str → List Str → List Str
place y [] = y ∷ []
place y (z ∷ zs) = if str_lt z y then z ∷ place y zs else y ∷ z ∷ zs

-- `Vec::sort` on texts: the ascending rearrangement, which is unique for a total order.
unfoldable pub sort : List Str → List Str
unfolding place
sort [] = []
sort (x ∷ xs) = place x (sort xs)

unfoldable pub lookup {ℓ} : {V : Type ℓ} → Str → List (Str × V) → Option V
lookup k [] = none
lookup k ((j, v) ∷ m) = if str_eq k j then some v else lookup k m

unfoldable pub has_key {ℓ} : {V : Type ℓ} → Str → List (Str × V) → Bool
has_key k [] = false
has_key k ((j, v) ∷ m) = str_eq k j || has_key k m

pub contains-append :
    (x : Str) (ys zs : List Str) → contains x (ys ++ zs) ≡ (contains x ys || contains x zs)
unfolding contains
contains-append x [] zs = refl
contains-append x (y ∷ ys) zs = ground (arith, contains-append x ys zs)

pub contains-reverse : (x : Str) (ys : List Str) → contains x (reverse ys) ≡ contains x ys
unfolding contains
contains-reverse x [] = refl
contains-reverse x (y ∷ ys) = ground (
  arith,
  ap (contains x) (reverse-cons y ys),
  contains-append x (reverse ys) (y ∷ []),
  contains-reverse x ys,
)

pub contains-set_insert :
    (x y : Str) (s : List Str) → contains x (set_insert y s) ≡ (str_eq x y || contains x s)
unfolding contains set_insert
contains-set_insert x y [] = refl
contains-set_insert x y (z ∷ s) =
    ground (arith, contains-set_insert x y s, str_eq_iff y z, str_eq_iff x z, str_eq_iff x y)

pub contains-to_set : (x : Str) (ys : List Str) → contains x (to_set ys) ≡ contains x ys
unfolding contains to_set
contains-to_set x [] = refl
contains-to_set x (y ∷ ys) =
    ground (arith, contains-set_insert x y (to_set ys), contains-to_set x ys)

contains-place :
    (x y : Str) (ys : List Str) → contains x (place y ys) ≡ (str_eq x y || contains x ys)
unfolding contains place
contains-place x y [] = refl
contains-place x y (z ∷ ys) = ground (arith, contains-place x y ys)

pub contains-sort : (x : Str) (ys : List Str) → contains x (sort ys) ≡ contains x ys
unfolding contains sort
contains-sort x [] = refl
contains-sort x (y ∷ ys) = ground (arith, contains-place x y (sort ys), contains-sort x ys)

pub has_key_iff {ℓ} :
    {V : Type ℓ} (k : Str) (m : List (Str × V))
    → has_key k m ≡ true
    → (v : V) × (lookup k m ≡ some v)
unfolding has_key lookup
has_key_iff k [] h = absurd (cc)
has_key_iff k ((j, v) ∷ m) h = elim (Bool-cases (str_eq k j)) [
  | inl e ↦ (v, rw e)
  | inr e ↦ let (w, p) = has_key_iff k m (ground arith) in (w, rw e p)
]

pub has_key_of_lookup {ℓ} :
    {V : Type ℓ} (k : Str) (m : List (Str × V)) (v : V) → lookup k m ≡ some v → has_key k m ≡ true
unfolding has_key lookup
has_key_of_lookup k [] v h = absurd (cc)
has_key_of_lookup k ((j, w) ∷ m) v h = elim (Bool-cases (str_eq k j)) [
  | inl e ↦ rw e
  | inr e ↦ rw e (has_key_of_lookup k m v (rw e at h))
]

pub has_key_of_none {ℓ} :
    {V : Type ℓ} (k : Str) (m : List (Str × V)) → lookup k m ≡ none → has_key k m ≡ false
unfolding has_key lookup
has_key_of_none k [] h = refl
has_key_of_none k ((j, w) ∷ m) h = elim (Bool-cases (str_eq k j)) [
  | inl e ↦ absurd (let bad : some w ≡ none = rw e at h in cc)
  | inr e ↦ rw e (has_key_of_none k m (rw e at h))
]
