-- ===== src/Base/Slices.antt =====
-- The methods of `str` that the source calls on ASCII delimiters.
use Prim.Native.Nat.{ℕ}
use mathlib.Core.Bool.{Bool, true, false}
use mathlib.Core.Option
use mathlib.Core.Option.{Option, none, some}
use mathlib.Core.List.{List, [], ◌∷◌, reverse}
use blobyard_core.Base.Tests.{◌==◌, if◌then◌else◌}
use blobyard_core.Base.Lists.{any}
use blobyard_core.Base.Text.{Str, str_eq, strip_prefix}

-- `as_bytes()[0]`, and the last byte, under a test; the callers have ruled the empty text out.
abbrev pub first_is : (ℕ → Bool) → Str → Bool
first_is p [] = false
first_is p (x ∷ xs) = p x

unfoldable pub last_is : (ℕ → Bool) → Str → Bool
last_is p [] = false
last_is p (x ∷ []) = p x
last_is p (x ∷ y ∷ s) = last_is p (y ∷ s)

-- `split_once(c)`: around the first `c`.
unfoldable pub split_once : ℕ → Str → Option (Str × Str)
split_once c [] = none
split_once c (x ∷ s) =
    if x == c then some ([], s) else Option.map (λ p. (x ∷ p.0, p.1)) (split_once c s)

-- `rsplit_once(c)`: around the last `c`.
unfoldable pub rsplit_once : ℕ → Str → Option (Str × Str)
unfolding split_once
rsplit_once c s = Option.map (λ p. (reverse p.1, reverse p.0)) (split_once c (reverse s))

unfoldable pub strip_suffix : Str → Str → Option Str
unfolding strip_prefix
strip_suffix p s = Option.map reverse (strip_prefix (reverse p) (reverse s))

abbrev pub starts_with : Str → Str → Bool
starts_with p s = elim (strip_prefix p s) [ some r ↦ true | none ↦ false ]

abbrev pub ends_with : Str → Str → Bool
ends_with p s = elim (strip_suffix p s) [ some r ↦ true | none ↦ false ]

-- Whether an option holds a value that passes a test: `is_some_and`.
abbrev pub is_some_and {ℓ} : {A : Type ℓ} → Option A → (A → Bool) → Bool
is_some_and none p = false
is_some_and (some a) p = p a

abbrev pub is_none_or {ℓ} : {A : Type ℓ} → Option A → (A → Bool) → Bool
is_none_or none p = true
is_none_or (some a) p = p a

-- The text of a list of alternatives: `matches!(value, "a" | "b")`.
abbrev pub one_of : List Str → Str → Bool
one_of names s = any (str_eq s) names
