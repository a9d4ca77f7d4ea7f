-- ===== src/Base.antt =====
-- The names that the other modules share: the libraries', passed on, and those of the children.
mod Tests
mod Lists
mod Filters
mod Indexing
mod Text
mod Results
mod Utf8
mod Maps
mod Slices
unfoldable pub use Tests.*
unfoldable pub use Lists.*
unfoldable pub use Filters.*
unfoldable pub use Indexing.*
unfoldable pub use Text.*
unfoldable pub use Results.*
unfoldable pub use Utf8.*
unfoldable pub use Maps.*
unfoldable pub use Slices.*
pub use Prim.Native.Nat.{ℕ, zero, suc, ◌+◌, ◌-◌, ◌*◌, ◌/◌, ◌%◌, ◌^◌, ◌≤◌, ◌<◌, min, max}
pub use mathlib.Core.Path.{◌≡◌, refl, sym, ap, ◌∙◌, ◌≡⟨◌⟩◌, ◌∎}
pub use mathlib.Core.Logic.{◌≢◌, ◌↔◌, ◌⊎◌, inl, inr}
pub use mathlib.Core.Bool.{Bool, true, false, not, ◌&&◌, ◌||◌}
pub use mathlib.Core.Option.{Option, none, some}
pub use mathlib.Core.List.{List, [], ◌∷◌, ◌++◌, map, reverse, reverse-cons}
pub use native.Mathlib.Omega.{arith}

-- What a test of the other modules computes with: `unfolding text_runs`.
unfoldable pub text_runs : Unit {0}
unfolding str_eq str_lt split strip_prefix chars has_control is_utf8 contains set_insert to_set sort
    lookup has_key last_is split_once rsplit_once strip_suffix
text_runs = tt
