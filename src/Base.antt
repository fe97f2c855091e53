-- ===== src/Base.antt =====
-- Shared names: the libraries', passed on, the Boolean tests on numbers and texts, and the
-- dictionaries and sets that the components keep.
mod Tests
mod Lists
mod Dicts
mod Text
mod Keyed
pub use Tests.*
unfoldable pub use Text.*
unfoldable pub use Keyed.*
pub use Lists.*
unfoldable pub use Dicts.*
pub use Prim.Native.Nat.{ℕ, zero, suc, ◌+◌, ◌-◌, ◌*◌, ◌/◌, ◌%◌, ◌^◌, ◌≤◌, ◌<◌, min, max}
pub use Prim.Native.String.{String}
pub use mathlib.Core.Path.{◌≡◌, refl, sym, ap, ◌∙◌, subst}
pub use mathlib.Core.Logic.{◌≢◌, ◌↔◌, ◌⊎◌, inl, inr}
pub use mathlib.Core.Bool.{Bool, true, false, not, ◌&&◌, ◌||◌}
pub use mathlib.Core.Option.{Option, none, some}
pub use mathlib.Core.List.{List, [], ◌∷◌, ◌++◌}
pub use mathlib.Core.List.{map}
pub use native.Mathlib.Omega.{arith}
