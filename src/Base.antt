-- ===== src/Base.antt =====
-- Names that all modules share: the libraries', passed on, Boolean tests, lists over the native
-- numbers, C memory as bounds-checked lists, and the integers of C `int` results.
mod Tests
mod Lists
mod Memory
mod ReadBack
mod Text
mod Int
mod Outcomes
pub use Tests.*
pub use Lists.*
unfoldable pub use Memory.*
pub use ReadBack.*
unfoldable pub use Text.*
pub use Int.*
pub use Outcomes.*
pub use Prim.Native.Nat.{ℕ, zero, suc, ◌+◌, ◌-◌, ◌*◌, ◌/◌, ◌%◌, ◌^◌, ◌≤◌, ◌<◌, min}
pub use Prim.Native.String.{String}
pub use mathlib.Core.Path.{◌≡◌, refl, sym, ap, ap₂, subst, ◌∙◌}
pub use mathlib.Core.Logic.{◌≢◌, ◌⊎◌, inl, inr}
pub use mathlib.Core.Bool.{Bool, true, false, not, ◌&&◌, ◌||◌}
pub use mathlib.Core.Option.{Option, none, some}
pub use mathlib.Core.List.{List, [], ◌∷◌, ◌++◌, map, append-nil, append_assoc}
pub use native.Mathlib.Omega.{arith}
