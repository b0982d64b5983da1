-- ===== src/Base.antt =====
-- The names that every module shares: the libraries', passed on, and those of the children below
-- (tests on numbers, lists over the native numbers, sets of chunk offsets, results).
mod Tests
mod Lists
mod Sets
mod Counting
mod Outcome
mod Serialiser
unfoldable pub use Tests.*
pub use Lists.*
pub use Sets.*
pub use Counting.*
pub use Outcome.*
pub use Serialiser.*
pub use Prim.Native.Nat.{ℕ, zero, suc, ◌+◌, ◌-◌, ◌*◌, ◌/◌, ◌%◌, ◌^◌, ◌≤◌, ◌<◌, min}
pub use Prim.Native.String.{String}
pub use mathlib.Core.Path.{◌≡◌, refl, sym, ap, ◌∙◌, subst}
pub use mathlib.Core.Logic.{◌≢◌, ◌↔◌, ◌⊎◌, inl, inr}
pub use mathlib.Core.Bool.{Bool, true, false, not, ◌&&◌, ◌||◌}
pub use mathlib.Core.Option.{Option, none, some}
pub use mathlib.Core.List.{List, [], ◌∷◌, ◌++◌, map, append-nil, append_assoc}
pub use native.Mathlib.Omega.{arith}
pub use text.Mathlib.Text.{◌==◌ as str_eq}
pub use text.Mathlib.TextEquality.{eq_iff}
pub use text.Mathlib.TextPositions.{eq_refl}
unfoldable pub use native.Mathlib.Decide.{dec_lt, dec_le, ℕ_discrete}
