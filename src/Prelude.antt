-- ===== src/Prelude.antt =====
-- Names, tests and lemmas that every part of the development shares. No code of the
-- repository is modelled here: these are the library's names, passed on, Go's `error` values,
-- and the parts of Go's `strings` and `sort` packages that the code calls.
mod Tests
mod Lists
mod Results
mod Texts
mod Int
pub mod Decimal
pub mod Sorting
pub mod Run
pub mod Answers
pub mod Asked
pub mod TextOrder
pub mod Shuffled
pub mod Outcome
pub use Tests.*
unfoldable pub use Lists.*
pub use Results.*
unfoldable pub use Texts.*
pub use Int.*
pub use Prim.Native.Nat.{ℕ, zero, suc, ◌+◌, ◌-◌, ◌*◌, ◌/◌, ◌%◌, ◌^◌, ◌≤◌, ◌<◌, max}
pub use Prim.Native.String.{String}
pub use mathlib.Core.Path.{◌≡◌, refl, sym, ap, ◌∙◌, subst}
pub use mathlib.Core.Logic.{◌≢◌, ◌↔◌, ◌⊎◌, inl, inr}
pub use mathlib.Core.Bool.{Bool, true, false, ◌&&◌, ◌||◌, not}
pub use mathlib.Core.Option.{Option, none, some}
pub use mathlib.Core.List.{List, [], ◌∷◌, ◌++◌, map}
pub use text.Mathlib.Text.{◌==◌, starts_with}
pub use text.Mathlib.TextEquality.{eq_iff}
pub use text.Mathlib.TextPositions.{eq_refl}
pub use native.Mathlib.Omega.{arith}
