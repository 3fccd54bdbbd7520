-- ===== src/Prelude.antt =====
-- The names that the modules share: the libraries', passed on, Boolean tests and conditionals, and
-- the list and text helpers. The children hold dictionaries keyed by texts, and integers.
mod Tests
mod Lists
mod Texts
mod Listed
pub mod Dict
pub mod Int
pub use Tests.*
pub use Lists.*
pub use Texts.*
pub use Listed.*
pub use Prim.Native.Nat.{ℕ, zero, suc}
pub use Prim.Native.String.{String, ◌++◌ as str_append}
pub use mathlib.Core.Path.{◌≡◌, refl, sym, ap, ◌∙◌, subst}
pub use mathlib.Core.Logic.{◌≢◌, ◌↔◌, ◌⊎◌, inl, inr}
pub use mathlib.Core.Bool.{Bool, true, false, not, ◌&&◌, ◌||◌}
pub use mathlib.Core.Option.{Option, none, some}
pub use mathlib.Core.List.{List, [], ◌∷◌, ◌++◌, map}
pub use native.Mathlib.Omega.{arith}
pub use text.Mathlib.Text.{◌==◌ as str_eq}
pub use text.Mathlib.TextEquality.{eq_iff}
