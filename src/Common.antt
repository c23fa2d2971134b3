-- ===== src/Common.antt =====
-- The names that the other modules share: those of the libraries, passed on, and three children
-- with Boolean tests, list predicates and the parts of Go's `strings` and `fmt` that are used.
mod Tests
mod Lists
pub mod Text
pub mod Result
pub mod Outcome
pub mod Orders
pub use Tests.*
pub use Lists.*
pub use Prim.Native.Nat.{ℕ, zero, suc, ◌+◌, ◌-◌, ◌*◌, ◌≤◌, ◌<◌}
pub use Prim.Native.String.{String}
pub use mathlib.Core.Path.{◌≡◌, refl, sym, ap, ◌∙◌}
pub use mathlib.Core.Logic.{◌≢◌, ◌↔◌, ◌⊎◌, inl, inr}
pub use mathlib.Core.Bool.{Bool, true, false, not, ◌&&◌, ◌||◌}
pub use mathlib.Core.Option.{Option, none, some}
pub use mathlib.Core.List.{List, [], ◌∷◌, ◌++◌, map}
use mathlib.Core.List.{append_assoc, append-nil}
pub use native.Mathlib.Omega.{arith}
pub use text.Mathlib.Text.{◌==◌}
pub use text.Mathlib.TextEquality.{eq_iff}
pub use text.Mathlib.TextPositions.{eq_refl}

-- Equality of texts for `grind`, and lists put together for `simp`.
pub ruleset text_laws = (arith, eq_iff)

pub ruleset list_laws = (append_assoc, append-nil)
