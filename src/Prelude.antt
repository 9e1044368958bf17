-- ===== src/Prelude.antt =====
-- Names that all modules share: the libraries' names, passed on, and those of the children.
mod Tests
mod Integers
mod Lists
mod Sorting
mod Split
mod Strings
pub use Tests.*
pub use Integers.*
unfoldable pub use Sorting.*
pub use Lists.*
unfoldable pub use Split.*
unfoldable pub use Strings.*
pub use Prim.Native.Nat.{Ordering, ℕ, zero, suc, ◌+◌, ◌-◌, ◌*◌, ◌/◌, ◌%◌, ◌^◌, ◌≤◌, ◌<◌}
pub use mathlib.Core.Path.{◌≡◌, refl, sym, ap, subst, ◌∙◌}
pub use mathlib.Core.Logic.{◌≢◌, ◌↔◌, ◌⊎◌, inl, inr}
pub use mathlib.Core.Bool.{Bool, true, false, not, ◌&&◌, ◌||◌}
pub use mathlib.Core.Option.{Option, none, some}
pub use mathlib.Core.List.{List, [], ◌∷◌, ◌++◌, map, append-nil, append_assoc, Perm}
pub use native.Mathlib.Omega.{arith}
