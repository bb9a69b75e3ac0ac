-- ===== src/Prelude.antt =====
-- The names that the other modules share: those of the libraries, and of the children.
pub mod Tests
pub mod Lists
pub mod Bag
pub mod Word
pub mod Text
pub mod Result
pub mod Throws
pub mod Steps
pub use Prim.Native.Nat.{ℕ, zero, suc, ◌+◌, ◌-◌, ◌*◌, ◌/◌, ◌%◌, ◌^◌, ◌≤◌, ◌<◌, min}
pub use mathlib.Core.Path.{◌≡◌, refl, sym, ap, subst, ◌∙◌}
pub use mathlib.Core.Logic.{◌≢◌, ◌↔◌, ◌⊎◌, inl, inr}
pub use mathlib.Core.Bool.{Bool, true, false, not, ◌&&◌, ◌||◌}
pub use mathlib.Core.Option.{Option, none, some}
pub use mathlib.Core.List.{List, [], ◌∷◌, ◌++◌, map}
pub use native.Mathlib.Omega.{arith}
pub use Tests.*
pub use Lists.*
pub use Bag.*
pub use Word.{u64_mod, sub64-eq-sub, add64-lt, sub64-lt, add64-mod, sub64-mod}
unfoldable pub use Tests.{eqb}
unfoldable pub use Word.{add64, sub64}
pub use Text.{codes}
