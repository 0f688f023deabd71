-- ===== src/Base.antt =====
-- The names that the other modules share: library names, passed on, and the helpers of the modules
-- below: tests, lists, integers of 64 bits, texts as bytes, and Go's maps.
pub mod Tests
pub mod Lists
pub mod Int
pub mod Bytes
pub mod Trim
pub mod Strconv
pub mod Dict
pub mod Float
pub mod Sums
unfoldable pub use Tests.*
unfoldable pub use Lists.*
unfoldable pub use Int.*
unfoldable pub use Bytes.*
unfoldable pub use Trim.*
unfoldable pub use Strconv.*
unfoldable pub use Dict.*
unfoldable pub use Float.*
unfoldable pub use Sums.*
pub use Prim.Native.Nat.{ℕ, zero, suc, ◌+◌, ◌-◌, ◌*◌, ◌/◌, ◌%◌, ◌^◌, ◌≤◌, ◌<◌}
pub use mathlib.Core.Path.{◌≡◌, refl, sym, ap, ◌∙◌, subst}
pub use mathlib.Core.Logic.{◌≢◌, ◌↔◌, ◌⊎◌, inl, inr}
pub use mathlib.Core.Bool.{Bool, true, false, not, ◌&&◌, ◌||◌}
pub use mathlib.Core.Option.{Option, none, some}
pub use mathlib.Core.List.{List, [], ◌∷◌, ◌++◌, map}
pub use native.Mathlib.Omega.{arith}
