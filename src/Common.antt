-- ===== src/Common.antt =====
-- What every component shares: the libraries' names passed on, Boolean tests, lists measured by
-- native numbers, text as code points, and the exceptions of the Python code as a result type.
mod Tests
mod Every
mod Lists
mod Relations
mod Text
mod Integers
mod Exceptions
mod Scanning
mod Search
mod Lines
unfoldable pub use Tests.*
unfoldable pub use Every.*
pub use Lists.*
pub use Relations.*
unfoldable pub use Text.*
pub use Integers.*
pub use Exceptions.*
pub use Scanning.*
pub use Search.*
unfoldable pub use Lines.*
pub use Prim.Native.Nat.{ℕ, zero, suc, ◌+◌, ◌-◌, ◌*◌, ◌/◌, ◌%◌, ◌^◌, ◌≤◌, ◌<◌, min}
pub use mathlib.Core.Path.{◌≡◌, refl, sym, ap, ◌∙◌}
pub use mathlib.Core.Logic.{◌≢◌, ◌↔◌, ◌⊎◌, inl, inr}
pub use mathlib.Core.Bool.{Bool, true, false, not, ◌&&◌, ◌||◌}
pub use mathlib.Core.Option.{Option, none, some}
pub use mathlib.Core.List.{List, [], ◌∷◌, ◌++◌, map, reverse, append_assoc, append-nil}
pub use native.Mathlib.Omega.{arith}
