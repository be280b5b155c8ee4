-- ===== src/Base.antt =====
-- Shared names: the libraries' names passed on, Boolean tests, lists over the native numbers,
-- results with errors, and signed integers for Go's `int` where a value may be negative.
mod Tests
mod Lists
mod Results
mod Text
pub mod Int
pub use Tests.*
pub use Lists.*
pub use Results.*
unfoldable pub use Text.{codes, beq}
pub use Text.{Bytes, beq_iff, beq_refl}
pub use Prim.Native.Nat.{ℕ, zero, suc, ◌+◌, ◌-◌, ◌*◌, ◌/◌, ◌%◌, ◌^◌, ◌≤◌, ◌<◌}
pub use mathlib.Core.Path.{◌≡◌, refl, sym, ap, subst, ◌∙◌}
pub use mathlib.Core.Logic.{◌≢◌, ◌↔◌, ◌⊎◌, inl, inr}
pub use mathlib.Core.Bool.{Bool, true, false, not, ◌&&◌, ◌||◌}
pub use mathlib.Core.Option.{Option, none, some}
pub use mathlib.Core.List.{List, [], ◌∷◌, ◌++◌, map, append-nil, append_assoc}
pub use native.Mathlib.Omega.{arith}
