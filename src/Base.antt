-- ===== src/Base.antt =====
-- What every module shares: the libraries' names, Go's byte slices, and calls that may fail.
pub mod Tests
pub mod Slice
pub mod BigEndian
pub mod Failure
pub mod Bounds
pub mod Text
pub mod Keeps
pub mod Returns
pub use Tests.*
unfoldable pub use Slice.*
unfoldable pub use BigEndian.*
unfoldable pub use Failure.*
pub use Bounds.*
unfoldable pub use Text.*
pub use Prim.Native.Nat.{ℕ, zero, suc, ◌+◌, ◌-◌, ◌*◌, ◌/◌, ◌%◌, ◌^◌, ◌≤◌, ◌<◌, min}
pub use mathlib.Core.Path.{◌≡◌, refl, sym, subst, ap, ap₂, ◌∙◌}
pub use mathlib.Core.Logic.{◌≢◌, ◌↔◌, ◌⊎◌, inl, inr}
pub use mathlib.Core.Bool.{Bool, true, false, ◌&&◌, ◌||◌, not}
pub use mathlib.Core.Option.{Option, none, some}
pub use mathlib.Core.List.{List, [], ◌∷◌, ◌++◌, append-nil, append_assoc}
pub use native.Mathlib.Omega.{arith}
