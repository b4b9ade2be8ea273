-- ===== src/Prelude.antt =====
-- Names shared by all modules: those of the libraries, passed on, and those of three children.
mod Tests
mod Lists
mod Strings
pub mod Int
pub use Tests.*
pub use Lists.*
unfoldable pub use Strings.{str_eq}
pub use Strings.{Bytes, codes, Free, str_eq_iff, str_eq_self}
pub use Prim.Native.Nat.{ℕ, zero, suc, ◌+◌, ◌-◌, ◌*◌, ◌/◌, ◌%◌, ◌^◌, ◌≤◌, ◌<◌}
pub use mathlib.Core.Path.{◌≡◌, refl, sym, ap, subst, ◌∙◌}
pub use mathlib.Core.Logic.{◌≢◌, ◌↔◌, ◌⊎◌, inl, inr}
pub use mathlib.Core.Bool.{Bool, true, false, not, ◌&&◌, ◌||◌}
pub use mathlib.Core.Option.{Option, none, some}
pub use mathlib.Core.List.{List, [], ◌∷◌, ◌++◌, map, append-nil, append_assoc}
pub use native.Mathlib.Omega.{arith}
