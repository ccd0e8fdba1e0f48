-- ===== src/Base.antt =====
-- The names that the other modules share: the libraries', passed on, and those of the children.
mod Tests
mod Lists
mod Effects
mod Frames
pub use Frames.{Keeps, resume-Keeps, then_do-Keeps, if-Keeps}
pub use Tests.*
pub use Lists.*
pub use Effects.{
  Exception, runtime_error, errno_exception, Outcome, ok, throw, fault, hang, ◌>>=◌, ◌>>◌, Exec,
  resume, then_do, Outcome-cases, c_str, c_str-whole,
}
unfoldable pub use Effects.{str, to_string, to_string_int, what}
pub use Prim.Native.Nat.{ℕ, zero, suc, ◌+◌, ◌-◌, ◌*◌, ◌/◌, ◌%◌, ◌^◌, ◌≤◌, ◌<◌}
pub use Prim.Native.String.{String}
pub use mathlib.Core.Path.{◌≡◌, refl, sym, ap, subst, ◌∙◌}
pub use mathlib.Core.Logic.{◌≢◌, ◌↔◌, ◌⊎◌, inl, inr}
pub use mathlib.Core.Bool.{Bool, true, false, not, ◌&&◌, ◌||◌}
pub use mathlib.Core.Option.{Option, none, some}
pub use mathlib.Core.List.{List, [], ◌∷◌, ◌++◌, map}
pub use native.Mathlib.Omega.{arith}
