-- ===== src/Common.antt =====
-- The names that the other modules share: those of the libraries, passed on, Boolean tests on the
-- native numbers, lists measured by them, and C's signed integers.
mod Tests
mod Lists
mod Slices
mod Xor
mod Int
pub use Tests.*
pub use Lists.*
pub use Xor.{bit_xor-high, bit_xor-lt}
unfoldable pub use Slices.{take, drop, replicate, concat}
pub use Slices.{
  length-replicate, take-zero, drop-zero, length-take, length-drop, take-append, drop-append,
  take-append_left, drop-append_left, drop-append_right, drop-drop, take_split, take_all, drop_all,
  take-append-drop, concat-append,
}
pub use Int.{ℤ, pos, negsuc, is_neg, is_zero, is_pos, signed64, word64, int32}
pub use Prim.Native.Nat.{ℕ, zero, suc, ◌+◌, ◌-◌, ◌*◌, ◌/◌, ◌%◌, ◌^◌, ◌≤◌, ◌<◌, bit_xor}
pub use mathlib.Core.Path.{◌≡◌, refl, sym, ap, ◌∙◌, subst}
pub use mathlib.Core.Logic.{◌≢◌, ◌↔◌, ◌⊎◌, inl, inr, ite, if_pos, if_neg}
pub use mathlib.Core.Bool.{Bool, true, false, not, ◌&&◌, ◌||◌}
pub use mathlib.Core.Option.{Option, none, some}
pub use mathlib.Core.List.{List, [], ◌∷◌, ◌++◌, map}
pub use native.Mathlib.Omega.{arith}
pub use Prim.Native.String.{String}
pub use text.Mathlib.Text.{◌==◌ as str_eq}
pub use text.Mathlib.TextEquality.{eq_iff}
unfoldable pub use native.Mathlib.Decide.{dec_lt, ℕ_discrete}
