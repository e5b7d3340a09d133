-- ===== src/Base.antt =====
-- The names that the other modules share: the libraries', passed on, and those of the children.
mod Tests
mod Lists
mod Texts
mod Panics
mod Int
mod Numbers
pub use Tests.*
pub use Lists.*
pub use Panics.*
pub use Int.*
unfoldable pub use Texts.{text_eq, is_utf8, starts_with, split, lead_bytes}
pub use Texts.{
  Text, codes, text_eq_iff, text_eq_refl, text_eq-ne, text_eq-append_left, text_eq-true,
  split-no_sep, split-first, no_sep, is_utf8-ascii, empty_utf8,
}
unfoldable pub use Numbers.{parse_digits, parse_i64, parse_usize, as_u64, show_i64}
pub use Prim.Native.Nat.{ℕ, zero, suc, ◌+◌, ◌-◌, ◌*◌, ◌/◌, ◌%◌, ◌^◌, ◌≤◌, ◌<◌}
pub use mathlib.Core.Path.{◌≡◌, refl, sym, ap, ◌∙◌}
pub use mathlib.Core.Logic.{◌≢◌, ◌↔◌, ◌⊎◌, inl, inr}
pub use mathlib.Core.Bool.{Bool, true, false, not, ◌&&◌, ◌||◌}
pub use mathlib.Core.Option.{Option, none, some}
pub use mathlib.Core.List.{List, [], ◌∷◌, ◌++◌, map}
pub use native.Mathlib.Omega.{arith}
