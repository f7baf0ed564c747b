-- ===== src/Prelude.antt =====
-- The names that the other modules share: the libraries', passed on, and those of the children.
pub mod Tests
pub mod Lists
pub mod Text
pub use Tests.*
pub use Lists.{
  length, is_empty, length-append, All, All-append, take, drop, take-append-drop, length-drop,
}
pub use Lists.{
  drop-append, take-append, drop-drop, take-take-drop, take_while-append-drop_while,
  length-drop_while,
}
unfoldable pub use Lists.{take_while, drop_while, any}
pub use Text.{Str, codes, push_char, text_eq_refl, text_eq_iff, eq_of_text_eq, Unicode}
unfoldable pub use Text.{text_eq, contains, has_char, strip, starts_with, split_on}
pub use Prim.Native.Nat.{ℕ, zero, suc, ◌+◌, ◌-◌, ◌*◌, ◌/◌, ◌%◌, ◌≤◌, ◌<◌, max}
pub use Prim.Native.String.{String}
pub use mathlib.Core.Path.{◌≡◌, refl, sym, ap, ◌∙◌, subst}
pub use mathlib.Core.Logic.{◌≢◌, ◌↔◌, ◌⊎◌, inl, inr}
pub use mathlib.Core.Bool.{Bool, true, false, ◌&&◌, ◌||◌, not}
pub use mathlib.Core.Option.{Option, none, some}
pub use mathlib.Core.List.{List, [], ◌∷◌, ◌++◌, map, append_assoc, append-nil, reverse}
pub use native.Mathlib.Omega.{arith}
