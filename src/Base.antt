-- ===== src/Base.antt =====
-- Names that every module shares: the libraries', passed on, and those of the children.
mod Tests
mod Lists
mod Words
mod Tables
mod Int
mod Decimal
pub use Tests.*
pub use Lists.*
unfoldable pub use Words.{word_bytes, word, net_bytes, net_word, bytes_eq}
pub use Words.*
unfoldable pub use Int.{is_nonneg, is_pos, int_eq}
pub use Int.*
unfoldable pub use Decimal.{digits, to_text, wrap, to_int}
unfoldable pub use Tables.{agree_below}
pub use Tables.{agree_below-eq}
pub use Prim.Native.Nat.{ℕ, zero, suc, ◌+◌, ◌-◌, ◌*◌, ◌/◌, ◌%◌, ◌^◌, ◌≤◌, ◌<◌, bit_and}
pub use mathlib.Core.Path.{◌≡◌, refl, sym, ap, ap₂, ◌∙◌, subst}
pub use mathlib.Core.Logic.{◌≢◌, ◌↔◌, ◌⊎◌, inl, inr}
pub use mathlib.Core.Bool.{Bool, true, false, ◌&&◌, ◌||◌, not}
pub use mathlib.Core.Option.{Option, none, some}
pub use mathlib.Core.List.{List, [], ◌∷◌, ◌++◌, map, append_assoc, append-nil}
pub use native.Mathlib.Omega.{arith}
