-- ===== src/Prelude.antt =====
-- The names that the other modules share: the library's, passed on, and those of three children
-- (Boolean tests, texts as byte lists, and maps with text keys).
pub mod Tests
pub mod Strings
pub mod Maps
pub mod Lists
pub mod Decimal
pub use Tests.{ltb, leb, ◌==◌, if◌then◌else◌, Bool-cases, Option-cases, &&-elim, ltb→lt, leb→le}
pub use Strings.{Text, codes, text_eq_iff, text_eq_refl}
unfoldable pub use Strings.{text_eq}
pub use Lists.{length, length-append, All, All-append, Any, Any-append_left, Any-append_right}
pub use Prim.Native.Nat.{ℕ, zero, suc, ◌+◌, ◌-◌, ◌*◌, ◌/◌, ◌%◌, ◌≤◌, ◌<◌}
pub use mathlib.Core.Path.{◌≡◌, refl, sym, ap, ◌∙◌}
pub use mathlib.Core.Logic.{◌≢◌, ◌↔◌, ◌⊎◌, inl, inr}
pub use mathlib.Core.Bool.{Bool, true, false, not, ◌&&◌, ◌||◌}
pub use mathlib.Core.Option.{Option, none, some}
pub use mathlib.Core.List.{List, [], ◌∷◌, ◌++◌, map}
pub use native.Mathlib.Omega.{arith}
