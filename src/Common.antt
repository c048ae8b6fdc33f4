-- ===== src/Common.antt =====
-- What the other modules share: the names of the libraries, passed on, and those of the children.
mod Tests
mod Lists
pub mod Compare
pub mod Maps
pub mod Keyed
pub mod Int
pub mod Errors
pub mod Utf8
pub mod Word
pub mod Pow
pub use Tests.*
pub use Lists.*
pub use Compare.*
pub use Pow.*
pub use Maps.*
pub use Keyed.*
pub use Int.*
pub use Errors.*
pub use Utf8.*
pub use Word.*
unfoldable pub use Compare.{bytes_compare}
unfoldable pub use Word.{big_endian, len64}
unfoldable pub use Tests.{bytes_eq}
unfoldable pub use Lists.{any}
unfoldable pub use Maps.{lookup, put, remove}
unfoldable pub use Keyed.{find, set, drop_keys}
unfoldable pub use Utf8.{valid_utf8, parse_int}
pub use mathlib.Core.List.{reverse}
pub use Prim.Native.Nat.{ℕ, zero, suc, ◌+◌, ◌-◌, ◌*◌, ◌/◌, ◌%◌, ◌^◌, ◌≤◌, ◌<◌, compare, Ordering}
pub use mathlib.Core.Path.{◌≡◌, refl, sym, ap, ap₂, subst, ◌∙◌, ◌≡⟨◌⟩◌, ◌∎}
pub use mathlib.Core.Logic.{◌≢◌, ◌↔◌, ◌⊎◌, inl, inr}
pub use mathlib.Core.Bool.{Bool, true, false, ◌&&◌, ◌||◌, not}
pub use mathlib.Core.Option.{Option, none, some}
pub use mathlib.Core.List.{List, [], ◌∷◌, ◌++◌, map}
pub use native.Mathlib.Omega.{arith}
