-- ===== src/Base.antt =====
-- What the modules share: the libraries' names, passed on, Boolean tests on native numbers,
-- case splits that keep their equation, and the children Strings, Dicts (plain objects used
-- as maps) and Lists.
mod Tests
pub mod Strings
pub mod Dicts
pub mod Lists
pub mod Options
pub use Tests.*
pub use Prim.Native.Nat.{ℕ, zero, suc, ◌+◌, ◌-◌, ◌*◌, ◌/◌, ◌%◌, ◌^◌, ◌≤◌, ◌<◌, max}
pub use mathlib.Core.Path.{◌≡◌, refl, sym, ap, subst, ◌∙◌}
pub use mathlib.Core.Logic.{◌≢◌, ◌↔◌, ◌⊎◌, inl, inr, ite}
pub use mathlib.Core.Bool.{Bool, true, false, not, ◌&&◌, ◌||◌}
pub use mathlib.Core.Option.{Option, none, some}
pub use mathlib.Core.List.{List, [], ◌∷◌, ◌++◌, map}
pub use native.Mathlib.Omega.{arith}
unfoldable pub use native.Mathlib.Decide.{dec_lt, dec_le, ℕ_discrete}
unfoldable pub use Strings.{Text, text, length, text_dec, same}
unfoldable pub use Dicts.{Dict, lookup, put, remove, values, keys}
unfoldable pub use Lists.{select, insert_by, sort_by, any}
