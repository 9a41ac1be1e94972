-- ===== src/Prelude.antt =====
-- The names that the other modules share: the libraries', passed on, and those of the children.
mod Tests
mod Lists
mod Int
mod Maps
unfoldable pub use Tests.*
pub use Lists.{length, take, drop, length-append, length-take, All, All-append, All-keep_if}
unfoldable pub use Lists.{keep_if, any_if}
pub use Int.{
  ℤ, pos, negsuc, pos_part, neg_part, sub_ℕ, ◌≤ℤ◌, ◌<ℤ◌, ltb_ℤ, leb_ℤ, eqb_ℤ, eq_of_eqb, quot_pos,
  wrap_suc, wrap_mul, of_word64, to_word64, InInt64, wrap64_of_InInt64,
}
unfoldable pub use Int.{◌+ℤ◌, ◌-ℤ◌, ◌*ℤ◌, quot, wrap64}
pub use Maps.{
  Dict, IsMap, IsMap-delete, IsMap-insert, IsMap-keep_if, lookup-keep_if, lookup-delete,
  lookup-insert, eqb_refl,
}
unfoldable pub use Maps.{lookup, delete, insert}
pub use Prim.Native.Nat.{ℕ, zero, suc, ◌+◌, ◌-◌, ◌*◌, ◌/◌, ◌%◌, ◌^◌, ◌≤◌, ◌<◌}
pub use mathlib.Core.Path.{◌≡◌, refl, sym, ap, ◌∙◌}
pub use mathlib.Core.Logic.{◌≢◌, ◌↔◌, ◌⊎◌, inl, inr}
pub use mathlib.Core.Bool.{Bool, true, false, not, ◌&&◌, ◌||◌}
pub use mathlib.Core.Option.{Option, none, some}
pub use mathlib.Core.List.{List, [], ◌∷◌, ◌++◌, map}
pub use native.Mathlib.Omega.{arith}
