-- ===== src/Base.antt =====
-- The names that the other modules share: the libraries', passed on, and those of the children.
pub mod Tests
pub mod Lists
pub mod Bytes
pub mod Dict
pub mod Sort
pub mod Int
pub mod Strings
pub mod Parse
pub mod Maps
pub use Tests.*
pub use Lists.*
pub use Bytes.{Text, txt, same_iff, same_refl}
unfoldable pub use Bytes.{same}
pub use Dict.{lookup-insert, slice_at-append_at, slice_at-insert, slice_of_lookup}
unfoldable pub use Dict.{lookup, insert, slice_at, append_at}
pub use Sort.{Sorted, sort-Sorted, sort-of_Sorted, count-sort}
unfoldable pub use Sort.{sort}
pub use Prim.Native.Nat.{ℕ, zero, suc, ◌+◌, ◌-◌, ◌*◌, ◌/◌, ◌%◌, ◌^◌, ◌≤◌, ◌<◌, min, max}
pub use mathlib.Core.Path.{◌≡◌, refl, sym, ap, ◌∙◌}
pub use mathlib.Core.Logic.{◌≢◌, ◌↔◌, ◌⊎◌, inl, inr}
pub use mathlib.Core.Bool.{Bool, true, false, ◌&&◌, ◌||◌, not}
pub use mathlib.Core.Option.{Option, none, some}
pub use mathlib.Core.List.{List, [], ◌∷◌, ◌++◌, map, append-nil, append_assoc}
pub use native.Mathlib.Omega.{arith}
