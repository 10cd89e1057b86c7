-- ===== src/Prelude.antt =====
-- The names that the other modules share: the libraries', passed on, and those of the children.
mod Tests
mod Lists
mod Strings
mod Dict
mod Keys
mod Entries
pub use Tests.*
pub use Lists.*
unfoldable pub use Strings.{str_eq}
pub use Strings.{Text, codes, str_eq_refl, str_eq_iff}
unfoldable pub use Dict.{get, put, remove, member, insert, delete}
pub use Keys.{get_there, Unique-put, all_entries-get, get-all_entries}
pub use Entries.{All-remove, All-get, length-remove, length-remove_found}
unfoldable pub use Keys.{Unique, all_entries}
pub use Dict.{Map, Set, get-remove, get-put, member-delete, member-insert, dict_laws}
pub use Prim.Native.Nat.{ℕ, zero, suc, ◌+◌, ◌-◌, ◌*◌, ◌/◌, ◌%◌, ◌^◌, ◌≤◌, ◌<◌, min}
pub use mathlib.Core.Path.{◌≡◌, refl, sym, ap, ◌∙◌, subst, fun_ext}
pub use mathlib.Core.Logic.{◌≢◌, ◌↔◌, ◌⊎◌, inl, inr}
pub use mathlib.Core.Bool.{Bool, true, false, not, ◌&&◌, ◌||◌}
pub use mathlib.Core.Option.{Option, none, some}
pub use mathlib.Core.List.{List, [], ◌∷◌, ◌++◌, map, append_assoc, append-nil, reverse}
pub use native.Mathlib.Omega.{arith}
