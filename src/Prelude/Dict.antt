-- ===== src/Prelude/Dict.antt =====
-- Go maps with string keys, and sets of strings: association lists behind their laws. The program
-- ranges over such a map only where the order does not matter.
use mathlib.Core.Path.{◌≡◌}
use mathlib.Core.Bool.{Bool, true, false, ◌||◌}
use mathlib.Core.List.{List, [], ◌∷◌}
use mathlib.Core.Option.{Option, none, some}
use native.Mathlib.Omega.{arith}
use mamori.Prelude.Tests.{if◌then◌else◌}
use mamori.Prelude.Strings.{Text, str_eq, str_eq_iff}

abbrev pub Map {ℓ} : Type ℓ → Type ℓ
Map V = List (Text × V)

abbrev pub Set : Type 0
Set = List Text

module _ {ℓ} {V : Type ℓ} where
  -- v, ok := m[k]
  unfoldable pub get : Map V → Text → Option V
  get [] k = none
  get ((j, v) ∷ m) k = if str_eq j k then some v else get m k

  -- delete(m, k)
  unfoldable pub remove : Map V → Text → Map V
  remove [] k = []
  remove ((j, v) ∷ m) k = let rest = remove m k in if str_eq j k then rest else (j, v) ∷ rest

  -- m[k] = v
  unfoldable pub put : Map V → Text → V → Map V
  put m k v = (k, v) ∷ remove m k

  pub get-remove :
      (m : Map V) (k j : Text) → get (remove m k) j ≡ (if str_eq k j then none else get m j)
  unfolding get remove
  get-remove [] k j = ground arith
  get-remove ((i, v) ∷ m) k j =
      ground (arith, get-remove m k j, str_eq_iff i k, str_eq_iff i j, str_eq_iff k j)

  pub get-put :
      (m : Map V) (k j : Text) (v : V)
      → get (put m k v) j ≡ (if str_eq k j then some v else get m j)
  unfolding get put
  get-put m k j v = ground (arith, get-remove m k j)

-- s[k] = struct{}{}, delete(s, k) and the membership test
unfoldable pub member : Set → Text → Bool
member [] k = false
member (j ∷ s) k = str_eq j k || member s k

unfoldable pub delete : Set → Text → Set
delete [] k = []
delete (j ∷ s) k = let rest = delete s k in if str_eq j k then rest else j ∷ rest

unfoldable pub insert : Set → Text → Set
unfolding delete
insert s k = k ∷ delete s k

pub member-delete :
    (s : Set) (k j : Text) → member (delete s k) j ≡ (if str_eq k j then false else member s j)
unfolding member delete
member-delete [] k j = ground arith
member-delete (i ∷ s) k j =
    ground (arith, member-delete s k j, str_eq_iff i k, str_eq_iff i j, str_eq_iff k j)

pub member-insert :
    (s : Set) (k j : Text) → member (insert s k) j ≡ (if str_eq k j then true else member s j)
unfolding member insert
member-insert s k j = ground (arith, member-delete s k j)

pub ruleset dict_laws = (get-remove, get-put, member-delete, member-insert)
