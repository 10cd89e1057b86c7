-- ===== src/Prelude/Entries.antt =====
-- Go maps as association lists: what holds of all entries, and how many there are.
use Prim.Native.Nat.{◌≤◌, ◌<◌}
use mathlib.Core.Path.{◌≡◌, subst}
use mathlib.Core.List.{[], ◌∷◌}
use mathlib.Core.Logic.{inl, inr}
use mathlib.Core.Option.{some}
use native.Mathlib.Omega.{arith}
use mamori.Prelude.Tests.{Bool-cases}
use mamori.Prelude.Lists.{All, length}
use mamori.Prelude.Strings.{Text, str_eq, str_eq_iff}
use mamori.Prelude.Dict.{Map, get, remove}

module _ {ℓ κ} {V : Type ℓ} (P : Text × V → Type κ) where
  pub All-remove : (m : Map V) (k : Text) → All P m → All P (remove m k)
  unfolding remove
  All-remove [] k h = tt
  All-remove ((j, v) ∷ m) k (p, h) = elim (Bool-cases (str_eq j k)) [
    | inl same ↦ rw same (All-remove m k h)
    | inr other ↦ rw other (p, All-remove m k h)
  ]

  pub All-get : (m : Map V) (k : Text) (v : V) → All P m → get m k ≡ some v → P (k, v)
  unfolding get
  All-get [] k v h found = absurd (ground (arith, found))
  All-get ((j, w) ∷ m) k v (p, h) found = elim (Bool-cases (str_eq j k)) [
    | inr other ↦ All-get m k v h (rw other at found)
    | inl same ↦
        let here : w ≡ v = ground (arith, rw same at found) in
        let key : j ≡ k = (str_eq_iff j k).0 same in
        subst (λ x. P (k, x)) here (subst (λ x. P (x, w)) key p)
  ]

pub length-remove : {V : Type 0} (m : Map V) (k : Text) → length (remove m k) ≤ length m
unfolding remove
length-remove [] k = omega arith
length-remove ((j, v) ∷ m) k = ground (arith, length-remove m k)

pub length-remove_found :
    {V : Type 0} (m : Map V) (k : Text) (v : V) → get m k ≡ some v → length (remove m k) < length m
unfolding remove get
length-remove_found [] k v found = absurd (ground (arith, found))
length-remove_found ((j, w) ∷ m) k v found = elim (Bool-cases (str_eq j k)) [
  | inl same ↦ rw same (omega (arith, length-remove m k))
  | inr other ↦ rw other (omega (arith, length-remove_found m k v (rw other at found)))
]
