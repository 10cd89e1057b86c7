-- ===== src/Prelude/Keys.antt =====
-- Go maps as association lists: keys that stand once, and a test of all entries.
use mathlib.Core.Path.{◌≡◌, refl, ◌∙◌}
use mathlib.Core.Bool.{Bool, true, false}
use mathlib.Core.List.{[], ◌∷◌}
use mathlib.Core.Logic.{inl, inr}
use mathlib.Core.Option.{none, some}
use native.Mathlib.Omega.{arith}
use mamori.Prelude.Tests.{if◌then◌else◌, Bool-cases}
use mamori.Prelude.Strings.{Text, str_eq, str_eq_iff, str_eq_refl}
use mamori.Prelude.Dict.{Map, get, put, remove, get-remove}

module _ {ℓ} {V : Type ℓ} where
  -- No key stands twice.
  unfoldable pub Unique : Map V → Type ℓ
  Unique [] = Unit
  Unique ((k, v) ∷ m) = (get m k ≡ none) × Unique m

  unfoldable pub all_entries : (Text → V → Bool) → Map V → Bool
  all_entries p [] = true
  all_entries p ((k, v) ∷ m) = if p k v then all_entries p m else false

  pub get_here : (m : Map V) (k : Text) (v : V) → get ((k, v) ∷ m) k ≡ some v
  unfolding get
  get_here m k v = rw (str_eq_refl k) refl

  pub get_there :
      (m : Map V) (j k : Text) (v : V) → str_eq j k ≡ false → get ((j, v) ∷ m) k ≡ get m k
  unfolding get
  get_there m j k v h = rw h refl

  Unique-remove : (m : Map V) (k : Text) → Unique m → Unique (remove m k)
  unfolding Unique remove
  Unique-remove [] k u = tt
  Unique-remove ((j, v) ∷ m) k (absent, u) = elim (Bool-cases (str_eq j k)) [
    | inl same ↦ rw same (Unique-remove m k u)
    | inr other ↦ rw other (get-remove m k j ∙ ground (arith, absent), Unique-remove m k u)
  ]

  pub Unique-put : (m : Map V) (k : Text) (v : V) → Unique m → Unique (put m k v)
  unfolding Unique put
  Unique-put m k v u = (get-remove m k k ∙ rw (str_eq_refl k) refl, Unique-remove m k u)

  pub all_entries-get :
      (p : Text → V → Bool) (m : Map V) (k : Text) (v : V)
      → all_entries p m ≡ true
      → get m k ≡ some v
      → p k v ≡ true
  unfolding all_entries get
  all_entries-get p [] k v h found = ground arith
  all_entries-get p ((j, w) ∷ m) k v h found = elim (Bool-cases (p j w)) [
    | inr bad ↦ absurd (ground (arith, h, bad))
    | inl good ↦ elim (Bool-cases (str_eq j k)) [
      | inl same ↦
          let key : j ≡ k = (str_eq_iff j k).0 same in
          let value : w ≡ v = ground (arith, rw same at found) in rw (← key, ← value) good
      | inr other ↦ all_entries-get p m k v (rw good at h) (rw other at found)
    ]
  ]

  pub get-all_entries :
      (p : Text → V → Bool) (m : Map V)
      → Unique m
      → ((k : Text) (v : V) → get m k ≡ some v → p k v ≡ true)
      → all_entries p m ≡ true
  unfolding all_entries Unique
  get-all_entries p [] u h = refl
  get-all_entries p ((j, w) ∷ m) (absent, u) h = rw (h j w (get_here m j w)) (
      get-all_entries p m u (λ k v found. elim (Bool-cases (str_eq j k)) [
        | inl same ↦
            let key : j ≡ k = (str_eq_iff j k).0 same in
            absurd (ground (arith, found, rw key at absent))
        | inr other ↦ h k v (get_there m j k w other ∙ found)
      ]))
