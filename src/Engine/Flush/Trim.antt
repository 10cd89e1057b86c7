-- ===== src/Engine/Flush/Trim.antt =====
-- reconciler.go: what recordSnapshot keeps of the history.
use mamori.Prelude.{
  ℕ, zero, suc, ◌-◌, ◌≤◌, ◌<◌, ◌≡◌, refl, List, [], ◌∷◌, ◌++◌, arith, length, length-append,
  length-drop, drop, ltb, Bool-cases, inl, inr, All, All-drop,
}
use mamori.Engine.Flush.{trim_history}

drop-snoc :
    {A : Type 0} (n : ℕ) (xs : List A) (x : A)
    → n ≤ length xs
    → drop n (xs ++ x ∷ []) ≡ drop n xs ++ x ∷ []
drop-snoc zero xs x h = refl
drop-snoc (suc n) [] x h = absurd (omega arith)
drop-snoc (suc n) (y ∷ xs) x h = drop-snoc n xs x (omega arith)

-- Trimming keeps the newest, and no more than asked for.
module _ {A : Type 0} (max : ℕ) where
  pub trim_history-snoc :
      (xs : List A) (x : A)
      → 0 < max
      → (ys : List A) × (trim_history max (xs ++ x ∷ []) ≡ ys ++ x ∷ [])
  unfolding trim_history
  trim_history-snoc xs x h = elim (Bool-cases (ltb max (length (xs ++ x ∷ [])))) [
    | inl over ↦
        let long : length (xs ++ x ∷ []) - max ≤ length xs =
          ground (arith, length-append xs (x ∷ [])) in
        (drop (length (xs ++ x ∷ []) - max) xs, rw over (drop-snoc _ xs x long))
    | inr under ↦ (xs, rw under refl)
  ]

  pub length-trim_history : (xs : List A) → length (trim_history max xs) ≤ max
  unfolding trim_history
  length-trim_history xs = ground (arith, length-drop (length xs - max) xs)

  pub trim_history-All : (P : A → Type 0) (xs : List A) → All P xs → All P (trim_history max xs)
  unfolding trim_history
  trim_history-All P xs a = elim (Bool-cases (ltb max (length xs))) [
    | inl over ↦ rw over (All-drop P _ xs a)
    | inr under ↦ rw under a
  ]
