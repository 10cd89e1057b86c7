-- ===== src/Strings/Laws.antt =====
-- Laws of the functions on texts.
use mamori.Prelude.{
  ℕ, ◌≡◌, ◌≢◌, refl, Bool, true, false, none, some, [], ◌∷◌, ◌++◌, Text, All, arith,
}
use mamori.Strings.{is_space, trim_right, trim_space, cut, strip, trim_prefix}

abbrev pub Lacks : ℕ → Text → Type 0
Lacks b = All (λ c. c ≢ b)

pub cut-Lacks : (sep : ℕ) (s t : Text) → Lacks sep s → cut sep (s ++ sep ∷ t) ≡ (s, some t)
unfolding cut
cut-Lacks sep [] t h = ground arith
cut-Lacks sep (c ∷ s) t (p, h) = ground (arith, cut-Lacks sep s t h)

pub cut-none : (sep : ℕ) (s : Text) → Lacks sep s → cut sep s ≡ (s, none)
unfolding cut
cut-none sep [] h = refl
cut-none sep (c ∷ s) (p, h) = ground (arith, cut-none sep s h)

pub strip-append : (p s : Text) → strip p (p ++ s) ≡ some s
unfolding strip
strip-append [] s = refl
strip-append (c ∷ p) s = ground (arith, strip-append p s)

pub trim_prefix-append : (p s : Text) → trim_prefix p (p ++ s) ≡ s
unfolding trim_prefix
trim_prefix-append p s = ground (arith, strip-append p s)

-- A text that neither begins nor ends with a blank.
abbrev pub first_ok : Text → Bool
first_ok [] = false
first_ok (c ∷ s) = elim (is_space c) [ true ↦ false | false ↦ true ]

abbrev pub last_ok : Text → Bool
last_ok [] = true
last_ok (c ∷ []) = elim (is_space c) [ true ↦ false | false ↦ true ]
last_ok (c ∷ d ∷ s) = last_ok (d ∷ s)

trim_right-last_ok : (s : Text) → last_ok s ≡ true → trim_right s ≡ s
unfolding trim_right
trim_right-last_ok [] h = refl
trim_right-last_ok (c ∷ []) h = ground arith
trim_right-last_ok (c ∷ d ∷ s) h = ground (arith, trim_right-last_ok (d ∷ s) h)

pub trim_space_id : (s : Text) → first_ok s ≡ true → last_ok s ≡ true → trim_space s ≡ s
unfolding trim_space
trim_space_id [] f l = refl
trim_space_id (c ∷ s) f l = ground (arith, trim_right-last_ok (c ∷ s) l)
