-- ===== src/Strings.antt =====
-- What the program uses of the packages strings, bytes and net/url, over texts as lists of bytes.
-- TrimSpace trims the ASCII blanks; the blanks of Unicode beyond them are not modelled.
pub mod Laws
pub mod Url
use mamori.Prelude.{
  ℕ, Bool, true, false, ◌&&◌, ◌||◌, Option, none, some, List, [], ◌∷◌, ◌++◌, Text, ◌==◌, leb,
  if◌then◌else◌, is_empty, any, str_eq,
}

abbrev pub is_space : ℕ → Bool
is_space c = c == 32 || (leb 9 c && leb c 13)

unfoldable pub trim_left : Text → Text
trim_left [] = []
trim_left (c ∷ s) = let rest = trim_left s in if is_space c then rest else c ∷ s

unfoldable pub trim_right : Text → Text
trim_right [] = []
trim_right (c ∷ s) = let rest = trim_right s in if is_space c && is_empty rest then [] else c ∷ rest

unfoldable pub trim_space : Text → Text
unfolding trim_left trim_right
trim_space s = trim_right (trim_left s)

-- strings.Cut at a byte: what stands before its first place, and what stands after it.
unfoldable pub cut : ℕ → Text → Text × Option Text
cut sep [] = ([], none)
cut sep (c ∷ s) =
    let (before, after) = cut sep s in if c == sep then ([], some s) else (c ∷ before, after)

-- strings.Split at a byte, as its list of parts.
unfoldable pub split : ℕ → Text → List Text
split sep [] = [] ∷ []
split sep (c ∷ s) = if c == sep then [] ∷ split sep s else prepend c (split sep s)
  where
    prepend : ℕ → List Text → List Text
    prepend c [] = (c ∷ []) ∷ []
    prepend c (p ∷ ps) = (c ∷ p) ∷ ps

unfoldable pub contains_byte : ℕ → Text → Bool
contains_byte b s = any (λ c. c == b) s

-- strings.TrimPrefix: the text without the prefix, or the text itself.
unfoldable pub strip : Text → Text → Option Text
strip [] s = some s
strip (p ∷ ps) [] = none
strip (p ∷ ps) (c ∷ s) = if c == p then strip ps s else none

unfoldable pub trim_prefix : Text → Text → Text
unfolding strip
trim_prefix p s = elim (strip p s) [ none ↦ s | some rest ↦ rest ]

unfoldable pub has_prefix : Text → Text → Bool
unfolding strip
has_prefix p s = elim (strip p s) [ none ↦ false | some rest ↦ true ]

unfoldable pub join : Text → List Text → Text
join sep [] = []
join sep (p ∷ []) = p
join sep (p ∷ q ∷ ps) = p ++ (sep ++ join sep (q ∷ ps))
