-- ===== src/Ref/Chain.antt =====
-- ref.go: ParseRefs and splitChain, the precedence chains of one source tag.
pub mod Starts
pub mod Split
use mamori.Prelude.{
  ℕ, Bool, true, false, ◌&&◌, ◌||◌, Option, none, some, List, [], ◌∷◌, ◌++◌, Text, ◌==◌, leb,
  if◌then◌else◌, is_empty,
}
use mamori.Errors.{Result, ok, err, ◌>>=◌}
use mamori.Strings.{trim_space}
use mamori.Ref.{Ref, parse_error, parse_ref}

-- The class \s of the regular expression.
abbrev pub is_blank : ℕ → Bool
is_blank c = c == 32 || (c == 9 || (c == 10 || (c == 12 || c == 13)))

abbrev pub is_letter : ℕ → Bool
is_letter c = (leb 97 c && leb c 122) || (leb 65 c && leb c 90)

abbrev pub is_scheme_char : ℕ → Bool
is_scheme_char c =
    is_letter c || ((leb 48 c && leb c 57) || (c == b'+' || (c == b'.' || c == b'-')))

-- [a-zA-Z0-9+.\-]*:
pub scheme_tail : Text → Bool
scheme_tail [] = false
scheme_tail (c ∷ s) = c == b':' || (is_scheme_char c && scheme_tail s)

-- [a-zA-Z][a-zA-Z0-9+.\-]*:
unfoldable pub scheme_head : Text → Bool
unfolding scheme_tail
scheme_head [] = false
scheme_head (c ∷ s) = is_letter c && scheme_tail s

-- schemeStart.MatchString: blanks, then a scheme and its colon.
unfoldable pub scheme_start : Text → Bool
unfolding scheme_head
scheme_start [] = false
scheme_start (c ∷ s) = (is_blank c && scheme_start s) || scheme_head (c ∷ s)

-- The loop of splitChain: `cur` is tag[start:i], `parts` the parts that it has appended.
unfoldable pub split_loop : Text → Text → List Text → List Text
split_loop [] cur parts = parts ++ cur ∷ []
split_loop (c ∷ s) cur parts =
    let cut_here = split_loop s [] (parts ++ cur ∷ []) in
    let go_on = split_loop s (cur ++ c ∷ []) parts in
    if (c == b',') && scheme_start s then cut_here else go_on

unfoldable pub split_chain : Text → List Text
unfolding split_loop
split_chain tag = split_loop tag [] []

unfoldable pub parse_parts : List Text → Result (List Ref)
parse_parts [] = ok []
parse_parts (p ∷ ps) = do r ← parse_ref p; rs ← parse_parts ps; ok (r ∷ rs)

unfoldable pub parse_refs : Text → Result (List Ref)
unfolding parse_parts split_chain
parse_refs tag =
    let t = trim_space tag in if is_empty t then err parse_error else parse_parts (split_chain t)
