-- ===== src/Strings/Url.antt =====
-- net/url: QueryEscape, QueryUnescape and ParseQuery, as ParseRef and Redacted use them.
use mamori.Prelude.{
  ℕ, ◌+◌, ◌-◌, ◌*◌, ◌/◌, ◌%◌, Bool, ◌&&◌, ◌||◌, Option, none, some, List, [], ◌∷◌, ◌++◌, Text, ◌==◌,
  leb, if◌then◌else◌, is_empty, Map, get, put,
}
use mamori.Strings.{cut, split, contains_byte}

-- url.Values
abbrev pub Values : Type 0
Values = Map (List Text)

abbrev is_unreserved : ℕ → Bool
is_unreserved c =
    (leb 97 c && leb c 122)
    || ((leb 65 c && leb c 90)
        || ((leb 48 c && leb c 57) || (c == 45 || (c == 95 || (c == 46 || c == 126)))))

abbrev upper_hex : ℕ → ℕ
upper_hex d = if leb d 9 then 48 + d else 55 + d

escape_byte : ℕ → Text
escape_byte c =
    if is_unreserved c
    then c ∷ []
    else if c == 32
    then b'+' ∷ []
    else b'%' ∷ upper_hex (c / 16) ∷ upper_hex (c % 16) ∷ []

unfoldable pub query_escape : Text → Text
unfolding escape_byte
query_escape [] = []
query_escape (c ∷ s) = escape_byte c ++ query_escape s

un_hex : ℕ → Option ℕ
un_hex c =
    if leb 48 c && leb c 57
    then some (c - 48)
    else if leb 97 c && leb c 102
    then some (c - 87)
    else if leb 65 c && leb c 70
    then some (c - 55)
    else none

prefix_byte : ℕ → Option Text → Option Text
prefix_byte c none = none
prefix_byte c (some s) = some (c ∷ s)

two_digits : Option ℕ → Option ℕ → Option Text → Option Text
unfolding prefix_byte
two_digits (some h) (some l) rest = prefix_byte (h * 16 + l) rest
two_digits _ _ rest = none

-- `none` is the error "invalid URL escape".
unfoldable pub query_unescape : Text → Option Text
unfolding un_hex prefix_byte two_digits
query_unescape [] = some []
query_unescape (c ∷ []) =
    if c == b'%' then none else if c == b'+' then some (32 ∷ []) else some (c ∷ [])
query_unescape (c ∷ d ∷ []) =
    let rest = query_unescape (d ∷ []) in
    if c == b'%' then none else if c == b'+' then prefix_byte 32 rest else prefix_byte c rest
query_unescape (c ∷ d ∷ e ∷ s) =
    let rest = query_unescape (d ∷ e ∷ s) in
    let after = query_unescape s in
    if c == b'%'
    then two_digits (un_hex d) (un_hex e) after
    else if c == b'+'
    then prefix_byte 32 rest
    else prefix_byte c rest

add_value : Values → Text → Text → Values
add_value m k v = elim (get m k) [ none ↦ put m k (v ∷ []) | some vs ↦ put m k (vs ++ v ∷ []) ]

or_empty : Option Text → Text
or_empty none = []
or_empty (some t) = t

add_decoded : Values → Option Text → Option Text → Option Values
unfolding add_value
add_decoded m (some k) (some v) = some (add_value m k v)
add_decoded m _ _ = none

-- One pair of a query: a ';' or a bad escape is an error, an empty pair is skipped.
parse_pair : Text → Values → Option Values
unfolding or_empty add_decoded
parse_pair p m =
    let (k, v) = cut b'=' p in
    if contains_byte b';' p
    then none
    else if is_empty p
    then some m
    else add_decoded m (query_unescape k) (query_unescape (or_empty v))

parse_pairs : List Text → Values → Option Values
unfolding parse_pair
parse_pairs [] m = some m
parse_pairs (p ∷ ps) m = elim (parse_pair p m) [ none ↦ none | some n ↦ parse_pairs ps n ]

-- url.ParseQuery, up to its answer beside an error, which ParseRef drops.
unfoldable pub parse_query : Text → Option Values
unfolding parse_pairs get put cut split contains_byte query_unescape
parse_query q = parse_pairs (split b'&' q) []
