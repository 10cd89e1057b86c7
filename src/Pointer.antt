-- ===== src/Pointer.antt =====
-- jsonpointer.go and SelectKey of helpers.go: a part of a JSON document. What encoding/json reads of a
-- document is a parameter.
pub mod RoundTrip
pub mod Tests
use mamori.Prelude.{
  ℕ, zero, suc, ◌+◌, ◌-◌, ◌*◌, ◌^◌, ◌==◌, ltb, leb, Bool, true, false, not, ◌&&◌, ◌||◌, Option,
  none, some, List, [], ◌∷◌, Text, if◌then◌else◌, Map, get, get_elem?, is_empty, all, drop,
}
use mamori.Errors.{Error, Sentinel, sentinel, opaque, wrap, wrap2, Result, ok, err, ◌>>=◌}
use mamori.Strings.{split, contains_byte}

-- json.Unmarshal into a map and a slice of raw messages, and into a string.
pub record JsonReader : Type 0 where
  pub read_object : Text → Option (Map Text)
  pub read_array : Text → Option (List Text)
  pub read_string : Text → Option Text

-- A failure of the reader, under ErrInvalid.
abbrev malformed : Error
malformed = wrap2 (sentinel Sentinel.invalid) (opaque [])

abbrev pub invalid : Error
invalid = wrap (sentinel Sentinel.invalid)

abbrev absent : Error
absent = wrap (sentinel Sentinel.not_found)

unfoldable pub container_kind : Text → ℕ
container_kind [] = 0
container_kind (c ∷ raw) =
    let rest = container_kind raw in
    if (c == b' ') || (c == 9) || (c == 10) || (c == 13) then rest else c

-- The loop of unescapeToken; an escape takes two bytes.
unfoldable pub unescape_loop : Text → Result Text
unescape_loop [] = ok []
unescape_loop (c ∷ []) = if c == b'~' then err invalid else ok (c ∷ [])
unescape_loop (c ∷ d ∷ tok) =
    let escaped = unescape_loop tok in
    let plain = unescape_loop (d ∷ tok) in
    if not (c == b'~')
    then (do rest ← plain; ok (c ∷ rest))
    else if d == b'0'
    then (do rest ← escaped; ok (b'~' ∷ rest))
    else if d == b'1'
    then (do rest ← escaped; ok (b'/' ∷ rest))
    else err invalid

unfoldable pub unescape_token : Text → Result Text
unfolding unescape_loop
unescape_token tok = if contains_byte b'~' tok then unescape_loop tok else ok tok

abbrev is_digit : ℕ → Bool
is_digit c = leb b'0' c && leb c b'9'

decimal : ℕ → Text → ℕ
decimal n [] = n
decimal n (c ∷ tok) = decimal (n * 10 + (c - b'0')) tok

leading_zero : Text → Bool
leading_zero (c ∷ d ∷ tok) = c == b'0'
leading_zero _ = false

-- arrayIndex; strconv.Atoi fails on what is no int64.
unfoldable pub array_index : Text → Result ℕ
unfolding decimal leading_zero
array_index tok =
    if is_empty tok || not (all is_digit tok) || leading_zero tok
    then err invalid
    else if ltb (decimal 0 tok) (2 ^ 63)
    then ok (decimal 0 tok)
    else err invalid

module _ (json : JsonReader) where
  object_key : Text → Option (Map Text) → Result Text
  object_key tok none = err malformed
  object_key tok (some obj) = elim (get obj tok) [ some v ↦ ok v | none ↦ err absent ]

  array_element : Text → Option (List Text) → Result Text
  array_element tok none = err malformed
  array_element tok (some arr) = do
    i ← array_index tok
    elim (get_elem? arr i) [ some v ↦ ok v | none ↦ err absent ]

  unfoldable pub descend : Text → Text → Result Text
  unfolding container_kind object_key array_element
  descend node tok =
      if container_kind node == b'{'
      then object_key tok (json.read_object node)
      else if container_kind node == b'['
      then array_element tok (json.read_array node)
      else err invalid

  -- The loop of selectPointer over the tokens.
  unfoldable pub walk : Text → List Text → Result Text
  unfolding unescape_token descend
  walk cur [] = ok cur
  walk cur (raw ∷ toks) = do tok ← unescape_token raw; next ← descend cur tok; walk next toks

  unfoldable pub unquote_json : Text → Text
  unquote_json raw = elim (json.read_string raw) [ some s ↦ s | none ↦ raw ]

  unfoldable pub select_pointer : Text → Text → Result Text
  unfolding walk unquote_json
  select_pointer doc ptr = do node ← walk doc (drop 1 (split b'/' ptr)); ok (unquote_json node)

  literal_key : Text → Option (Map Text) → Result Text
  literal_key key none = err malformed
  literal_key key (some obj) = elim (get obj key) [
    | some raw ↦ ok (unquote_json raw)
    | none ↦ err absent
  ]

  unfoldable pub select_key : Text → Text → Result Text
  unfolding select_pointer literal_key
  select_key doc [] = ok doc
  select_key doc (c ∷ key) =
      if c == b'/'
      then select_pointer doc (c ∷ key)
      else literal_key (c ∷ key) (json.read_object doc)
