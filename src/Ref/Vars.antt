-- ===== src/Ref/Vars.antt =====
-- refvars.go: WithRefVars and the ${VAR} expansion of a source tag.
pub mod Template
use mamori.Prelude.{
  ℕ, zero, suc, ◌+◌, length, Bool, true, false, ◌&&◌, Option, none, some, List, [], ◌∷◌, ◌++◌, Text,
  ◌==◌, if◌then◌else◌, is_empty, codes, Map, get, put,
}
use mamori.Errors.{Result, ok, err, Error, wrap, sentinel, Sentinel, ◌>>=◌}
use mamori.Strings.{cut, contains_byte}

abbrev pub Vars : Type 0
Vars = Map Text

-- WithRefVars: the later call wins for each key.
unfoldable pub with_ref_vars : Vars → Vars → Vars
with_ref_vars base [] = base
with_ref_vars base ((k, v) ∷ vars) = put (with_ref_vars base vars) k v

-- The error of every refusal wraps ErrInvalid.
abbrev pub invalid_source : Error
invalid_source = wrap (sentinel Sentinel.invalid)

or_undefined : Option Text → (Text → Result Text) → Result Text
or_undefined none k = err invalid_source
or_undefined (some v) k = k v

-- What a "${" does: `rest` is what follows the '}', none if the reference is not terminated.
substitute : Vars → Text → Option Text → (Text → Result Text) → Result Text
unfolding or_undefined
substitute vars name none k = err invalid_source
substitute vars name (some rest) k =
    if is_empty name then err invalid_source else or_undefined (get vars name) k

-- strings.IndexByte(tag[i+2:], '}') is the length of the name that `cut` gives.
-- The loop of expandRefVars over what is left of the tag, with the bytes written so far. `skip` is
-- the number of bytes that an `i += n` of the loop has jumped over.
unfoldable pub scan : Vars → Text → ℕ → Text → Result Text
unfolding cut substitute
scan vars [] skip out = ok out
scan vars (c ∷ s) (suc skip) out = scan vars s skip out
scan vars (c ∷ []) zero out = ok (out ++ c ∷ [])
scan vars (c ∷ d ∷ s) zero out =
    let copy = scan vars (d ∷ s) zero (out ++ c ∷ []) in
    let literal = scan vars (d ∷ s) 1 (out ++ b'$' ∷ []) in
    let (name, rest) = cut b'}' s in
    let expand = λ (v : Text). scan vars (d ∷ s) (length name + 2) (out ++ v) in
    if c == b'$'
    then (if d == b'$'
        then literal
        else if d == b'{'
        then substitute vars name rest expand
        else copy)
    else copy

unfoldable pub expand_ref_vars : Text → Vars → Result Text
unfolding scan contains_byte
expand_ref_vars tag vars = if contains_byte b'$' tag then scan vars tag zero [] else ok tag
