-- ===== src/Pointer/RoundTrip.antt =====
-- jsonpointer.go: pointers as RFC 6901 writes them.
use mamori.Prelude.{
  ℕ, ◌≡◌, refl, sym, ap, ◌∙◌, false, inl, inr, List, [], ◌∷◌, ◌++◌, Text, if◌then◌else◌, ◌==◌,
  ==_iff, Bool-cases, arith, any, drop, map, append-nil,
}
use mamori.Errors.{Result, ok, ◌>>=◌, bind_same}
use mamori.Strings.{split, contains_byte}
use mamori.Strings.Laws.{Lacks}
use mamori.Pointer.{
  JsonReader, unescape_loop, unescape_token, descend, walk, unquote_json, select_pointer,
  select_key,
}

-- The rule of RFC 6901, section 3: ~ is written ~0, and / is written ~1.
pub escape : Text → Text
escape [] = []
escape (c ∷ tok) =
    let rest = escape tok in
    if c == b'~' then b'~' ∷ b'0' ∷ rest else if c == b'/' then b'~' ∷ b'1' ∷ rest else c ∷ rest

pub pointer : List Text → Text
pointer [] = []
pointer (tok ∷ toks) = b'/' ∷ escape tok ++ pointer toks

unescape_plain :
    (c : ℕ) (s : Text)
    → (c == b'~') ≡ false
    → unescape_loop (c ∷ s) ≡ (do rest ← unescape_loop s; ok (c ∷ rest))
unfolding unescape_loop
unescape_plain c [] h = rw h refl
unescape_plain c (d ∷ s) h = rw h refl

unescape_loop-escape : (tok : Text) → unescape_loop (escape tok) ≡ ok tok
unfolding unescape_loop escape
unescape_loop-escape [] = refl
unescape_loop-escape (c ∷ tok) = elim (Bool-cases (c == b'~')) [
  | inl tilde ↦ rw (tilde, unescape_loop-escape tok, (==_iff c b'~').0 tilde) refl
  | inr other ↦ elim (Bool-cases (c == b'/')) [
    | inl slash ↦ rw (other, slash, unescape_loop-escape tok, (==_iff c b'/').0 slash) refl
    | inr plain ↦
        rw (other, plain) (unescape_plain c (escape tok) other ∙ rw (unescape_loop-escape tok) refl)
  ]
]

unescape_loop-plain : (s : Text) → contains_byte b'~' s ≡ false → unescape_loop s ≡ ok s
unfolding contains_byte unescape_loop
unescape_loop-plain [] h = refl
unescape_loop-plain (c ∷ s) h =
    let other : (c == b'~') ≡ false = ground (arith, h) in
    let rest : any (λ d. d == b'~') s ≡ false = ground (arith, h) in
    unescape_plain c s other ∙ rw (unescape_loop-plain s rest) refl

unescape_token-loop : (s : Text) → unescape_token s ≡ unescape_loop s
unfolding unescape_token
unescape_token-loop s = elim (Bool-cases (contains_byte b'~' s)) [
  | inl some_tilde ↦ rw some_tilde refl
  | inr no_tilde ↦ rw no_tilde (sym (unescape_loop-plain s no_tilde))
]

pub unescape_token-escape : (tok : Text) → unescape_token (escape tok) ≡ ok tok
unescape_token-escape tok = unescape_token-loop (escape tok) ∙ unescape_loop-escape tok

escape-Lacks : (tok : Text) → Lacks b'/' (escape tok)
unfolding escape
escape-Lacks [] = tt
escape-Lacks (c ∷ tok) = elim (Bool-cases (c == b'~')) [
  | inl tilde ↦ rw tilde (omega arith, (omega arith, escape-Lacks tok))
  | inr other ↦ elim (Bool-cases (c == b'/')) [
    | inl slash ↦ rw (other, slash) (omega arith, (omega arith, escape-Lacks tok))
    | inr plain ↦ rw (other, plain) (ground (arith, plain), escape-Lacks tok)
  ]
]

split-Lacks :
    (sep : ℕ) (p s : Text) (first : Text) (parts : List Text)
    → Lacks sep p
    → split sep s ≡ first ∷ parts
    → split sep (p ++ s) ≡ (p ++ first) ∷ parts
unfolding split
split-Lacks sep [] s first parts h here = here
split-Lacks sep (c ∷ p) s first parts (other, h) here =
    let apart : (c == sep) ≡ false = ground (arith, other) in
    rw (apart, split-Lacks sep p s first parts h here) refl

split-pointer : (toks : List Text) → split b'/' (pointer toks) ≡ [] ∷ map escape toks
unfolding split pointer
split-pointer [] = refl
split-pointer (tok ∷ toks) =
    ap (λ l. [] ∷ l)
      (split-Lacks b'/' (escape tok) (pointer toks) [] (map escape toks) (escape-Lacks tok)
          (split-pointer toks)
        ∙ ap (λ t. t ∷ map escape toks) (append-nil (escape tok)))

module _ (json : JsonReader) where
  -- One token after the other, without any escapes.
  pub follow : Text → List Text → Result Text
  follow node [] = ok node
  follow node (tok ∷ toks) = do below ← descend json node tok; follow below toks

  walk-escape :
      (node : Text) (toks : List Text) → walk json node (map escape toks) ≡ follow node toks
  unfolding walk follow
  walk-escape node [] = refl
  walk-escape node (tok ∷ toks) =
      ap (λ r. do t ← r; below ← descend json node t; walk json below (map escape toks))
        (unescape_token-escape tok)
      ∙ bind_same (descend json node tok) _ _ (λ below. walk-escape below toks)

  -- For any tokens, one at least, of any bytes: SelectKey of the pointer that RFC 6901 writes for them
  -- follows just these tokens from the document on, one level for each, with the failure of the first
  -- that fails, and then reads a string as its contents.
  pub select_key-pointer :
      (doc tok : Text) (toks : List Text)
      → select_key json doc (pointer (tok ∷ toks))
        ≡ (do node ← follow doc (tok ∷ toks); ok (unquote_json json node))
  unfolding select_key select_pointer pointer
  select_key-pointer doc tok toks =
      ap (λ parts. do node ← walk json doc (drop 1 parts); ok (unquote_json json node))
        (split-pointer (tok ∷ toks))
      ∙ ap (λ r. do node ← r; ok (unquote_json json node)) (walk-escape doc (tok ∷ toks))
