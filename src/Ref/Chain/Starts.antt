-- ===== src/Ref/Chain/Starts.antt =====
-- ref.go: schemeStart beside the regular expression ^\s*[a-zA-Z][a-zA-Z0-9+.\-]*:
use mamori.Prelude.{
  ℕ, ◌≤◌, ◌≡◌, refl, ap, ◌∙◌, ◌⊎◌, inl, inr, true, ◌&&◌, [], ◌∷◌, ◌++◌, Text, ◌==◌, arith, All,
  Bool-cases,
}
use mamori.Ref.Chain.{is_blank, is_letter, is_scheme_char, scheme_tail, scheme_head, scheme_start}

-- \s
abbrev Blank : ℕ → Type 0
Blank c = (c ≡ 32) ⊎ ((c ≡ 9) ⊎ ((c ≡ 10) ⊎ ((c ≡ 12) ⊎ (c ≡ 13))))

-- [a-zA-Z]
abbrev Letter : ℕ → Type 0
Letter c = ((b'a' ≤ c) × (c ≤ b'z')) ⊎ ((b'A' ≤ c) × (c ≤ b'Z'))

-- [a-zA-Z0-9+.\-]
abbrev SchemeByte : ℕ → Type 0
SchemeByte c = Letter c ⊎ (((b'0' ≤ c) × (c ≤ b'9')) ⊎ ((c ≡ b'+') ⊎ ((c ≡ b'.') ⊎ (c ≡ b'-'))))

-- A text that the regular expression matches.
abbrev pub IsStart : Text → Type 0
IsStart s =
    (blanks : Text) × (first : ℕ) × (name : Text) × (rest : Text) × (s
      ≡ blanks ++ first ∷ name ++ b':' ∷ rest)
    × All Blank blanks
    × Letter first
    × All SchemeByte name

scheme_tail_name :
    (name rest : Text) → All SchemeByte name → scheme_tail (name ++ b':' ∷ rest) ≡ true
unfolding scheme_tail
scheme_tail_name [] rest h = refl
scheme_tail_name (c ∷ name) rest (byte, h) =
    let tail = scheme_tail_name name rest h in
    let fits : is_scheme_char c ≡ true = ground (arith, byte) in ground (arith, tail, fits)

scheme_start_match :
    (blanks : Text) (first : ℕ) (name rest : Text)
    → All Blank blanks
    → Letter first
    → All SchemeByte name
    → scheme_start (blanks ++ first ∷ name ++ b':' ∷ rest) ≡ true
unfolding scheme_start scheme_head
scheme_start_match [] first name rest h letter bytes =
    let tail = scheme_tail_name name rest bytes in
    let fits : is_letter first ≡ true = ground (arith, letter) in ground (arith, tail, fits)
scheme_start_match (c ∷ blanks) first name rest (blank, h) letter bytes =
    let later = scheme_start_match blanks first name rest h letter bytes in
    let fits : is_blank c ≡ true = ground (arith, blank) in ground (arith, later, fits)

pub scheme_start-IsStart : (s : Text) → IsStart s → scheme_start s ≡ true
scheme_start-IsStart s (blanks, first, name, rest, shape, h, letter, bytes) =
    ap scheme_start shape ∙ scheme_start_match blanks first name rest h letter bytes

tail_parts :
    (s : Text)
    → scheme_tail s ≡ true
    → (name : Text) × (rest : Text) × (s ≡ name ++ b':' ∷ rest) × All SchemeByte name
unfolding scheme_tail
tail_parts [] h = absurd (ground (arith, h))
tail_parts (c ∷ s) h = elim (Bool-cases (c == b':')) [
  | inl colon ↦ let same : c ≡ b':' = ground (arith, colon) in ([], s, ap (λ d. d ∷ s) same, tt)
  | inr other ↦
      let byte : SchemeByte c = ground (arith, h, other) in
      let (name, rest, shape, bytes) = tail_parts s (ground (arith, h, other)) in
      (c ∷ name, rest, ap (λ l. c ∷ l) shape, (byte, bytes))
]

IsStart-cons : (c : ℕ) (s : Text) → Blank c → IsStart s → IsStart (c ∷ s)
IsStart-cons c s blank (blanks, first, name, rest, shape, bs, letter, bytes) =
    (c ∷ blanks, first, name, rest, ap (λ l. c ∷ l) shape, (blank, bs), letter, bytes)

pub IsStart-scheme_start : (s : Text) → scheme_start s ≡ true → IsStart s
unfolding scheme_start scheme_head
IsStart-scheme_start [] h = absurd (ground (arith, h))
IsStart-scheme_start (c ∷ s) h = elim (Bool-cases (is_blank c && scheme_start s)) [
  | inl later ↦
      IsStart-cons c s (ground (arith, later)) (IsStart-scheme_start s (ground (arith, later)))
  | inr now ↦
      let head : (is_letter c && scheme_tail s) ≡ true = rw now at h in
      let (name, rest, shape, bytes) = tail_parts s (ground (arith, head)) in
      ([], c, name, rest, ap (λ l. c ∷ l) shape, tt, ground (arith, head), bytes)
]
