-- ===== src/Cli/Reads.antt =====
-- cmd/mamori/policy.go: what a ref reads by its spelling, beside the scheme and the path that the tool
-- takes out of it.
pub mod Spelling
pub mod Surfaces
use mamori.Prelude.{
  ◌≡◌, ◌≢◌, ◌⊎◌, refl, sym, subst, ap, ◌∙◌, Bool, true, false, ◌&&◌, ◌||◌, inl, inr, Option, none,
  some, List, [], ◌∷◌, ◌++◌, Text, ◌==◌, str_eq, str_eq_iff, str_eq_refl, is_empty, any, Bool-cases,
  Option-cases, append_assoc, arith, ℕ,
}
use mamori.Strings.{cut, strip, trim_space, trim_prefix}
use mamori.Strings.Laws.{Lacks, cut-Lacks, trim_prefix-append}
use mamori.Cli.{
  Field, FieldKind, kind_source, kind_derived, kind_validate, StructInfo, scheme_of, scheme_part,
  ref_path, path_behind, before_marks, granting_refs,
}
use mamori.Cli.Surface.{ref_reads, field_reads, surface_reads}

abbrev pub two_slashes : Text
two_slashes = b'/' ∷ b'/' ∷ []

-- What stands behind a path: nothing, or a text from a '#' or a '?' on.
abbrev pub Marked : Text → Type 0
Marked [] = Unit
Marked (c ∷ s) = (c ≡ b'#') ⊎ (c ≡ b'?')

-- "//", or nothing where the text does not go on with it.
abbrev pub Slashes : Text → Text → Type 0
Slashes slashes body = (slashes ≡ two_slashes) ⊎ ((slashes ≡ []) × (strip two_slashes body ≡ none))

-- A ref whose scheme and path are these: between blanks, `scheme:path` or `scheme://path`, and then a
-- key, options or nothing. The path is all that stands before the first '#' or '?'.
abbrev pub Spells : Text → Text → Text → Type 0
Spells scheme path ref =
    (slashes : Text) × (rest : Text) × (trim_space ref
      ≡ scheme ++ b':' ∷ (slashes ++ (path ++ rest)))
    × (is_empty scheme ≡ false)
    × Lacks b':' scheme
    × Slashes slashes (path ++ rest)
    × Lacks b'#' path
    × Lacks b'?' path
    × Marked rest

abbrev pub AnyOf : {A : Type 0} → (A → Type 0) → List A → Type 0
AnyOf P [] = ⊥
AnyOf P (x ∷ xs) = P x ⊎ AnyOf P xs

-- A field of a kind that takes its value from its refs has such a ref.
abbrev pub FieldReads : Text → Text → Field → Type 0
FieldReads scheme path f = (f.kind ≡ kind_source) × AnyOf (Spells scheme path) f.refs

-- Some field of some struct of a surface.
abbrev pub Reads : List StructInfo → Text → Text → Type 0
Reads structs scheme path =
    AnyOf (λ (s : StructInfo). AnyOf (FieldReads scheme path) s.fields) structs

pub before_marks-Marked :
    (path rest : Text)
    → Lacks b'#' path
    → Lacks b'?' path
    → Marked rest
    → before_marks (path ++ rest) ≡ path
unfolding before_marks
before_marks-Marked [] [] h q m = refl
before_marks-Marked [] (c ∷ rest) h q m = ground (arith, m)
before_marks-Marked (c ∷ path) rest (hc, h) (qc, q) m =
    let later = before_marks-Marked path rest h q m in ground (arith, hc, qc, later)

pub parts_of :
    (body : Text)
    → (rest : Text) × (body ≡ before_marks body ++ rest)
      × Lacks b'#' (before_marks body)
      × Lacks b'?' (before_marks body)
      × Marked rest
unfolding before_marks
parts_of [] = ([], refl, tt, tt, tt)
parts_of (c ∷ s) = elim (Bool-cases ((c == b'#') || (c == b'?'))) [
  | inl mark ↦
      let at_mark : Marked (c ∷ s) = ground (arith, mark) in rw mark (c ∷ s, refl, tt, tt, at_mark)
  | inr inside ↦
      let (rest, shape, h, q, m) = parts_of s in
      let not_hash : c ≢ b'#' = λ e. ground (arith, inside, e) in
      let not_query : c ≢ b'?' = λ e. ground (arith, inside, e) in
      rw inside (rest, ap (λ l. c ∷ l) shape, (not_hash, h), (not_query, q), m)
]

pub trim_prefix-Slashes :
    (slashes body : Text) → Slashes slashes body → trim_prefix two_slashes (slashes ++ body) ≡ body
unfolding trim_prefix
trim_prefix-Slashes slashes body (inl both) =
    ap (λ s. trim_prefix two_slashes (s ++ body)) both ∙ trim_prefix-append two_slashes body
trim_prefix-Slashes slashes body (inr (no_slash, bare)) =
    ap (λ s. trim_prefix two_slashes (s ++ body)) no_slash ∙ rw (trim_prefix, bare) refl

strip-shape : (p s rest : Text) → strip p s ≡ some rest → s ≡ p ++ rest
unfolding strip
strip-shape [] s rest h = ground (arith, h)
strip-shape (c ∷ p) [] rest h = absurd (ground (arith, h))
strip-shape (c ∷ p) (d ∷ s) rest h = elim (Bool-cases (d == c)) [
  | inl same ↦
      let equal : d ≡ c = ground (arith, same) in
      let tail : s ≡ p ++ rest = strip-shape p s rest (rw same at h) in ground (arith, equal, tail)
  | inr other ↦ absurd (ground (arith, h, other))
]

pub slashed_front :
    (b : Text)
    → (slashes : Text) × (b ≡ slashes ++ trim_prefix two_slashes b)
      × Slashes slashes (trim_prefix two_slashes b)
unfolding trim_prefix
slashed_front b = elim (Option-cases (strip two_slashes b)) [
  | inl bare ↦ rw bare ([], refl, inr (refl, bare))
  | inr (rest, found) ↦ rw found (two_slashes, strip-shape two_slashes b rest found, inl refl)
]
