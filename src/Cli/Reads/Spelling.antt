-- ===== src/Cli/Reads/Spelling.antt =====
-- cmd/mamori/policy.go: the gate reads a scheme and a path in a ref exactly if the ref spells them.
use mamori.Prelude.{
  ◌≡◌, ◌≢◌, refl, sym, subst, ap, ◌∙◌, Bool, true, false, ◌&&◌, inl, inr, Option, none, some, [],
  ◌∷◌, ◌++◌, Text, ◌==◌, str_eq, str_eq_iff, str_eq_refl, is_empty, Bool-cases, Option-cases,
  append_assoc, arith, ℕ,
}
use mamori.Strings.{cut, trim_space, trim_prefix}
use mamori.Strings.Laws.{Lacks, cut-Lacks, trim_prefix-append}
use mamori.Cli.{scheme_of, scheme_part, ref_path, path_behind, before_marks}
use mamori.Cli.Surface.{ref_reads}
use mamori.Cli.Reads.{
  two_slashes, Slashes, Spells, trim_prefix-Slashes, before_marks-Marked, parts_of, slashed_front,
}

cut_parts : (sep : ℕ) (t a b : Text) → cut sep t ≡ (a, some b) → (t ≡ a ++ sep ∷ b) × Lacks sep a
unfolding cut
cut_parts sep [] a b h = absurd (ground (arith, h))
cut_parts sep (c ∷ t) a b h = elim (Bool-cases (c == sep)) [
  | inl here ↦
      let same : c ≡ sep = ground (arith, here) in
      let found : ◌≡◌ {A = Text × Option Text} ([], some t) (a, some b) = rw here at h in
      let front : [] ≡ a = ground (arith, found) in
      let back : t ≡ b = ground (arith, found) in
      subst (λ x. (c ∷ t ≡ x ++ sep ∷ b) × Lacks sep x) front
        (ap (λ d. d ∷ t) same ∙ ap (λ l. sep ∷ l) back, tt)
  | inr there ↦
      longer (cut sep t) refl (rw there at h) (λ e. ground (arith, there, e))
        (λ front back. cut_parts sep t front back)
]
  where
    longer :
        (x : Text × Option Text)
        → cut sep t ≡ x
        → ◌≡◌ {A = Text × Option Text} (c ∷ x.0, x.1) (a, some b)
        → c ≢ sep
        → ((front back : Text)
            → cut sep t ≡ (front, some back)
            → (t ≡ front ++ sep ∷ back) × Lacks sep front)
        → (c ∷ t ≡ a ++ sep ∷ b) × Lacks sep a
    longer (front, none) e same other parts = absurd (ground (arith, same))
    longer (front, some back) e same other parts =
        let (shape, lacks) = parts front back e in
        let begins : c ∷ front ≡ a = ground (arith, same) in
        let ends : back ≡ b = ground (arith, same) in
        subst (λ x. (c ∷ t ≡ x ++ sep ∷ b) × Lacks sep x) begins
          (ap (λ l. c ∷ l) (shape ∙ ap (λ l. front ++ sep ∷ l) ends), (other, lacks))

scheme_parts :
    (ref s : Text)
    → scheme_of ref ≡ some s
    → (tail : Text) × (trim_space ref ≡ s ++ b':' ∷ tail) × (is_empty s ≡ false) × Lacks b':' s
unfolding scheme_of scheme_part
scheme_parts ref s h = of_cut (cut b':' (trim_space ref)) refl h
  where
    of_cut :
        (x : Text × Option Text)
        → cut b':' (trim_space ref) ≡ x
        → scheme_part x ≡ some s
        → (tail : Text) × (trim_space ref ≡ s ++ b':' ∷ tail) × (is_empty s ≡ false) × Lacks b':' s
    of_cut (a, none) e k = absurd (ground (arith, k))
    of_cut (a, some tail) e k =
        let (shape, lacks) = cut_parts b':' (trim_space ref) a tail e in
        let given : is_empty a ≡ false = ground (arith, k) in
        let same : a ≡ s = ground (arith, k) in
        subst
          (λ x.
            (tail : Text) × (trim_space ref ≡ x ++ b':' ∷ tail)
            × (is_empty x ≡ false)
            × Lacks b':' x)
          same (tail, shape, given, lacks)

behind_scheme :
    (ref scheme tail : Text)
    → trim_space ref ≡ scheme ++ b':' ∷ tail
    → path_behind ref (some scheme) ≡ before_marks (trim_prefix two_slashes tail)
unfolding path_behind
behind_scheme ref scheme tail shape =
    ap (λ t. before_marks (trim_prefix two_slashes (trim_prefix (scheme ++ b':' ∷ []) t)))
      (shape ∙ sym (append_assoc scheme (b':' ∷ []) tail))
    ∙ ap (λ t. before_marks (trim_prefix two_slashes t))
        (trim_prefix-append (scheme ++ b':' ∷ []) tail)

Spells-scheme_of :
    (scheme tail ref : Text)
    → trim_space ref ≡ scheme ++ b':' ∷ tail
    → is_empty scheme ≡ false
    → Lacks b':' scheme
    → scheme_of ref ≡ some scheme
unfolding scheme_of scheme_part
Spells-scheme_of scheme tail ref shape given lacks =
    ap scheme_part (ap (cut b':') shape ∙ cut-Lacks b':' scheme tail lacks) ∙ rw given refl

ref_path_found : (ref s : Text) → scheme_of ref ≡ some s → ref_path ref ≡ path_behind ref (some s)
unfolding ref_path
ref_path_found ref s found = ap (path_behind ref) found

ref_reads_found :
    (scheme path ref s : Text)
    → scheme_of ref ≡ some s
    → ref_reads scheme path ref ≡ (str_eq s scheme && str_eq (path_behind ref (some s)) path)
unfolding ref_reads
ref_reads_found scheme path ref s found =
    let test : Option Text → Text → Bool =
      λ o p. elim o [ none ↦ false | some x ↦ str_eq x scheme && str_eq p path ] in
    ap (λ o. test o (ref_path ref)) found ∙ ap (test (some s)) (ref_path_found ref s found)

pub Spells-ref_reads :
    (scheme path ref : Text) → Spells scheme path ref → ref_reads scheme path ref ≡ true
Spells-ref_reads scheme path ref
      (slashes, rest, shape, given, no_colon, slashed, no_hash, no_query, m) =
    let tail = slashes ++ (path ++ rest) in
    let found : scheme_of ref ≡ some scheme =
      Spells-scheme_of scheme tail ref shape given no_colon in
    let path_found : path_behind ref (some scheme) ≡ path =
      behind_scheme ref scheme tail shape
      ∙ ap before_marks (trim_prefix-Slashes slashes (path ++ rest) slashed)
      ∙ before_marks-Marked path rest no_hash no_query m in
    ref_reads_found scheme path ref scheme found
    ∙ rw (path_found, str_eq_refl scheme, str_eq_refl path) refl

spelled :
    (ref scheme : Text)
    → scheme_of ref ≡ some scheme
    → Spells scheme (path_behind ref (some scheme)) ref
spelled ref scheme found =
    let (tail, shape, given, no_colon) = scheme_parts ref scheme found in
    let (slashes, tail_shape, slashed) = slashed_front tail in
    let body = trim_prefix two_slashes tail in
    let (rest, body_shape, no_hash, no_query, m) = parts_of body in
    subst (λ p. Spells scheme p ref) (sym (behind_scheme ref scheme tail shape))
      (
        slashes,
        rest,
        shape ∙ ap (λ l. scheme ++ b':' ∷ l) (tail_shape ∙ ap (λ l. slashes ++ l) body_shape),
        given,
        no_colon,
        subst (Slashes slashes) body_shape slashed,
        no_hash,
        no_query,
        m,
      )

pub ref_reads-Spells :
    (scheme path ref : Text) → ref_reads scheme path ref ≡ true → Spells scheme path ref
unfolding ref_reads
ref_reads-Spells scheme path ref h = elim (Option-cases (scheme_of ref)) [
  | inl none_there ↦
      let no : ◌≡◌ {A = Bool} false true = rw (ref_reads, none_there) at h in absurd (ground arith)
  | inr (s, found) ↦
      let both : (str_eq s scheme && str_eq (path_behind ref (some s)) path) ≡ true =
        sym (ref_reads_found scheme path ref s found) ∙ h in
      let same_scheme : s ≡ scheme = (str_eq_iff s scheme).0 (ground (arith, both)) in
      let same_path : path_behind ref (some s) ≡ path =
        (str_eq_iff (path_behind ref (some s)) path).0 (ground (arith, both)) in
      subst (λ x. Spells x path ref) same_scheme
        (subst (λ p. Spells s p ref) same_path (spelled ref s found))
]
