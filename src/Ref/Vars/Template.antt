-- ===== src/Ref/Vars/Template.antt =====
-- refvars.go: a source tag as a template of literal texts and variables, and what expandRefVars
-- makes of it.
use mamori.Prelude.{
  ℕ, zero, ◌+◌, ◌≡◌, refl, sym, ◌∙◌, true, false, Option, none, some, List, [], ◌∷◌, ◌++◌, Text,
  ◌==◌, ==_iff, if◌then◌else◌, arith, append_assoc, append-nil, length, length-append, get,
  is_empty, Bool-cases, Option-cases, inl, inr,
}
use mamori.Errors.{Result, ok, err, ◌>>=◌}
use mamori.Strings.{contains_byte}
use mamori.Strings.Laws.{Lacks, cut-Lacks}
use mamori.Ref.Vars.{Vars, invalid_source, scan, expand_ref_vars, substitute}

pub data Segment : Type 0 where
  lit : Text → Segment
  var : Text → Segment

-- A literal '$' is written twice.
double : Text → Text
double [] = []
double (c ∷ s) = if c == b'$' then c ∷ c ∷ double s else c ∷ double s

abbrev braced : Text → Text → Text
braced name s = b'$' ∷ b'{' ∷ (name ++ b'}' ∷ s)

-- The tag that spells a template.
unfoldable pub spell : List Segment → Text
unfolding double
spell [] = []
spell (lit s ∷ segs) = double s ++ spell segs
spell (var name ∷ segs) = braced name (spell segs)

defined : Option Text → Result Text
defined none = err invalid_source
defined (some v) = ok v

-- What the template stands for: an undefined variable refuses the whole tag.
unfoldable pub meaning : Vars → List Segment → Result Text
unfolding defined
meaning vars [] = ok []
meaning vars (lit s ∷ segs) = do t ← meaning vars segs; ok (s ++ t)
meaning vars (var name ∷ segs) = do v ← defined (get vars name); t ← meaning vars segs; ok (v ++ t)

-- The names of a template are not empty and hold no '}'.
abbrev pub HasNames : List Segment → Type 0
HasNames [] = Unit
HasNames (lit s ∷ segs) = HasNames segs
HasNames (var name ∷ segs) = (is_empty name ≡ false) × Lacks b'}' name × HasNames segs

module _ (vars : Vars) where
  scan_skip : (p s out : Text) → scan vars (p ++ s) (length p) out ≡ scan vars s zero out
  unfolding scan
  scan_skip [] s out = refl
  scan_skip (c ∷ p) s out = scan_skip p s out

  scan_plain :
      (c : ℕ) (s out : Text)
      → (c == b'$') ≡ false
      → scan vars (c ∷ s) zero out ≡ scan vars s zero (out ++ c ∷ [])
  unfolding scan
  scan_plain c [] out h = refl
  scan_plain c (d ∷ s) out h = rw h

  scan_double :
      (c : ℕ) (s out : Text)
      → (c == b'$') ≡ true
      → scan vars (c ∷ c ∷ s) zero out ≡ scan vars s zero (out ++ b'$' ∷ [])
  unfolding scan
  scan_double c s out h = rw h

  scan-double : (p s out : Text) → scan vars (double p ++ s) zero out ≡ scan vars s zero (out ++ p)
  unfolding double
  scan-double [] s out = rw append-nil
  scan-double (c ∷ p) s out = elim (Bool-cases (c == b'$')) [
    | inl yes_dollar ↦ rw yes_dollar (
        scan_double c (double p ++ s) out yes_dollar
        ∙ scan-double p s (out ++ b'$' ∷ [])
        ∙ rw ((==_iff c b'$').0 yes_dollar, append_assoc))
    | inr other ↦
        rw other (
          scan_plain c (double p ++ s) out other
          ∙ scan-double p s (out ++ c ∷ [])
          ∙ rw append_assoc)
  ]

  scan_braces :
      (name s out : Text)
      → Lacks b'}' name
      → scan vars (braced name s) zero out
        ≡ substitute vars name
            (some s)
            (λ v. scan vars (b'{' ∷ (name ++ b'}' ∷ s)) (length name + 2) (out ++ v))
  unfolding scan
  scan_braces name s out h = rw (cut-Lacks b'}' name s h)

  scan_after :
      (name s out : Text)
      → scan vars (b'{' ∷ (name ++ b'}' ∷ s)) (length name + 2) out ≡ scan vars s zero out
  scan_after name s out =
      let p : Text = b'{' ∷ (name ++ b'}' ∷ []) in
      let size : length p ≡ length name + 2 = omega (arith, length-append name (b'}' ∷ [])) in
      let shape : p ++ s ≡ b'{' ∷ (name ++ b'}' ∷ s) = rw append_assoc in
      rw (← size, ← shape) (scan_skip p s out)

ok_bind : (r : Result Text) → (do t ← r; ok ([] ++ t)) ≡ r
ok_bind (ok t) = refl
ok_bind (err e) = refl

regroup :
    (r : Result Text) (out s : Text)
    → (do t ← r; ok ((out ++ s) ++ t)) ≡ (do u ← (do t ← r; ok (s ++ t)); ok (out ++ u))
regroup (ok t) out s = rw append_assoc
regroup (err e) out s = refl

module _ (vars : Vars) where
  scan-spell :
      (segs : List Segment) (out : Text)
      → HasNames segs
      → scan vars (spell segs) zero out ≡ (do t ← meaning vars segs; ok (out ++ t))
  unfolding spell meaning substitute
  scan-spell [] out h = unfold scan in rw append-nil
  scan-spell (lit s ∷ segs) out h =
      scan-double vars s (spell segs) out
      ∙ scan-spell segs (out ++ s) h
      ∙ regroup (meaning vars segs) out s
  scan-spell (var name ∷ segs) out (filled, lacks, h) = elim (Option-cases (get vars name)) [
    | inl undefined ↦ scan_braces vars name (spell segs) out lacks ∙ rw (filled, undefined)
    | inr (v, found) ↦
        scan_braces vars name (spell segs) out lacks
        ∙ rw (filled, found)
            (scan_after vars name (spell segs) (out ++ v)
              ∙ scan-spell segs (out ++ v) h
              ∙ regroup (meaning vars segs) out v)
  ]

scan-contains_byte :
    (vars : Vars) (tag out : Text)
    → contains_byte b'$' tag ≡ false
    → scan vars tag zero out ≡ ok (out ++ tag)
unfolding contains_byte
scan-contains_byte vars [] out h = unfold scan in rw append-nil
scan-contains_byte vars (c ∷ s) out h =
    scan_plain vars c s out (ground arith)
    ∙ scan-contains_byte vars s (out ++ c ∷ []) (ground arith)
    ∙ rw append_assoc

-- Expansion is substitution, whatever the template and the variables: literal text comes out as it
-- is (with '$' written twice in the tag), each ${name} comes out as the value of the variable,
-- inserted verbatim and not scanned again, and a template that names an undefined variable is
-- refused with an error that wraps ErrInvalid. Names are not empty and hold no '}'.
pub expand_ref_vars-spell :
    (segs : List Segment) (vars : Vars)
    → HasNames segs
    → expand_ref_vars (spell segs) vars ≡ meaning vars segs
unfolding expand_ref_vars
expand_ref_vars-spell segs vars h = elim (Bool-cases (contains_byte b'$' (spell segs))) [
  | inl some_dollar ↦ rw some_dollar (scan-spell vars segs [] h ∙ ok_bind (meaning vars segs))
  | inr plain ↦ rw plain (
      sym (scan-contains_byte vars (spell segs) [] plain)
      ∙ scan-spell vars segs [] h
      ∙ ok_bind (meaning vars segs))
]
