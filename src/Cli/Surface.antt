-- ===== src/Cli/Surface.antt =====
-- cmd/mamori/policy.go: what a config surface reads.
use mamori.Prelude.{
  ◌≡◌, refl, sym, ap, ◌∙◌, Bool, true, false, ◌&&◌, ◌||◌, inl, inr, Option, none, some, List, [],
  ◌∷◌, ◌++◌, Text, if◌then◌else◌, get, put, get-put, member, str_eq, str_eq_iff, any, Bool-cases,
  arith,
}
use mamori.Cli.{
  Field, StructInfo, PolicyRefs, bucket, scheme_of, ref_path, add_ref, add_refs, granting_refs,
  add_fields, add_structs,
}

-- A ref that reads the path under the scheme.
unfoldable pub ref_reads : Text → Text → Text → Bool
ref_reads scheme path ref = elim (scheme_of ref) [
  | none ↦ false
  | some s ↦ str_eq s scheme && str_eq (ref_path ref) path
]

-- Some source field of a surface, at some place of its chain.
unfoldable pub field_reads : Text → Text → Field → Bool
field_reads scheme path f = any (ref_reads scheme path) (granting_refs f.kind f.refs)

unfoldable pub surface_reads : List StructInfo → Text → Text → Bool
surface_reads structs scheme path =
    any (λ (s : StructInfo). any (field_reads scheme path) s.fields) structs

pub member-append :
    (xs ys : List Text) (p : Text) → member (xs ++ ys) p ≡ (member xs p || member ys p)
unfolding member
member-append [] ys p = refl
member-append (x ∷ xs) ys p = ground (arith, member-append xs ys p)

abbrev pub paths_of : Option (List Text) → List Text
paths_of o = elim o [ none ↦ [] | some paths ↦ paths ]

bucket-put :
    (m : PolicyRefs) (s scheme : Text) (paths : List Text)
    → bucket (put m s paths) scheme ≡ (if str_eq s scheme then paths else bucket m scheme)
bucket-put m s scheme paths = elim (Bool-cases (str_eq s scheme)) [
  | inl same ↦
      let here : get (put m s paths) scheme ≡ some paths =
        get-put m s scheme paths ∙ rw same refl in
      ap paths_of here ∙ rw same refl
  | inr other ↦
      let there : get (put m s paths) scheme ≡ get m scheme =
        get-put m s scheme paths ∙ rw other refl in
      ap paths_of there ∙ rw other refl
]

pub or_false : (b : Bool) → b ≡ (b || false)
or_false true = refl
or_false false = refl

member_one : (q path : Text) → member (q ∷ []) path ≡ str_eq q path
unfolding member
member_one q path = sym (or_false (str_eq q path))

rotate : (a b c : Bool) → (a || (b || c)) ≡ ((c || a) || b)
rotate true b true = refl
rotate true b false = refl
rotate false true true = refl
rotate false false true = refl
rotate false true false = refl
rotate false false false = refl

pub swap : (a b c : Bool) → (a || (b || c)) ≡ ((b || a) || c)
swap true true c = refl
swap true false c = refl
swap false true c = refl
swap false false c = refl

module _ (scheme path : Text) where
  abbrev pub holds : PolicyRefs → Bool
  holds m = member (bucket m scheme) path

  abbrev scheme_reads : Option Text → Text → Bool
  scheme_reads o ref = elim o [
    | none ↦ false
    | some s ↦ str_eq s scheme && str_eq (ref_path ref) path
  ]

  holds-add_ref :
      (o : Option Text) (ref : Text) (m : PolicyRefs)
      → holds (add_ref o ref m) ≡ (holds m || scheme_reads o ref)
  unfolding add_ref
  holds-add_ref none ref m = or_false (holds m)
  holds-add_ref (some s) ref m =
      let paths = bucket m s ++ ref_path ref ∷ [] in
      ap (λ l. member l path) (bucket-put m s scheme paths) ∙ (elim (Bool-cases (str_eq s scheme)) [
        | inr other ↦ rw other (or_false (holds m))
        | inl same ↦
            let here : s ≡ scheme = (str_eq_iff s scheme).0 same in
            let added : member paths path ≡ (holds m || str_eq (ref_path ref) path) =
              member-append (bucket m s) (ref_path ref ∷ []) path
              ∙ ap (λ b. member (bucket m s) path || b) (member_one (ref_path ref) path)
              ∙ ap (λ k. member (bucket m k) path || str_eq (ref_path ref) path) here in
            rw same added
      ])

  holds-add_refs :
      (refs : List Text) (m : PolicyRefs)
      → holds (add_refs refs m) ≡ (any (ref_reads scheme path) refs || holds m)
  unfolding add_refs ref_reads
  holds-add_refs [] m = refl
  holds-add_refs (ref ∷ refs) m =
      holds-add_refs refs (add_ref (scheme_of ref) ref m)
      ∙ ap (λ b. any (ref_reads scheme path) refs || b) (holds-add_ref (scheme_of ref) ref m)
      ∙ rotate (any (ref_reads scheme path) refs) (holds m) (scheme_reads (scheme_of ref) ref)

  holds-add_fields :
      (fields : List Field) (m : PolicyRefs)
      → holds (add_fields fields m) ≡ (any (field_reads scheme path) fields || holds m)
  unfolding add_fields field_reads
  holds-add_fields [] m = refl
  holds-add_fields (f ∷ fields) m =
      let refs = granting_refs f.kind f.refs in
      holds-add_fields fields (add_refs refs m)
      ∙ ap (λ b. any (field_reads scheme path) fields || b) (holds-add_refs refs m)
      ∙ swap (any (field_reads scheme path) fields) (any (ref_reads scheme path) refs) (holds m)

  pub holds-add_structs :
      (structs : List StructInfo) (m : PolicyRefs)
      → holds (add_structs structs m) ≡ (surface_reads structs scheme path || holds m)
  unfolding add_structs surface_reads
  holds-add_structs [] m = refl
  holds-add_structs (s ∷ structs) m =
      holds-add_structs structs (add_fields s.fields m)
      ∙ ap (λ b. any (λ (t : StructInfo). any (field_reads scheme path) t.fields) structs || b)
          (holds-add_fields s.fields m)
      ∙ swap (any (λ (t : StructInfo). any (field_reads scheme path) t.fields) structs)
          (any (field_reads scheme path) s.fields) (holds m)
