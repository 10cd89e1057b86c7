-- ===== src/Cli/Reads/Surfaces.antt =====
-- cmd/mamori/policy.go: the surfaces that read a path, by the spelling of their refs.
use mamori.Prelude.{
  ◌≡◌, refl, ap, ◌∙◌, Bool, true, inl, inr, List, [], ◌∷◌, Text, any, Bool-cases, arith,
}
use mamori.Cli.{
  Field, FieldKind, kind_source, kind_derived, kind_validate, StructInfo, granting_refs,
}
use mamori.Cli.Surface.{ref_reads, field_reads, surface_reads}
use mamori.Cli.Reads.{Spells, AnyOf, FieldReads, Reads}
use mamori.Cli.Reads.Spelling.{Spells-ref_reads, ref_reads-Spells}

module _ {A : Type 0} (test : A → Bool) (P : A → Type 0) where
  any-AnyOf : (xs : List A) → ((x : A) → test x ≡ true → P x) → any test xs ≡ true → AnyOf P xs
  any-AnyOf [] sound h = absurd (ground (arith, h))
  any-AnyOf (x ∷ xs) sound h = elim (Bool-cases (test x)) [
    | inl here ↦ inl (sound x here)
    | inr there ↦ inr (any-AnyOf xs sound (rw there at h))
  ]

  AnyOf-any : (xs : List A) → ((x : A) → P x → test x ≡ true) → AnyOf P xs → any test xs ≡ true
  AnyOf-any [] complete h = absurd h
  AnyOf-any (x ∷ xs) complete (inl here) = rw (complete x here) refl
  AnyOf-any (x ∷ xs) complete (inr there) =
      let later = AnyOf-any xs complete there in ground (arith, later)

field_reads-FieldReads :
    (scheme path : Text) (f : Field) → field_reads scheme path f ≡ true → FieldReads scheme path f
unfolding field_reads granting_refs
field_reads-FieldReads scheme path f h = of_kind f.kind refl h
  where
    of_kind :
        (k : FieldKind)
        → f.kind ≡ k
        → any (ref_reads scheme path) (granting_refs k f.refs) ≡ true
        → FieldReads scheme path f
    of_kind kind_source e g = (
      e,
      any-AnyOf (ref_reads scheme path) (Spells scheme path) f.refs (ref_reads-Spells scheme path)
          g,
    )
    of_kind kind_derived e g = absurd (ground (arith, g))
    of_kind kind_validate e g = absurd (ground (arith, g))

FieldReads-field_reads :
    (scheme path : Text) (f : Field) → FieldReads scheme path f → field_reads scheme path f ≡ true
unfolding field_reads granting_refs
FieldReads-field_reads scheme path f (source, reads) =
    ap (λ k. any (ref_reads scheme path) (granting_refs k f.refs)) source
    ∙ AnyOf-any (ref_reads scheme path) (Spells scheme path) f.refs (Spells-ref_reads scheme path)
        reads

pub surface_reads-Reads :
    (structs : List StructInfo) (scheme path : Text)
    → surface_reads structs scheme path ≡ true
    → Reads structs scheme path
unfolding surface_reads
surface_reads-Reads structs scheme path h =
    any-AnyOf (λ (s : StructInfo). any (field_reads scheme path) s.fields)
      (λ (s : StructInfo). AnyOf (FieldReads scheme path) s.fields) structs
      (λ s.
        any-AnyOf (field_reads scheme path) (FieldReads scheme path) s.fields
          (field_reads-FieldReads scheme path))
      h

pub Reads-surface_reads :
    (structs : List StructInfo) (scheme path : Text)
    → Reads structs scheme path
    → surface_reads structs scheme path ≡ true
unfolding surface_reads
Reads-surface_reads structs scheme path h =
    AnyOf-any (λ (s : StructInfo). any (field_reads scheme path) s.fields)
      (λ (s : StructInfo). AnyOf (FieldReads scheme path) s.fields) structs
      (λ s.
        AnyOf-any (field_reads scheme path) (FieldReads scheme path) s.fields
          (FieldReads-field_reads scheme path))
      h
