-- ===== src/Engine/Flush/Revert.antt =====
-- reconciler.go: the versions that a rejected candidate had marked as applied.
use mamori.Prelude.{
  ◌≡◌, refl, sym, ap, ◌∙◌, true, false, none, some, List, [], ◌∷◌, ◌++◌, Text, if◌then◌else◌, arith,
  Map, get, put, str_eq, str_eq_iff, get-put, Bool-cases, Option-cases, inl, inr, All,
}
use mamori.Value.{Value, FieldSpec}
use mamori.Engine.State.{FieldChange, Options, applied_at}
use mamori.Engine.Candidate.{diff_fields, has_spec_path, derived_field_changes}
use mamori.Engine.Candidate.Derived.{derived_field_changes-IsDerived}
use mamori.Engine.Flush.{revert}

pub applied_at-put :
    (m : Map Text) (k p v : Text)
    → applied_at (put m k v) p ≡ (if str_eq k p then v else applied_at m p)
unfolding applied_at
applied_at-put m k p v = rw get-put (ground arith)

-- What reverting a list of changes leaves at a path, when `d` stood there.
old_at : List FieldChange → Text → Text → Text
old_at [] p d = d
old_at (f ∷ fs) p d = old_at fs p (if str_eq f.path p then f.old_version else d)

applied_at-revert :
    (fs : List FieldChange) (m : Map Text) (p : Text)
    → applied_at (revert fs m) p ≡ old_at fs p (applied_at m p)
unfolding revert old_at
applied_at-revert [] m p = refl
applied_at-revert (f ∷ fs) m p =
    applied_at-revert fs (put m f.path f.old_version) p
    ∙ ap (old_at fs p) (applied_at-put m f.path p f.old_version)

old_at-append :
    (fs gs : List FieldChange) (p d : Text) → old_at (fs ++ gs) p d ≡ old_at gs p (old_at fs p d)
unfolding old_at
old_at-append [] gs p d = refl
old_at-append (f ∷ fs) gs p d = old_at-append fs gs p _

-- The three ways in which one spec is compared.
module _ (spec : FieldSpec) (specs : List FieldSpec) (observed : Map Value)
    (applied : Map Text) where
  diff_unobserved :
      get observed spec.path ≡ none
      → diff_fields (spec ∷ specs) observed applied ≡ diff_fields specs observed applied
  unfolding diff_fields
  diff_unobserved h = rw (h, diff_fields) refl

  diff_same :
      (w : Value)
      → get observed spec.path ≡ some w
      → str_eq (applied_at applied spec.path) w.version ≡ true
      → diff_fields (spec ∷ specs) observed applied ≡ diff_fields specs observed applied
  unfolding diff_fields
  diff_same w h s = rw (h, diff_fields) (rw s refl)

  diff_changed :
      (w : Value)
      → get observed spec.path ≡ some w
      → str_eq (applied_at applied spec.path) w.version ≡ false
      → diff_fields (spec ∷ specs) observed applied ≡ (
        record {
          path = spec.path;
          old_version = applied_at applied spec.path;
          new_version = w.version;
        }
            ∷ (diff_fields specs observed (put applied spec.path w.version)).0,
        (diff_fields specs observed (put applied spec.path w.version)).1,
      )
  unfolding diff_fields
  diff_changed w h s = rw (h, diff_fields) (rw s refl)

-- A field whose observed version is applied is not listed.
old_at-settled :
    (specs : List FieldSpec) (observed : Map Value) (applied : Map Text) (p : Text) {v : Value}
    (d : Text)
    → get observed p ≡ some v
    → applied_at applied p ≡ v.version
    → old_at (diff_fields specs observed applied).0 p d ≡ d
unfolding old_at
old_at-settled [] observed applied p d h s = unfold diff_fields in refl
old_at-settled (spec ∷ specs) observed applied p {v} d h s =
    elim (Option-cases (get observed spec.path)) [
      | inl nothing ↦
          rw (diff_unobserved spec specs observed applied nothing)
            (old_at-settled specs observed applied p d h s)
      | inr (w, there) ↦ elim (Bool-cases (str_eq (applied_at applied spec.path) w.version)) [
        | inl same ↦
            rw (diff_same spec specs observed applied w there same)
              (old_at-settled specs observed applied p d h s)
        | inr differs ↦ elim (Bool-cases (str_eq spec.path p)) [
          | inl here ↦
              let e : spec.path ≡ p = (str_eq_iff spec.path p).0 here in
              let w_is_v : some w ≡ some v = sym there ∙ ap (get observed) e ∙ h in
              let version : w.version ≡ v.version = ground arith in
              let equal : applied_at applied spec.path ≡ w.version =
                ap (applied_at applied) e ∙ s ∙ sym version in
              absurd (ground (arith, (str_eq_iff (applied_at applied spec.path) w.version).1 equal))
          | inr elsewhere ↦
              let kept : applied_at (put applied spec.path w.version) p ≡ v.version =
                applied_at-put applied spec.path p w.version ∙ rw elsewhere s in
              rw (diff_changed spec specs observed applied w there differs, old_at, elsewhere)
                (old_at-settled specs observed (put applied spec.path w.version) p d h kept)
        ]
      ]
    ]

-- Reverting what diff_fields lists undoes what it applied, at every path.
old_at-diff :
    (specs : List FieldSpec) (observed : Map Value) (applied : Map Text) (p : Text)
    → old_at
        (diff_fields specs observed applied).0
        p
        (applied_at (diff_fields specs observed applied).1 p)
      ≡ applied_at applied p
unfolding old_at
old_at-diff [] observed applied p = unfold diff_fields in refl
old_at-diff (spec ∷ specs) observed applied p = elim (Option-cases (get observed spec.path)) [
  | inl nothing ↦
      rw (diff_unobserved spec specs observed applied nothing)
        (old_at-diff specs observed applied p)
  | inr (w, there) ↦ elim (Bool-cases (str_eq (applied_at applied spec.path) w.version)) [
    | inl same ↦
        rw (diff_same spec specs observed applied w there same)
          (old_at-diff specs observed applied p)
    | inr differs ↦
        let applied' = put applied spec.path w.version in
        elim (Bool-cases (str_eq spec.path p)) [
          | inl here ↦
              let e : spec.path ≡ p = (str_eq_iff spec.path p).0 here in
              let at_p : applied_at applied' p ≡ w.version =
                applied_at-put applied spec.path p w.version ∙ rw here refl in
              rw (diff_changed spec specs observed applied w there differs, old_at, here)
                (old_at-settled specs observed applied' p _ (ap (get observed) (sym e) ∙ there) at_p
                  ∙ ap (applied_at applied) e)
          | inr elsewhere ↦
              rw (diff_changed spec specs observed applied w there differs, old_at, elsewhere)
                (old_at-diff specs observed applied' p
                  ∙ applied_at-put applied spec.path p w.version
                  ∙ rw elsewhere refl)
        ]
  ]
]

-- The changes of derived fields name no path of a spec, so that they leave every such path alone.
module _ (specs : List FieldSpec) where
  abbrev IsDerived : FieldChange → Type 0
  IsDerived f = has_spec_path specs f.path ≡ false

  old_at-IsDerived :
      (fs : List FieldChange) (p d : Text)
      → All IsDerived fs
      → has_spec_path specs p ≡ true
      → old_at fs p d ≡ d
  unfolding old_at
  old_at-IsDerived [] p d a h = refl
  old_at-IsDerived (f ∷ fs) p d (here, a) h =
      let differs : str_eq f.path p ≡ false = ground (arith, str_eq_iff f.path p) in
      rw differs (old_at-IsDerived fs p d a h)

-- At every path of a spec, reverting a candidate's changes restores the versions that were applied.
pub revert-diff_fields :
    {T L : Type 0} (o : Options T L) (observed : Map Value) (applied : Map Text)
    (old_cfg new_cfg : T) (p : Text)
    → has_spec_path o.specs p ≡ true
    → applied_at
        (revert
          ((diff_fields o.specs observed applied).0
            ++ derived_field_changes o.host old_cfg new_cfg o.derives o.specs)
          (diff_fields o.specs observed applied).1)
        p
      ≡ applied_at applied p
revert-diff_fields o observed applied old_cfg new_cfg p h =
    let fs = (diff_fields o.specs observed applied).0 in
    let gs = derived_field_changes o.host old_cfg new_cfg o.derives o.specs in
    applied_at-revert (fs ++ gs) _ p
    ∙ old_at-append fs gs p _
    ∙ old_at-IsDerived o.specs gs p _
        (derived_field_changes-IsDerived o.host o.specs old_cfg new_cfg o.derives) h
    ∙ old_at-diff o.specs observed applied p

-- No change listed, nothing applied.
pub diff_fields-nil :
    (specs : List FieldSpec) (observed : Map Value) (applied : Map Text) (p : Text)
    → (diff_fields specs observed applied).0 ≡ []
    → applied_at (diff_fields specs observed applied).1 p ≡ applied_at applied p
unfolding old_at
diff_fields-nil specs observed applied p h =
    ap
      (λ (fs : List FieldChange). old_at fs p (applied_at (diff_fields specs observed applied).1 p))
      (sym h)
    ∙ old_at-diff specs observed applied p
