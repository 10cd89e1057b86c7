-- ===== src/Engine/Candidate.antt =====
-- reconciler.go: buildCandidate with blockedErr, derivedFieldChanges and diffApplied.
pub mod Derived
pub mod Cases
use mamori.Prelude.{
  ℕ, Bool, true, false, not, ◌&&◌, ◌||◌, Option, none, some, List, [], ◌∷◌, ◌++◌, Text, codes,
  str_eq, if◌then◌else◌, is_empty, Map, Set, get, put, member, insert,
}
use mamori.Errors.{
  Error, Sentinel, sentinel, wrap, validation_error, derive_error, Result, ok, err, ◌>>=◌,
}
use mamori.Value.{Value, FieldSpec}
use mamori.Engine.State.{FieldChange, Derive, Host, Options, Engine, applied_at, emit_err}

-- hasSpecPath
unfoldable pub has_spec_path : List FieldSpec → Text → Bool
has_spec_path [] path = false
has_spec_path (s ∷ specs) path = if str_eq s.path path then true else has_spec_path specs path

module _ {T L : Type 0} (h : Host T L) (specs : List FieldSpec) (old_cfg new_cfg : T) where
  compare_leaves : Text → Option L → Option L → List FieldChange
  compare_leaves p (some a) (some b) =
      if h.deep_equal a b
      then []
      else record { path = p; old_version = h.derived_version a; new_version = h.derived_version b }
        ∷ []
  compare_leaves p _ _ = []

  -- One declared path that was not seen before.
  derived_change : Text → List FieldChange
  derived_change p =
      if has_spec_path specs p
      then []
      else compare_leaves p (h.field_by_path old_cfg p) (h.field_by_path new_cfg p)

  -- The inner loop over one hook's paths; it hands on the set of the paths seen.
  derived_writes : List Text → Set → List FieldChange × Set
  derived_writes [] seen = ([], seen)
  derived_writes (p ∷ ps) seen =
      let (rest, seen') = derived_writes ps (if member seen p then seen else insert seen p) in
      ((if member seen p then [] else derived_change p) ++ rest, seen')

  derived_loop : List (Derive T) → Set → List FieldChange
  derived_loop [] seen = []
  derived_loop (d ∷ ds) seen =
      let (here, seen') = derived_writes d.writes seen in here ++ derived_loop ds seen'

unfoldable pub derived_field_changes :
    {T L : Type 0} → Host T L → T → T → List (Derive T) → List FieldSpec → List FieldChange
unfolding derived_loop derived_writes derived_change compare_leaves
derived_field_changes h old_cfg new_cfg derives specs =
    derived_loop h specs old_cfg new_cfg derives []

-- The loop that decodes the observed values into the candidate.
unfoldable pub decode_fields : {T L : Type 0} → Host T L → Map Value → List FieldSpec → T → Result T
decode_fields h observed [] cand = ok cand
decode_fields h observed (spec ∷ specs) cand = elim (get observed spec.path) [
  | none ↦ decode_fields h observed specs cand
  | some v ↦ do cand' ← h.set_field cand spec v.bytes; decode_fields h observed specs cand'
]

unfoldable pub run_derives : {T : Type 0} → List (Derive T) → T → Result T
run_derives [] cand = ok cand
run_derives (d ∷ ds) cand = do cand' ← d.fn cand; run_derives ds cand'

-- The loop that lists the changed fields and records their new versions as applied.
unfoldable pub diff_fields : List FieldSpec → Map Value → Map Text → List FieldChange × Map Text
diff_fields [] observed applied = ([], applied)
diff_fields (spec ∷ specs) observed applied = elim (get observed spec.path) [
  | none ↦ diff_fields specs observed applied
  | some v ↦
      let old = applied_at applied spec.path in
      let (same_fields, same_applied) = diff_fields specs observed applied in
      let (fields, applied') = diff_fields specs observed (put applied spec.path v.version) in
      if str_eq old v.version then (same_fields, same_applied) else (
        record { path = spec.path; old_version = old; new_version = v.version } ∷ fields,
        applied',
      )
]

-- blockedErr: the error of the first blocked field, in the order of the specs.
unfoldable pub blocked_err : {T : Type 0} → Engine T → List FieldSpec → Option Error
blocked_err e [] = none
blocked_err e (spec ∷ specs) =
    if member e.blocked spec.path
    then elim (get e.last_err spec.path) [
      | some failure ↦ some failure
      | none ↦ some (wrap (sentinel Sentinel.invalid))
    ]
    else blocked_err e specs

-- What buildCandidate returns: the candidate and its changes, or an error, nil in the one case that
-- blockedErr finds no field.
pub data Built (T : Type 0) : Type 0 where
  candidate : T → List FieldChange → Built T
  refused : Option Error → Built T

module _ {T L : Type 0} (o : Options T L) where
  -- An error that buildCandidate reports before it returns it.
  rejected : Error → Engine T → Engine T × Built T
  rejected e en = (emit_err o e en, refused (some e))

  finish : Engine T → T → Engine T × Built T
  finish e cand =
      let (fields, applied) = diff_fields o.specs e.observed e.applied in
      (
        record e { applied = applied },
        candidate cand (fields ++ derived_field_changes o.host e.last_good cand o.derives o.specs),
      )

  validated : Engine T → T → Engine T × Built T
  validated e cand = elim (o.host.validate cand) [
    | some failure ↦ rejected (validation_error failure) e
    | none ↦ finish e cand
  ]

  derived : Engine T → T → Engine T × Built T
  derived e cand = elim (run_derives o.derives cand) [
    | err d ↦ rejected (derive_error d) e
    | ok cand' ↦ validated e cand'
  ]

  unfoldable pub build_candidate : Engine T → Engine T × Built T
  unfolding rejected finish validated derived
  build_candidate e =
      if is_empty e.blocked
      then elim (decode_fields o.host e.observed o.specs o.host.zero_config) [
        | err d ↦ rejected (validation_error d) e
        | ok cand ↦ derived e cand
      ]
      else (e, refused (blocked_err e o.specs))

-- diffApplied
unfoldable pub diff_versions : List FieldSpec → Map Text → Map Text → List FieldChange
diff_versions [] before after = []
diff_versions (spec ∷ specs) before after =
    let b = applied_at before spec.path in
    let a = applied_at after spec.path in
    let rest = diff_versions specs before after in
    if str_eq b a
    then rest
    else record { path = spec.path; old_version = b; new_version = a } ∷ rest

unfoldable pub diff_applied :
    {T L : Type 0} → Options T L → Map Text → Map Text → T → T → List FieldChange
diff_applied o before after old_cfg new_cfg =
    diff_versions o.specs before after
    ++ derived_field_changes o.host old_cfg new_cfg o.derives o.specs
