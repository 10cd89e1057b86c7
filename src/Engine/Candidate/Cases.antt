-- ===== src/Engine/Candidate/Cases.antt =====
-- reconciler.go: the ways in which buildCandidate ends.
use mamori.Prelude.{
  ◌≡◌, refl, Bool, true, false, Option, none, List, ◌++◌, if◌then◌else◌, is_empty, Option-cases,
  ◌⊎◌, inl, inr,
}
use mamori.Errors.{Error, Result, Result-cases, ok, err, validation_error}
use mamori.Engine.State.{FieldChange, Options, Engine}
use mamori.Engine.Served.{served, served-emit_err}
use mamori.Engine.Candidate.{
  Built, candidate, refused, build_candidate, decode_fields, run_derives, diff_fields,
  derived_field_changes, rejected, finish, validated, derived,
}

module _ {T L : Type 0} (o : Options T L) (e : Engine T) where
  abbrev pub all_fields : T → List FieldChange
  all_fields cand =
      (diff_fields o.specs e.observed e.applied).0
      ++ derived_field_changes o.host e.last_good cand o.derives o.specs

  -- A refusal, which changes nothing that the application sees; or a candidate that the validator
  -- accepts, with no field blocked.
  abbrev pub BuildCases : Engine T × Built T → Type 0
  BuildCases r =
      ((d : Engine T) × (x : Option Error) × (r ≡ (d, refused x)) × (served d ≡ served e))
      ⊎ ((cand : T) × (r ≡ (
        record e { applied = (diff_fields o.specs e.observed e.applied).1 },
        candidate cand (all_fields cand),
      ))
          × (o.host.validate cand ≡ none)
          × (is_empty e.blocked ≡ true))

  rejected-cases : (x : Error) → BuildCases (rejected o x e)
  unfolding rejected
  rejected-cases x = inl (_, _, refl, served-emit_err o x e)

  validated-cases : (cand : T) → is_empty e.blocked ≡ true → BuildCases (validated o e cand)
  unfolding validated
  validated-cases cand free = elim (Option-cases (o.host.validate cand)) [
    | inr (x, invalid) ↦ rw (invalid, validated) (rejected-cases _)
    | inl valid ↦ rw (valid, validated) (inr (cand, unfold finish in refl, valid, free))
  ]

  derived-cases : (cand : T) → is_empty e.blocked ≡ true → BuildCases (derived o e cand)
  unfolding derived
  derived-cases cand free = elim (Result-cases (run_derives o.derives cand)) [
    | inr (x, bad) ↦ rw (bad, derived) (rejected-cases _)
    | inl (cand', good) ↦ rw (good, derived) (validated-cases cand' free)
  ]

  decoded :
      (r : Result T)
      → is_empty e.blocked ≡ true
      → BuildCases
          (elim r [ err d ↦ rejected o (validation_error d) e | ok cand ↦ derived o e cand ])
  decoded (ok cand) free = derived-cases cand free
  decoded (err x) free = rejected-cases (validation_error x)

  chosen :
      (b : Bool) (r s : Engine T × Built T)
      → (b ≡ true → BuildCases r)
      → BuildCases s
      → BuildCases (if b then r else s)
  chosen true r s hr hs = hr refl
  chosen false r s hr hs = hs

  pub build_candidate-cases : BuildCases (build_candidate o e)
  unfolding build_candidate
  build_candidate-cases =
      chosen (is_empty e.blocked) _ _
        (λ free. decoded (decode_fields o.host e.observed o.specs o.host.zero_config) free)
        (inl (e, _, refl, refl))
