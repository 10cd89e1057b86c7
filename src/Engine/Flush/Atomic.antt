-- ===== src/Engine/Flush/Atomic.antt =====
-- reconciler.go: flush as a whole, in each way that it can end.
use mamori.Prelude.{
  ◌≡◌, refl, sym, ap, ◌∙◌, true, false, Option, none, List, [], ◌∷◌, ◌++◌, Text, arith, is_empty,
  Bool-cases, Option-cases, ◌⊎◌, inl, inr, Set, subst, All, append_assoc, str_eq_refl,
}
use mamori.Value.{FieldSpec}
use mamori.Errors.{Error}
use mamori.Engine.State.{FieldChange, Change, Options, Env, Engine, applied_at}
use mamori.Engine.Served.{Served, served, served-emit_err}
use mamori.Engine.Candidate.{Built, candidate, build_candidate, diff_fields, has_spec_path}
use mamori.Engine.Candidate.Cases.{all_fields, BuildCases, build_candidate-cases}
use mamori.Engine.Flush.{
  flush, run_pre_apply, revert, apply_candidate, reject_candidate, gated, built,
}
use mamori.Engine.Flush.Revert.{revert-diff_fields, diff_fields-nil}
use mamori.Engine.Flush.Apply.{HasRoom, published, served-apply_candidate}

first_nil : (a b : List FieldChange) → is_empty (a ++ b) ≡ true → a ≡ []
first_nil [] b h = refl
first_nil (x ∷ a) b h = absurd (ground (arith, h))

-- The paths of the specs are paths of specs.
has_spec_path-front :
    (front back : List FieldSpec) (spec : FieldSpec)
    → has_spec_path (front ++ spec ∷ back) spec.path ≡ true
unfolding has_spec_path
has_spec_path-front [] back spec = rw (str_eq_refl spec.path)
has_spec_path-front (s ∷ front) back spec = rw (has_spec_path-front front back spec) (ground arith)

for_specs :
    {P : Text → Type 0} (front specs : List FieldSpec)
    → ((p : Text) → has_spec_path (front ++ specs) p ≡ true → P p)
    → All (λ (spec : FieldSpec). P spec.path) specs
for_specs front [] h = tt
for_specs {P} front (spec ∷ specs) h = (
  h spec.path (has_spec_path-front front specs spec),
  for_specs (front ++ spec ∷ []) specs (
      subst (λ s. (p : Text) → has_spec_path s p ≡ true → P p)
        (sym (append_assoc front (spec ∷ []) specs)) h),
)

module _ {T L : Type 0} (o : Options T L) where
  -- Nothing that the application sees has changed, and the version applied for each field of a
  -- spec is what it was.
  pub record Unchanged (e e' : Engine T) : Type 0 where
    pub same : served e' ≡ record (served e) { applied = e'.applied }
    pub versions :
        All
          (λ (spec : FieldSpec). applied_at e'.applied spec.path ≡ applied_at e.applied spec.path)
          o.specs

  -- The candidate and all its changes have been applied.
  pub record Applied (env : Env T) (e e' : Engine T) (cand : T) : Type 0 where
    pub valid : o.host.validate cand ≡ none
    pub free : is_empty e.blocked ≡ true
    pub something : is_empty (all_fields o e cand) ≡ false
    pub whole :
        served e'
        ≡ published o env cand
            (all_fields o e cand)
            (record (served e) { applied = (diff_fields o.specs e.observed e.applied).1 })

  abbrev pub Atomic : Env T → Engine T → Engine T × Option Error → Type 0
  Atomic env e r = Unchanged e r.0 ⊎ ((cand : T) × Applied env e r.0 cand × (r.1 ≡ none))

  unchanged : (e d : Engine T) → served d ≡ served e → Unchanged e d
  unchanged e d h = record {
    same =
        h ∙ ap (λ a. record (served e) { applied = a }) (sym (ap (λ (s : Served T). s.applied) h));
    versions = for_specs [] o.specs λ p _. ap (λ (s : Served T). applied_at s.applied p) h;
  }

  module _ (env : Env T) (e : Engine T) (cand : T) where
    abbrev marked : Engine T
    marked = record e { applied = (diff_fields o.specs e.observed e.applied).1 }

    nothing_to_apply : is_empty (all_fields o e cand) ≡ true → Unchanged e marked
    nothing_to_apply h = record {
      same = refl;
      versions =
          for_specs [] o.specs
            λ p _. diff_fields-nil o.specs e.observed e.applied p (first_nil _ _ h);
    }

    put_back : (x : Error) → Unchanged e (reject_candidate o env x (all_fields o e cand) marked)
    unfolding reject_candidate
    put_back x =
        let d = record marked { applied = revert (all_fields o e cand) marked.applied } in
        let kept = served-emit_err o x d in
        let applied = ap (λ (s : Served T). s.applied) kept in
        record {
          same = kept ∙ ap (λ a. record (served e) { applied = a }) (sym applied);
          versions = for_specs [] o.specs λ p h.
              ap (λ a. applied_at a p) applied
              ∙ revert-diff_fields o e.observed e.applied e.last_good cand p h;
        }

    module _ (room : HasRoom o e.dispatch) (valid : o.host.validate cand ≡ none)
        (free : is_empty e.blocked ≡ true) where
      gate_passed :
          is_empty (all_fields o e cand) ≡ false
          → Applied env e (apply_candidate o env cand (all_fields o e cand) marked) cand
      gate_passed h = record {
        valid = valid;
        free = free;
        something = h;
        whole = served-apply_candidate o env cand _ marked room;
      }

      gated-Atomic :
          is_empty (all_fields o e cand) ≡ false
          → Atomic env e (gated o env cand (all_fields o e cand) marked)
      unfolding gated
      gated-Atomic h =
          let ev : Change T = record {
            before = e.last_good;
            after = cand;
            fields = all_fields o e cand;
          } in
          elim (Option-cases (run_pre_apply env.pre_apply ev)) [
            | inl passed ↦ rw (passed, gated) (inr (cand, gate_passed h, refl))
            | inr (x, stopped) ↦ rw (stopped, gated) (inl (put_back x))
          ]

      candidate-Atomic : Atomic env e (built o env marked (candidate cand (all_fields o e cand)))
      unfolding built
      candidate-Atomic = elim (Bool-cases (is_empty (all_fields o e cand))) [
        | inl nothing ↦ rw (nothing, built) (inl (nothing_to_apply nothing))
        | inr something ↦ rw (something, built) (gated-Atomic something)
      ]

  built-Atomic :
      (env : Env T) (e : Engine T) (r : Engine T × Built T)
      → HasRoom o e.dispatch
      → BuildCases o e r
      → Atomic env e (built o env r.0 r.1)
  unfolding built
  built-Atomic env e r room (inl (d, x, r_is, same)) =
      subst (λ (s : Engine T × Built T). Atomic env e (built o env s.0 s.1)) (sym r_is)
        (inl (unchanged e d same))
  built-Atomic env e r room (inr (cand, r_is, valid, free)) =
      rw r_is (candidate-Atomic env e cand room valid free)

  -- In an engine whose queue of changes has room: whatever a flush does, it either leaves what the
  -- application sees as it was, with the version applied for every field of a spec (no candidate
  -- could be built, nothing differs, or the PreApply hook refused); or it returns no error and has
  -- applied one candidate as a whole, which the validator accepts, while no field blocks and at
  -- least one field changed.
  pub flush-Atomic :
      (env : Env T) (pending : Set) (e : Engine T)
      → HasRoom o e.dispatch
      → Atomic env e (flush o env pending e)
  unfolding flush
  flush-Atomic env pending e room = elim (Bool-cases (is_empty pending)) [
    | inl none_pending ↦ rw none_pending (inl (unchanged e e refl))
    | inr some_pending ↦
        rw some_pending (built-Atomic env e (build_candidate o e) room (build_candidate-cases o e))
  ]
