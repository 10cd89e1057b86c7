-- ===== src/Engine/Candidate/Derived.antt =====
-- reconciler.go: the changes of derived fields name no path of a spec.
use mamori.Prelude.{
  ◌≡◌, false, Option, none, some, List, [], ◌∷◌, Text, All, All-append, Set, member, Bool-cases,
  inl, inr,
}
use mamori.Value.{FieldSpec}
use mamori.Engine.State.{FieldChange, Derive, Host}
use mamori.Engine.Candidate.{
  has_spec_path, compare_leaves, derived_change, derived_writes, derived_loop,
  derived_field_changes,
}

module _ {T L : Type 0} (h : Host T L) (specs : List FieldSpec) (old_cfg new_cfg : T) where
  abbrev IsDerived : FieldChange → Type 0
  IsDerived f = has_spec_path specs f.path ≡ false

  compare_leaves-IsDerived :
      (p : Text) (a b : Option L)
      → has_spec_path specs p ≡ false
      → All IsDerived (compare_leaves h specs old_cfg new_cfg p a b)
  unfolding compare_leaves
  compare_leaves-IsDerived p (some a) (some b) n = elim (Bool-cases (h.deep_equal a b)) [
    | inl same ↦ rw same tt
    | inr differs ↦ rw differs (n, tt)
  ]
  compare_leaves-IsDerived p none b n = tt
  compare_leaves-IsDerived p (some a) none n = tt

  derived_change-IsDerived : (p : Text) → All IsDerived (derived_change h specs old_cfg new_cfg p)
  unfolding derived_change
  derived_change-IsDerived p = elim (Bool-cases (has_spec_path specs p)) [
    | inl sourced ↦ rw sourced tt
    | inr unsourced ↦ rw unsourced (compare_leaves-IsDerived p _ _ unsourced)
  ]

  derived_writes-IsDerived :
      (ps : List Text) (seen : Set)
      → All IsDerived (derived_writes h specs old_cfg new_cfg ps seen).0
  unfolding derived_writes
  derived_writes-IsDerived [] seen = tt
  derived_writes-IsDerived (p ∷ ps) seen =
      All-append IsDerived _ _
        (elim (Bool-cases (member seen p)) [
          | inl again ↦ rw again tt
          | inr first ↦ rw first (derived_change-IsDerived p)
        ])
        (derived_writes-IsDerived ps _)

  derived_loop-IsDerived :
      (ds : List (Derive T)) (seen : Set)
      → All IsDerived (derived_loop h specs old_cfg new_cfg ds seen)
  unfolding derived_loop
  derived_loop-IsDerived [] seen = tt
  derived_loop-IsDerived (d ∷ ds) seen =
      All-append IsDerived _ _ (derived_writes-IsDerived d.writes seen)
        (derived_loop-IsDerived ds _)

  pub derived_field_changes-IsDerived :
      (ds : List (Derive T))
      → All
          (λ (f : FieldChange). has_spec_path specs f.path ≡ false)
          (derived_field_changes h old_cfg new_cfg ds specs)
  unfolding derived_field_changes
  derived_field_changes-IsDerived ds = derived_loop-IsDerived ds []
