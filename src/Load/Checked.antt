-- ===== src/Load/Checked.antt =====
-- reconcile.go, bootstrapstore.go: the checks of a Load.
use mamori.Prelude.{
  ◌≡◌, refl, sym, ap, ◌∙◌, true, Option, none, some, List, ◌++◌, ◌⊎◌, inl, inr, Bool-cases, subst,
  Option-cases, arith,
}
use mamori.Errors.{
  Error, error_kind, validation_error, derive_error, Result, Result-cases, ok, err, wrap, ◌>>=◌,
  map_err,
}
use mamori.Value.{Time, FieldSpec}
use mamori.Resolve.{Resolved, resolve_all}
use mamori.Engine.State.{Change, Derive, HookRun, Host}
use mamori.Engine.Candidate.{derived_field_changes, run_derives}
use mamori.Engine.Flush.{run_pre_apply}
use mamori.Bootstrap.{Origin, bootstrap_transient, restore_bootstrap, replay_err}
use mamori.Load.{
  Input, Loaded, initial_changes, no_error, written, bootstrap_error, build_into,
  resolve_or_restore, checked, load_value,
}

bind_ok :
    {A B : Type 0} (r : Result A) (f : A → Result B) {b : B}
    → (r >>= f) ≡ ok b
    → (a : A) × (r ≡ ok a) × (f a ≡ ok b)
bind_ok (ok a) f h = (a, refl, h)
bind_ok (err e) f h = absurd (ground (arith, h))

map_err_ok : {A : Type 0} (f : Error → Error) (r : Result A) {a : A} → map_err f r ≡ ok a → r ≡ ok a
map_err_ok f (ok a) h = h
map_err_ok f (err e) h = absurd (ground (arith, h))

no_error_ok : {A : Type 0} (x : Option Error) {a b : A} → no_error x a ≡ ok b → (x ≡ none) × (a ≡ b)
unfolding no_error
no_error_ok none h = (refl, ground (arith, h))
no_error_ok (some e) h = absurd (ground (arith, h))

-- The config of what was resolved has passed its checks.
pub record Passed {T L : Type 0} (host : Host T L) (hook : Option (Change T → HookRun))
    (derives : List (Derive T)) (specs : List FieldSpec) (res : List Resolved) (cfg : T)
    : Type 0 where
  pub decoded : T
  pub built : build_into host res host.zero_config ≡ ok decoded
  pub derived : run_derives derives decoded ≡ ok cfg
  pub valid : host.validate cfg ≡ none
  pub gate :
      run_pre_apply hook (record {
        before = host.zero_config;
        after = cfg;
        fields =
            initial_changes res ++ derived_field_changes host host.zero_config cfg derives specs;
      })
      ≡ none

-- The fields are what the backends gave; or the backends failed in a way that passes, and they are
-- what the snapshot holds.
abbrev pub Came : {T : Type 0} → Input T → List FieldSpec → List Resolved → Type 0
Came i specs res =
    (resolve_all i.sources i.order specs ≡ ok res)
    ⊎ ((e : Error) × (resolve_all i.sources i.order specs ≡ err e)
        × (bootstrap_transient (error_kind (some e)) ≡ true)
        × (at : Time) × (restore_bootstrap i.read i.fingerprint specs e i.now ≡ ok (res, at)))

restore-transient :
    {T : Type 0} (i : Input T) (specs : List FieldSpec) (e : Error) {r : List Resolved × Time}
    → restore_bootstrap i.read i.fingerprint specs e i.now ≡ ok r
    → bootstrap_transient (error_kind (some e)) ≡ true
unfolding restore_bootstrap
restore-transient i specs e {r} h = elim (Bool-cases (bootstrap_transient (error_kind (some e)))) [
  | inl transient ↦ transient
  | inr lasting ↦
      let refused : ◌≡◌ {A = Result (List Resolved × Time)} (err (wrap e)) (ok r) =
        rw lasting at h in
      absurd (ground arith)
]

written_keeps :
    {T : Type 0} (i : Input T) (cfg : T) (res : List Resolved) (origin : Option Origin)
    (out : Loaded T)
    → ok (written i cfg res origin) ≡ ok out
    → ◌≡◌ {A = List Resolved × T} (out.resolved, out.config) (res, cfg)
unfolding written
written_keeps i cfg res origin out h = ground arith

module _ {T L : Type 0} (host : Host T L) where
  checked-Passed :
      (hook : Option (Change T → HookRun)) (derives : List (Derive T)) (specs : List FieldSpec)
      (res : List Resolved) {cfg : T}
      → checked host hook derives specs res ≡ ok cfg
      → Passed host hook derives specs res cfg
  unfolding checked
  checked-Passed hook derives specs res {cfg} h =
      let (decoded, built, h1) = bind_ok (build_into host res host.zero_config) _ h in
      let (live, derived, h2) = bind_ok (map_err derive_error (run_derives derives decoded)) _ h1 in
      let (u, validated, h3) =
        bind_ok (map_err validation_error (no_error (host.validate live) tt)) _ h2 in
      let (gate, same) = no_error_ok (run_pre_apply hook _) h3 in
      let valid = (no_error_ok (host.validate live) (map_err_ok validation_error _ validated)).0 in
      subst (Passed host hook derives specs res) same (record {
        decoded = decoded;
        built = built;
        derived = map_err_ok derive_error _ derived;
        valid = valid;
        gate = gate;
      })

  resolve_or_restore-Came :
      (i : Input T) (specs : List FieldSpec) {r : List Resolved × Option Origin}
      → resolve_or_restore host i specs ≡ ok r
      → Came i specs r.0
  unfolding resolve_or_restore
  resolve_or_restore-Came i specs {r} h =
      elim (Result-cases (resolve_all i.sources i.order specs)) [
        | inl (res, good) ↦
            let out : ok (res, none) ≡ ok r = rw (good, resolve_or_restore) at h in
            let same : r.0 ≡ res = ground arith in inl (good ∙ ap ok (sym same))
        | inr (e, bad) ↦ elim (Option-cases i.bootstrap) [
          | inl without ↦
              let out : ◌≡◌ {A = Result (List Resolved × Option Origin)} (err e) (ok r) =
                rw (without, resolve_or_restore) at (rw (bad, resolve_or_restore) at h) in
              absurd (ground arith)
          | inr (_, with_it) ↦
              let out = rw (with_it, resolve_or_restore) at (rw (bad, resolve_or_restore) at h) in
              let ((res, at), restored, named) =
                bind_ok (restore_bootstrap i.read i.fingerprint specs e i.now) _ out in
              let same : r.0 ≡ res = ground (arith, named) in
              let transient = restore-transient i specs e restored in
              let kept = restored ∙ ap (λ (l : List Resolved). ok (l, at)) (sym same) in
              inr (e, bad, transient, at, kept)
        ]
      ]

  -- A Load that succeeds serves a config that was decoded from the resolved fields, derived from by
  -- every hook, accepted by the validator and by the PreApply hook. Its fields are what the backends
  -- gave, or else the backends failed as unavailable or rate limited, and they are what
  -- restoreBootstrap gave: a snapshot never stands in for a backend that answered and refused.
  pub load_value-Passed :
      (i : Input T) (out : Loaded T)
      → load_value host i ≡ ok out
      → (hook : Option (Change T → HookRun)) × (derives : List (Derive T)) × (specs : List
          FieldSpec)
        × (i.hook ≡ ok hook)
        × (i.derives ≡ ok derives)
        × (i.specs ≡ ok specs)
        × Passed host hook derives specs out.resolved out.config
        × Came i specs out.resolved
  unfolding load_value
  load_value-Passed i out h =
      let (_, _, h1) = bind_ok (no_error (bootstrap_error i.bootstrap) tt) _ h in
      let (hook, hook_is, h2) = bind_ok i.hook _ h1 in
      let (derives, derives_is, h3) = bind_ok i.derives _ h2 in
      let (specs, specs_is, h4) = bind_ok i.specs _ h3 in
      let (r, came, h5) = bind_ok (resolve_or_restore host i specs) _ h4 in
      let (cfg, passed, h6) =
        bind_ok (map_err (replay_err r.1) (checked host hook derives specs r.0)) _ h5 in
      let kept = written_keeps i cfg r.0 r.1 out h6 in
      let all_passed =
        checked-Passed hook derives specs r.0 (map_err_ok (replay_err r.1) _ passed) in
      let fields_came = resolve_or_restore-Came i specs came in
      (
        hook,
        derives,
        specs,
        hook_is,
        derives_is,
        specs_is,
        subst (λ (p : List Resolved × T). Passed host hook derives specs p.0 p.1) (sym kept)
            all_passed,
        subst (Came i specs) (sym (ap (λ (p : List Resolved × T). p.0) kept)) fields_came,
      )
