-- ===== src/Load.antt =====
-- reconcile.go: Load, with its fallback to the bootstrap snapshot.
pub mod Checked
pub mod Tests
use mamori.Prelude.{
  ℕ, Bool, true, false, Option, none, some, List, [], ◌∷◌, ◌++◌, Text, if◌then◌else◌, is_empty,
}
use mamori.Errors.{Error, validation_error, derive_error, Result, ok, err, ◌>>=◌, map_err}
use mamori.Value.{Time, Value, FieldSpec}
use mamori.Resolve.{Sources, Resolved, resolve_all}
use mamori.Engine.State.{FieldChange, Change, Derive, HookRun, Host}
use mamori.Engine.Candidate.{derived_field_changes, run_derives}
use mamori.Engine.Flush.{run_pre_apply}
use mamori.Bootstrap.{Stored, Origin, restore_bootstrap, replay_err}

-- What the options give to a Load, or the error that they hold: `bootstrap` is none without
-- WithBootstrap; `order` is the order in which resolveAll visits the schemes; `read` and
-- `fingerprint` are the snapshot file and schemaFingerprint, and `write_error` is the answer of
-- writeBootstrapSnapshot.
pub record Input (T : Type 0) : Type 0 where
  pub bootstrap : Option (Option Error)
  pub hook : Result (Option (Change T → HookRun))
  pub derives : Result (List (Derive T))
  pub specs : Result (List FieldSpec)
  pub sources : Sources
  pub order : List Text
  pub read : Result Stored
  pub fingerprint : Text
  pub now : Time
  pub write_error : Option Error

-- What loadValue returns; `emitted` goes to OnError, if that is set.
pub record Loaded (T : Type 0) : Type 0 where
  pub config : T
  pub resolved : List Resolved
  pub origin : Option Origin
  pub emitted : List Error

-- The changes that the PreApply hook is shown for the fields of specs.
unfoldable pub initial_changes : List Resolved → List FieldChange
initial_changes [] = []
initial_changes (r ∷ res) =
    if r.set
    then record { path = r.spec.path; old_version = []; new_version = r.value.version }
      ∷ initial_changes res
    else initial_changes res

no_error : {A : Type 0} → Option Error → A → Result A
no_error none a = ok a
no_error (some e) a = err e

-- The snapshot that a Load that needed none writes; a failure to write it is emitted only.
written : {T : Type 0} → Input T → T → List Resolved → Option Origin → Loaded T
written i cfg res origin = elim i.bootstrap [
  | none ↦ record { config = cfg; resolved = res; origin = origin; emitted = [] }
  | some _ ↦ elim origin [
    | some from ↦ record { config = cfg; resolved = res; origin = some from; emitted = [] }
    | none ↦ elim i.write_error [
      | some e ↦ record {
        config = cfg;
        resolved = res;
        origin =
            some (record { present = false; restored = false; written_at = 0; resolve_err = none });
        emitted = e ∷ [];
      }
      | none ↦ record {
        config = cfg;
        resolved = res;
        origin =
            some
              (record { present = true; restored = false; written_at = i.now; resolve_err = none });
        emitted = [];
      }
    ]
  ]
]

bootstrap_error : Option (Option Error) → Option Error
bootstrap_error (some (some e)) = some e
bootstrap_error _ = none

module _ {T L : Type 0} (host : Host T L) where
  unfoldable pub build_into : List Resolved → T → Result T
  build_into [] cfg = ok cfg
  build_into (r ∷ res) cfg =
      if r.set
      then (do cfg' ← host.set_field cfg r.spec r.value.bytes; build_into res cfg')
      else build_into res cfg

  -- Resolution, or else the snapshot.
  unfoldable pub resolve_or_restore :
      Input T → List FieldSpec → Result (List Resolved × Option Origin)
  resolve_or_restore i specs = elim (resolve_all i.sources i.order specs) [
    | ok res ↦ ok (res, none)
    | err e ↦ elim i.bootstrap [
      | none ↦ err e
      | some _ ↦ do
        (res, at) ← restore_bootstrap i.read i.fingerprint specs e i.now
        ok (
          res,
          some (record { present = true; restored = true; written_at = at; resolve_err = some e }),
        )
    ]
  ]

  -- The config of what was resolved: decoded, derived, validated and shown to the hook.
  unfoldable pub checked :
      Option (Change T → HookRun) → List (Derive T) → List FieldSpec → List Resolved → Result T
  unfolding no_error
  checked hook derives specs res = do
    decoded ← build_into res host.zero_config
    cfg ← map_err derive_error (run_derives derives decoded)
    _ ← map_err validation_error (no_error (host.validate cfg) tt)
    let fields =
        initial_changes res ++ derived_field_changes host host.zero_config cfg derives specs
    no_error
        (run_pre_apply hook (record { before = host.zero_config; after = cfg; fields = fields }))
        cfg

  unfoldable pub load_value : Input T → Result (Loaded T)
  unfolding written bootstrap_error no_error
  load_value i = do
    _ ← no_error (bootstrap_error i.bootstrap) tt
    hook ← i.hook
    derives ← i.derives
    specs ← i.specs
    (res, origin) ← resolve_or_restore i specs
    cfg ← map_err (replay_err origin) (checked hook derives specs res)
    ok (written i cfg res origin)
