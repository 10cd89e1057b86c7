-- ===== src/Engine/Outcome.antt =====
-- reconciler.go, bootstrapstore.go: what an update of one field makes of the engine, by the winner
-- of its chain and its onfail policy.
pub mod Origin
use mamori.Prelude.{
  ℕ, ◌-◌, Bool, true, false, ◌&&◌, ◌||◌, Option, none, some, Text, ltb, if◌then◌else◌, is_empty,
  get, put, remove, insert, delete,
}
use mamori.Errors.{Error, Sentinel, stale_error, is}
use mamori.Ref.{Ref}
use mamori.Ref.Redact.{redacted}
use mamori.Value.{Value, FieldSpec, OnFailPolicy, default_value, changed, first_ref}
use mamori.Resolve.{tag_error}
use mamori.Engine.State.{Options, Env, Engine, emit_err}
use mamori.Engine.Sources.{Winner, won, lost, ref_at}
use mamori.Engine.Debounce.{unblock, mark_changed}

module _ {T L : Type 0} (o : Options T L) (env : Env T) where
  -- persistBootstrap of the engine; the write itself is the environment's.
  unfoldable pub persist_bootstrap : Engine T → Engine T
  persist_bootstrap e =
      if o.has_bootstrap
      then elim env.write_error [
        | none ↦ record e { bootstrap_present = true; bootstrap_written_at = env.now }
        | some err ↦ emit_err o err e
      ]
      else e

  unfoldable pub mark_bootstrap_reconciled : Text → Engine T → Engine T
  mark_bootstrap_reconciled path e = elim e.bootstrap_unconfirmed [
    | none ↦ e
    | some paths ↦
        let rest = delete paths path in
        if is_empty rest
        then persist_bootstrap
            (record e { bootstrap_unconfirmed = none; bootstrap_serving = false })
        else record e { bootstrap_unconfirmed = some rest }
  ]

  -- The failure is stale if the field was last confirmed longer ago than WithStale allows.
  unfoldable pub is_stale : Engine T → FieldSpec → Bool
  is_stale e spec = elim (get e.last_ok spec.path) [
    | none ↦ false
    | some last ↦ ltb 0 o.stale && ltb o.stale (env.now - last)
  ]

  unfoldable pub report_terminal_error : FieldSpec → Ref → Error → Engine T → Engine T
  report_terminal_error spec ref err e =
      let reported =
        if is_stale e spec then stale_error (redacted ref) err else tag_error ref err in
      emit_err o reported (record e { last_err = put e.last_err spec.path reported })

  -- `release` is unblock in the loop, and a plain delete in a refresh.
  unfoldable pub handle_chain_not_found :
      (Text → Engine T → Engine T) → FieldSpec → Error → Engine T → Engine T
  handle_chain_not_found release spec err e =
      let e' = release spec.path e in
      if is err Sentinel.not_found && (spec.has_default || spec.optional)
      then mark_bootstrap_reconciled spec.path
          (record e' { last_err = remove e'.last_err spec.path })
      else report_terminal_error spec (first_ref spec.refs) err e'

  winner_ref : FieldSpec → Option ℕ → Ref
  winner_ref spec none = first_ref spec.refs
  winner_ref spec (some pos) = ref_at spec.refs pos

  -- A value, or onfail:"default": the field is confirmed now, and its error is gone.
  confirm : FieldSpec → Engine T → Engine T
  confirm spec e = record e {
    last_ok = put e.last_ok spec.path env.now;
    last_err = remove e.last_err spec.path;
  }

  unfoldable pub loop_failed :
      (Text → Option ℕ) → OnFailPolicy → FieldSpec → Option ℕ → Error → Engine T → Engine T
  unfolding confirm winner_ref
  loop_failed parse_duration OnFailPolicy.use_default spec pos err e =
      mark_changed parse_duration o env spec (default_value spec) (
        mark_bootstrap_reconciled spec.path
          (confirm spec (unblock parse_duration o env spec.path e)))
  loop_failed parse_duration OnFailPolicy.fail spec pos err e =
      report_terminal_error spec (winner_ref spec pos) err
        (record e { blocked = insert e.blocked spec.path })
  loop_failed parse_duration OnFailPolicy.keep_last spec pos err e =
      report_terminal_error spec (winner_ref spec pos) err
        (record e { blocked = delete e.blocked spec.path })

  -- The switch of the update case of loop.
  unfoldable pub loop_outcome : (Text → Option ℕ) → FieldSpec → Winner → Engine T → Engine T
  unfolding loop_failed confirm winner_ref
  loop_outcome parse_duration spec (won val pos) e = mark_changed parse_duration o env spec val (
      mark_bootstrap_reconciled spec.path (unblock parse_duration o env spec.path (confirm spec e)))
  loop_outcome parse_duration spec (lost pos err) e =
      if is err Sentinel.not_found
      then handle_chain_not_found (unblock parse_duration o env) spec err e
      else loop_failed parse_duration spec.on_fail spec pos err e

  -- clearBlock and observe of refreshNow.
  unfoldable pub clear_block : Text → Engine T → Engine T
  clear_block path e = record e { blocked = delete e.blocked path }

  unfoldable pub observe : Text → Value → Engine T → Engine T
  observe path val e =
      let stored = record e { observed = put e.observed path val } in
      elim (get e.observed path) [
        | some cur ↦ if changed cur val then stored else e
        | none ↦ stored
      ]

  unfoldable pub refresh_failed : OnFailPolicy → FieldSpec → Option ℕ → Error → Engine T → Engine T
  unfolding confirm winner_ref
  refresh_failed OnFailPolicy.use_default spec pos err e =
      observe spec.path (default_value spec) (confirm spec (clear_block spec.path e))
  refresh_failed OnFailPolicy.fail spec pos err e =
      report_terminal_error spec (winner_ref spec pos) err
        (record e { blocked = insert e.blocked spec.path })
  refresh_failed OnFailPolicy.keep_last spec pos err e =
      report_terminal_error spec (winner_ref spec pos) err (clear_block spec.path e)

  -- The switch of refreshNow.
  unfoldable pub refresh_outcome : FieldSpec → Winner → Engine T → Engine T
  unfolding refresh_failed confirm winner_ref
  refresh_outcome spec (won val pos) e =
      observe spec.path val (clear_block spec.path (confirm spec e))
  refresh_outcome spec (lost pos err) e =
      if is err Sentinel.not_found
      then handle_chain_not_found clear_block spec err e
      else refresh_failed spec.on_fail spec pos err e
