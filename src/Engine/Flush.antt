-- ===== src/Engine/Flush.antt =====
-- reconciler.go: flush with the PreApply gate (preapply.go), recordSnapshot and enqueue.
pub mod Revert
pub mod Queue
pub mod Apply
pub mod Trim
pub mod Atomic
use mamori.Prelude.{
  ℕ, zero, suc, ◌+◌, ◌-◌, Bool, true, false, Option, none, some, List, [], ◌∷◌, ◌++◌, Text,
  if◌then◌else◌, is_empty, length, drop, reverse, ltb, Map, put, Set,
}
use mamori.Errors.{Error, pre_apply_error}
use mamori.Engine.State.{
  FieldChange, Change, Snapshot, HookRun, Options, Env, Engine, emit_err, incr64,
}
use mamori.Engine.Outcome.{persist_bootstrap}
use mamori.Engine.Candidate.{Built, candidate, refused, build_candidate}

-- runPreApply: the hook's error, or that of its context, under a PreApplyError.
gate_error : Option Error → Option Error → Option Error
gate_error (some e) ctx_error = some (pre_apply_error e)
gate_error none (some e) = some (pre_apply_error e)
gate_error none none = none

unfoldable pub run_pre_apply : {T : Type 0} → Option (Change T → HookRun) → Change T → Option Error
unfolding gate_error
run_pre_apply none ev = none
run_pre_apply (some hook) ev = let run = hook ev in gate_error run.answer run.ctx_error

-- The versions that a rejected candidate had marked as applied are put back.
unfoldable pub revert : List FieldChange → Map Text → Map Text
revert [] applied = applied
revert (f ∷ fs) applied = revert fs (put applied f.path f.old_version)

-- recordSnapshot: the history keeps the newest historyN + 1, oldest first; the Watcher publishes
-- them newest first.
unfoldable pub trim_history : {A : Type 0} → ℕ → List A → List A
trim_history max history =
    if ltb max (length history) then drop (length history - max) history else history

-- enqueue: a full queue loses its oldest change. The loop runs again after each loss; `fuel` bounds
-- its rounds.
unfoldable pub enqueue_loop : {A : Type 0} → ℕ → ℕ → List A → ℕ → A → Option (List A × ℕ)
enqueue_loop zero depth queue dropped ev = none
enqueue_loop (suc fuel) depth [] dropped ev =
    let again = enqueue_loop fuel depth [] dropped ev in
    if ltb 0 depth then some (ev ∷ [], dropped) else again
enqueue_loop (suc fuel) depth (old ∷ queue) dropped ev =
    let again = enqueue_loop fuel depth queue (dropped + 1) ev in
    if ltb (length (old ∷ queue)) depth then some ((old ∷ queue) ++ ev ∷ [], dropped) else again

module _ {T L : Type 0} (o : Options T L) (env : Env T) where
  unfoldable pub record_snapshot : T → List FieldChange → Engine T → Engine T
  unfolding trim_history
  record_snapshot cand fields e =
      let snap : Snapshot T = record {
        version = e.version;
        at = env.now;
        config = cand;
        fields = fields;
        applied = e.applied;
      } in
      let kept = trim_history (o.history_n + 1) (e.history ++ snap ∷ []) in
      record e { history = kept; snapshots = reverse kept }

  -- One round more than the queue is long is fuel enough, if the queue has any depth.
  unfoldable pub enqueue : Change T → Engine T → Engine T
  enqueue ev e = elim (enqueue_loop (length e.dispatch + 1) o.queue_depth e.dispatch e.dropped ev) [
    | none ↦ e
    | some (queue, dropped) ↦ record e { dispatch = queue; dropped = dropped }
  ]

  -- A pinned engine has the snapshot in its history, and serves what it is pinned to.
  publish : T → T → List FieldChange → Engine T → Engine T
  publish old cand fields e =
      if e.pinned
      then e
      else enqueue (record { before = old; after = cand; fields = fields })
          (record e { cfg = cand })

  unfoldable pub apply_candidate : T → List FieldChange → Engine T → Engine T
  unfolding publish
  apply_candidate cand fields e = publish e.last_good cand fields (
      persist_bootstrap o env
        (record_snapshot cand fields (record e { version = incr64 e.version; last_good = cand })))

  unfoldable pub reject_candidate : Error → List FieldChange → Engine T → Engine T
  reject_candidate err fields e = emit_err o err (record e { applied = revert fields e.applied })

  gated : T → List FieldChange → Engine T → Engine T × Option Error
  gated cand fields e =
      elim (run_pre_apply env.pre_apply
        (record { before = e.last_good; after = cand; fields = fields })) [
          | some err ↦ (reject_candidate err fields e, some err)
          | none ↦ (apply_candidate cand fields e, none)
        ]

  built : Engine T → Built T → Engine T × Option Error
  built e (refused err) = (e, err)
  built e (candidate cand fields) = if is_empty fields then (e, none) else gated cand fields e

  unfoldable pub flush : Set → Engine T → Engine T × Option Error
  unfolding built gated
  flush pending e =
      let (e', b) = build_candidate o e in if is_empty pending then (e, none) else built e' b
