-- ===== src/Engine/Control.antt =====
-- reconciler.go, pin.go, refresh.go: the commands Pin, PinCurrent, Unpin and Refresh, as the
-- reconciler goroutine serves them (handlePin, findSnapshot, refreshNow).
pub mod Kept
use mamori.Prelude.{
  ℕ, zero, suc, ◌+◌, Bool, true, false, Option, none, some, List, [], ◌∷◌, ◌++◌, Text,
  if◌then◌else◌, is_empty, ◌==◌, set, insert, Set,
}
use mamori.Errors.{Error, Sentinel, sentinel}
use mamori.Value.{FieldSpec}
use mamori.Engine.State.{FieldChange, Change, Snapshot, Options, Env, Engine}
use mamori.Engine.Sources.{states_of, recompute_winner, seed_chain_sources, overlay}
use mamori.Engine.Outcome.{refresh_outcome}
use mamori.Engine.Candidate.{diff_applied}
use mamori.Engine.Flush.{flush, enqueue}

pub data Command : Type 0 where
  pin_at : ℕ → Command
  pin_current : Command
  unpin : Command
  refresh : Command

pub record Reply : Type 0 where
  pub version : ℕ
  pub error : Option Error

unfoldable pub find_snapshot : {T : Type 0} → ℕ → List (Snapshot T) → Option (Snapshot T)
find_snapshot version [] = none
find_snapshot version (s ∷ history) =
    if s.version == version then some s else find_snapshot version history

-- The pending set of a refresh: every field.
unfoldable pub all_paths : List FieldSpec → Set
all_paths [] = []
all_paths (spec ∷ specs) = insert (all_paths specs) spec.path

module _ {T L : Type 0} (o : Options T L) (env : Env T) where
  -- One turn of the loop of refreshNow.
  unfoldable pub refresh_field : ℕ → FieldSpec → Engine T → Engine T
  refresh_field i spec e =
      let states =
        overlay (seed_chain_sources env.sources spec spec.refs) (states_of e.sources i) in
      refresh_outcome o env spec (recompute_winner states)
        (record e { sources = set e.sources i states })

  unfoldable pub refresh_fields : ℕ → List FieldSpec → Engine T → Engine T
  refresh_fields i [] e = e
  refresh_fields i (spec ∷ specs) e = refresh_fields (suc i) specs (refresh_field i spec e)

  unfoldable pub refresh_now : Engine T → Engine T × Option Error
  refresh_now e = flush o env (all_paths o.specs) (refresh_fields 0 o.specs e)

  -- What Get serves, with its version and the versions of its fields.
  pin_served : Engine T → Engine T × Reply
  pin_served e =
      let version = if e.pinned then e.pinned_version else e.version in
      let config = if e.pinned then e.pinned_config else e.last_good in
      let applied = if e.pinned then e.pinned_applied else e.applied in
      (
        record e {
          pinned = true;
          pinned_version = version;
          pinned_config = config;
          pinned_applied = applied;
          cfg = config;
        },
        record { version = version; error = none },
      )

  pin_snapshot : ℕ → Engine T → Option (Snapshot T) → Engine T × Reply
  pin_snapshot version e none =
      (e, record { version = 0; error = some (sentinel Sentinel.no_such_snapshot) })
  pin_snapshot version e (some snap) = (
    record e {
      pinned = true;
      pinned_version = version;
      pinned_config = snap.config;
      pinned_applied = snap.applied;
      cfg = snap.config;
    },
    record { version = version; error = none },
  )

  -- One coalesced change for all that was applied while pinned, if anything was.
  send_coalesced : Change T → Engine T → Engine T
  send_coalesced ev e = if is_empty ev.fields then e else enqueue o env ev e

  release : Engine T → Engine T
  release e =
      let ev : Change T = record {
        before = e.pinned_config;
        after = e.last_good;
        fields = diff_applied o e.pinned_applied e.applied e.pinned_config e.last_good;
      } in
      if e.pinned
      then record (send_coalesced ev (record e { pinned = false; cfg = e.last_good })) {
        pinned_applied = [];
      }
      else e

  unfoldable pub handle_pin : Command → Engine T → Engine T × Reply
  unfolding pin_served pin_snapshot send_coalesced release
  handle_pin (pin_at version) e = pin_snapshot version e (find_snapshot version e.history)
  handle_pin pin_current e = pin_served e
  handle_pin unpin e = (release e, record { version = 0; error = none })
  handle_pin refresh e =
      let (e', failure) = refresh_now e in (e', record { version = 0; error = failure })
