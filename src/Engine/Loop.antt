-- ===== src/Engine/Loop.antt =====
-- reconciler.go: the events of loop as functions on the engine, and the runs of a Watcher as a step
-- relation. Each event is served to its end before the next one, on the one reconciler goroutine;
-- the dispatch goroutine takes changes from the queue at any time between.
pub mod Run
pub mod Pinned
pub mod Unpin
use mamori.Prelude.{
  ℕ, Bool, true, false, Option, none, some, List, [], ◌∷◌, Text, if◌then◌else◌, get_elem?, ◌≡◌, ◌≤◌,
  ◌<◌, length,
}
use mamori.Errors.{Error}
use mamori.Value.{FieldSpec}
use mamori.Engine.State.{Change, Update, Options, Env, Engine}
use mamori.Engine.Sources.{record_source_update, recompute_winner, states_of}
use mamori.Engine.Outcome.{loop_outcome}
use mamori.Engine.Flush.{flush}
use mamori.Engine.Control.{Command, handle_pin}

module _ {T L : Type 0} (parse_duration : Text → Option ℕ) (o : Options T L) where
  -- The update case, for the update `up` of position `pos` of spec number `idx`.
  unfoldable pub handle_update : Env T → ℕ → ℕ → Update → FieldSpec → Engine T → Engine T
  handle_update env idx pos up spec e =
      let sources = record_source_update o.codecs spec idx pos up e.sources in
      loop_outcome o env parse_duration spec (recompute_winner (states_of sources idx))
        (record e { sources = sources })

  -- The timer case.
  unfoldable pub handle_timer : Env T → Engine T → Engine T
  handle_timer env e = record (flush o env e.pending e).0 { pending = []; timer = none }

  -- The dispatch goroutine hands the oldest change to OnChange.
  unfoldable pub deliver : Engine T → Engine T
  deliver e = elim e.dispatch [ [] ↦ e | ev ∷ queue ↦ record e { dispatch = queue } ]

  pub data Step : Engine T → Engine T → Type 0 where
    update :
        (e : Engine T) (env : Env T) (idx pos : ℕ) (up : Update) (spec : FieldSpec)
        → get_elem? o.specs idx ≡ some spec
        → Step e (handle_update env idx pos up spec e)
    timer_fires :
        (e : Engine T) (env : Env T) (at : ℕ)
        → e.timer ≡ some at
        → at ≤ env.now
        → Step e (handle_timer env e)
    command : (e : Engine T) (env : Env T) (c : Command) → Step e (handle_pin o env c e).0
    delivers : (e : Engine T) → Step e (deliver e)

  pub data Reach (e : Engine T) : Engine T → Type 0 where
    here : Reach e e
    next : {d f : Engine T} → Reach e d → Step d f → Reach e f
