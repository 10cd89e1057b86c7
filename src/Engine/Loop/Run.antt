-- ===== src/Engine/Loop/Run.antt =====
-- reconciler.go: the invariant of a Watcher along its events and runs.
use mamori.Prelude.{ℕ, ◌≤◌, sym, subst, List, [], ◌∷◌, length, arith, Text, Option}
use mamori.Value.{FieldSpec}
use mamori.Engine.State.{Change, Update, Options, Env, Engine}
use mamori.Engine.Served.{served, served-loop_outcome}
use mamori.Engine.Control.Kept.{handle_pin-Sound}
use mamori.Engine.Loop.{
  Step, update, timer_fires, command, delivers, Reach, here, next, handle_update, handle_timer,
  deliver,
}
use mamori.Engine.Invariant.{Sound, flush-Sound}

module _ {T L : Type 0} (parse_duration : Text → Option ℕ) (o : Options T L) where
  handle_update-Sound :
      (env : Env T) (idx pos : ℕ) (up : Update) (spec : FieldSpec) (e : Engine T)
      → Sound o (served e)
      → Sound o (served (handle_update parse_duration o env idx pos up spec e))
  unfolding handle_update
  handle_update-Sound env idx pos up spec e h =
      subst (Sound o) (sym (served-loop_outcome parse_duration o env spec _ _)) h

  handle_timer-Sound :
      (env : Env T) (e : Engine T)
      → Sound o (served e)
      → Sound o (served (handle_timer parse_duration o env e))
  unfolding handle_timer
  handle_timer-Sound env e h = flush-Sound o env e.pending e h

  taken-Sound :
      (e : Engine T) (queue : List (Change T))
      → length queue ≤ o.queue_depth
      → Sound o (served e)
      → Sound o (served (elim queue [ [] ↦ e | ev ∷ rest ↦ record e { dispatch = rest } ]))
  taken-Sound e [] q h = h
  taken-Sound e (ev ∷ rest) q h = record {
    recorded = h.recorded;
    serving = h.serving;
    get_valid = h.get_valid;
    room = record { depth = h.room.depth; bounded = omega (arith, q) };
  }

  deliver-Sound :
      (e : Engine T) → Sound o (served e) → Sound o (served (deliver parse_duration o e))
  unfolding deliver
  deliver-Sound e h = taken-Sound e e.dispatch h.room.bounded h

  Step-Sound :
      {e f : Engine T} → Step parse_duration o e f → Sound o (served e) → Sound o (served f)
  Step-Sound (update e env idx pos up spec _) h = handle_update-Sound env idx pos up spec e h
  Step-Sound (timer_fires e env at _ _) h = handle_timer-Sound env e h
  Step-Sound (command e env c) h = handle_pin-Sound o env c e h
  Step-Sound (delivers e) h = deliver-Sound e h

  -- In every state that a Watcher can run into from one that is sound, whatever the providers, the
  -- hooks and the clock do and in whatever order updates, timers, commands and deliveries come: Get
  -- serves a config that the validator accepts, the pinned one if the Watcher is pinned and the live
  -- one else; the history holds validated configs only, at most the number asked for and one, and
  -- ends with the live version and its config; it is shown newest first; and the queue of changes
  -- keeps its bound.
  pub Reach-Sound :
      {e f : Engine T} → Reach parse_duration o e f → Sound o (served e) → Sound o (served f)
  Reach-Sound here h = h
  Reach-Sound (next run step) h = Step-Sound step (Reach-Sound run h)
