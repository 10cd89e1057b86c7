-- ===== src/Engine/Invariant.antt =====
-- reconciler.go: the invariant of a Watcher's state, and flush.
use mamori.Prelude.{
  ℕ, ◌+◌, ◌≤◌, ◌<◌, ◌≡◌, refl, sym, ap, ◌∙◌, Option, none, List, [], ◌∷◌, ◌++◌, Text, if◌then◌else◌,
  arith, length, reverse, Bool-cases, inl, inr, Set, Map, subst, All, All-append,
}
use mamori.Errors.{Error}
use mamori.Engine.State.{FieldChange, Change, Snapshot, Options, Env, Engine}
use mamori.Engine.Served.{Served, served}
use mamori.Engine.Candidate.Cases.{all_fields}
use mamori.Engine.Flush.{flush}
use mamori.Engine.Flush.Trim.{trim_history-snoc, length-trim_history, trim_history-All}
use mamori.Engine.Flush.Queue.{length-push}
use mamori.Engine.Flush.Apply.{HasRoom, published, advanced, sent, new_snapshot, change_of}
use mamori.Engine.Flush.Atomic.{Atomic, flush-Atomic}
use mamori.Engine.Control.{}

-- The history: validated configs, oldest first, as many as asked for, the last of them the live
-- version; the Watcher shows them newest first.
pub record Recorded {T L : Type 0} (o : Options T L) (live : T) (version : ℕ)
    (history shown : List (Snapshot T)) : Type 0 where
  pub live_valid : o.host.validate live ≡ none
  pub past_valid : All (λ (x : Snapshot T). o.host.validate x.config ≡ none) history
  pub trimmed : length history ≤ o.history_n + 1
  pub newest_first : shown ≡ reverse history
  pub older : List (Snapshot T)
  pub newest : Snapshot T
  pub at_end : history ≡ older ++ newest ∷ []
  pub its_version : newest.version ≡ version
  pub its_config : newest.config ≡ live

-- What holds of a Watcher between two events: its history is as recorded, Get serves the live
-- config, or the one pinned, and a valid one, and the queue of changes keeps its bound.
pub record Sound {T L : Type 0} (o : Options T L) (s : Served T) : Type 0 where
  pub recorded : Recorded o s.last_good s.version s.history s.snapshots
  pub serving : s.cfg ≡ (if s.pinned then s.pinned_config else s.last_good)
  pub get_valid : o.host.validate s.cfg ≡ none
  pub room : HasRoom o s.dispatch

module _ {T L : Type 0} (o : Options T L) (env : Env T) where
  pub sent-Sound : (ev : Change T) (s : Served T) → Sound o s → Sound o (sent o env ev s)
  sent-Sound ev s h = record {
    recorded = h.recorded;
    serving = h.serving;
    get_valid = h.get_valid;
    room = record {
      depth = h.room.depth;
      bounded = length-push o.queue_depth s.dispatch ev h.room.depth h.room.bounded;
    };
  }

  -- The versions applied are no part of the invariant.
  applied-Sound :
      (s : Served T) (applied : Map Text) → Sound o s → Sound o (record s { applied = applied })
  applied-Sound s applied h = record {
    recorded = h.recorded;
    serving = h.serving;
    get_valid = h.get_valid;
    room = h.room;
  }

  advanced-Recorded :
      (cand : T) (fields : List FieldChange) (s : Served T)
      → o.host.validate cand ≡ none
      → Sound o s
      → let d = advanced o env cand fields s in
        Recorded o d.last_good d.version d.history d.snapshots
  advanced-Recorded cand fields s valid h =
      let snap = new_snapshot o env cand fields s in
      let max = o.history_n + 1 in
      let some_max : 0 < max = omega arith in
      let (older, at_end) = trim_history-snoc max s.history snap some_max in
      let all_valid = All-append _ s.history (snap ∷ []) h.recorded.past_valid (valid, tt) in
      record {
        live_valid = valid;
        past_valid = trim_history-All max _ (s.history ++ snap ∷ []) all_valid;
        trimmed = length-trim_history max (s.history ++ snap ∷ []);
        newest_first = refl;
        older = older;
        newest = snap;
        at_end = at_end;
        its_version = refl;
        its_config = refl;
      }

  published-Sound :
      (cand : T) (fields : List FieldChange) (s : Served T)
      → o.host.validate cand ≡ none
      → Sound o s
      → Sound o (published o env cand fields s)
  published-Sound cand fields s valid h =
      let recorded = advanced-Recorded cand fields s valid h in
      let d = advanced o env cand fields s in
      elim (Bool-cases s.pinned) [
        | inl held ↦
            let frozen : s.cfg ≡ (if s.pinned then s.pinned_config else cand) =
              h.serving ∙ rw held refl in
            let kept : Sound o d = record {
              recorded = recorded;
              serving = frozen;
              get_valid = h.get_valid;
              room = h.room;
            } in
            subst (Sound o)
              (ap
                (λ b.
                  if b
                  then d
                  else sent o env (change_of o env cand fields s) (record d { cfg = cand }))
                (sym held))
              kept
        | inr free ↦
            let new : cand ≡ (if s.pinned then s.pinned_config else cand) = rw free refl in
            let moved : Sound o (record d { cfg = cand }) = record {
              recorded = recorded;
              serving = new;
              get_valid = valid;
              room = h.room;
            } in
            subst (Sound o)
              (ap
                (λ b.
                  if b
                  then d
                  else sent o env (change_of o env cand fields s) (record d { cfg = cand }))
                (sym free))
              (sent-Sound (change_of o env cand fields s) (record d { cfg = cand }) moved)
      ]

  Atomic-Sound :
      (e : Engine T) (r : Engine T × Option Error)
      → Sound o (served e)
      → Atomic o env e r
      → Sound o (served r.0)
  Atomic-Sound e r h (inl kept) = rw kept.same (applied-Sound (served e) r.0.applied h)
  Atomic-Sound e r h (inr (cand, now, done)) =
      rw now.whole
        (published-Sound cand (all_fields o e cand) _ now.valid (applied-Sound (served e) _ h))

  pub flush-Sound :
      (pending : Set) (e : Engine T)
      → Sound o (served e)
      → Sound o (served (flush o env pending e).0)
  flush-Sound pending e h =
      Atomic-Sound e (flush o env pending e) h (flush-Atomic o env pending e h.room)
