-- ===== src/Engine/Loop/Pinned.antt =====
-- reconciler.go, pin.go: what goes on behind a pin.
use mamori.Prelude.{
  ℕ, ◌≡◌, refl, sym, ap, ◌∙◌, Bool, true, Option, List, Text, if◌then◌else◌, inl, inr, subst, Set,
  Map,
}
use mamori.Value.{FieldSpec}
use mamori.Engine.State.{FieldChange, Snapshot, Update, Options, Env, Engine}
use mamori.Engine.Served.{Served, served, served-loop_outcome}
use mamori.Engine.Candidate.{diff_fields}
use mamori.Engine.Candidate.Cases.{all_fields}
use mamori.Engine.Flush.{flush}
use mamori.Engine.Flush.Apply.{HasRoom, published, advanced, sent, change_of}
use mamori.Engine.Flush.Atomic.{flush-Atomic}
use mamori.Engine.Control.{refresh, handle_pin, refresh_fields, refresh_now, all_paths}
use mamori.Engine.Control.Kept.{served-refresh_fields}
use mamori.Engine.Loop.{handle_update, handle_timer}

-- What a pin holds fast: what Get serves, the pin itself, and the changes that OnChange will get.
pub record Frozen {T : Type 0} (s t : Served T) : Type 0 where
  pub cfg : t.cfg ≡ s.cfg
  pub pinned : t.pinned ≡ s.pinned
  pub pinned_version : t.pinned_version ≡ s.pinned_version
  pub pinned_config : t.pinned_config ≡ s.pinned_config
  pub pinned_applied : t.pinned_applied ≡ s.pinned_applied
  pub dispatch : t.dispatch ≡ s.dispatch
  pub dropped : t.dropped ≡ s.dropped

module _ {T : Type 0} where
  -- What a flush behind the pin may write.
  Frozen-behind :
      (s : Served T) (live : T) (version : ℕ) (applied : Map Text)
      (history shown : List (Snapshot T))
      → Frozen s (record s {
        last_good = live;
        version = version;
        applied = applied;
        history = history;
        snapshots = shown;
      })
  Frozen-behind s live version applied history shown = record {
    cfg = refl;
    pinned = refl;
    pinned_version = refl;
    pinned_config = refl;
    pinned_applied = refl;
    dispatch = refl;
    dropped = refl;
  }

  Frozen-trans : {s t u : Served T} → Frozen s t → Frozen t u → Frozen s u
  Frozen-trans a b = record {
    cfg = b.cfg ∙ a.cfg;
    pinned = b.pinned ∙ a.pinned;
    pinned_version = b.pinned_version ∙ a.pinned_version;
    pinned_config = b.pinned_config ∙ a.pinned_config;
    pinned_applied = b.pinned_applied ∙ a.pinned_applied;
    dispatch = b.dispatch ∙ a.dispatch;
    dropped = b.dropped ∙ a.dropped;
  }

  -- The part that is frozen, read off where it was frozen.
  pub Frozen-same :
      {s t : Served T}
      → Frozen s t
      → t ≡ record t {
        cfg = s.cfg;
        pinned = s.pinned;
        pinned_version = s.pinned_version;
        pinned_config = s.pinned_config;
        pinned_applied = s.pinned_applied;
        dispatch = s.dispatch;
        dropped = s.dropped;
      }
  Frozen-same {s} {t} h = λ i. record t {
    cfg = h.cfg i;
    pinned = h.pinned i;
    pinned_version = h.pinned_version i;
    pinned_config = h.pinned_config i;
    pinned_applied = h.pinned_applied i;
    dispatch = h.dispatch i;
    dropped = h.dropped i;
  }

module _ {T L : Type 0} (parse_duration : Text → Option ℕ) (o : Options T L) where
  -- What goes on behind a pin: updates, debounce windows that end, and refreshes, in any order.
  pub data Background (e : Engine T) : Engine T → Type 0 where
    idle : Background e e
    updated :
        {d : Engine T}
        → Background e d
        → (env : Env T) (idx pos : ℕ) (up : Update) (spec : FieldSpec)
        → Background e (handle_update parse_duration o env idx pos up spec d)
    flushed :
        {d : Engine T}
        → Background e d
        → (env : Env T) → Background e (handle_timer parse_duration o env d)
    refreshed :
        {d : Engine T}
        → Background e d
        → (env : Env T) → Background e (handle_pin o env refresh d).0

  published-Frozen :
      (env : Env T) (cand : T) (fields : List FieldChange) (s : Served T)
      → s.pinned ≡ true
      → Frozen s (published o env cand fields s)
  published-Frozen env cand fields s held =
      let d = advanced o env cand fields s in
      let choose : Bool → Served T = λ b.
        if b then d else sent o env (change_of o env cand fields s) (record d { cfg = cand }) in
      subst (Frozen s) (ap choose (sym held))
        (Frozen-behind s d.last_good d.version d.applied d.history d.snapshots)

  flush-Frozen :
      (env : Env T) (pending : Set) (e : Engine T)
      → HasRoom o e.dispatch
      → e.pinned ≡ true
      → Frozen (served e) (served (flush o env pending e).0)
  flush-Frozen env pending e room held = elim (flush-Atomic o env pending e room) [
    | inl kept ↦
        let f = (flush o env pending e).0 in
        subst (Frozen (served e)) (sym kept.same)
          (Frozen-behind (served e) e.last_good e.version f.applied e.history e.snapshots)
    | inr (cand, now, done) ↦
        let applied = (diff_fields o.specs e.observed e.applied).1 in
        subst (Frozen (served e)) (sym now.whole) (
          Frozen-trans
            (Frozen-behind (served e) e.last_good e.version applied e.history e.snapshots)
            (published-Frozen env cand (all_fields o e cand)
              (record (served e) { applied = applied }) held))
  ]

  refresh-Frozen :
      (env : Env T) (e : Engine T)
      → HasRoom o e.dispatch
      → e.pinned ≡ true
      → Frozen (served e) (served (handle_pin o env refresh e).0)
  unfolding handle_pin refresh_now
  refresh-Frozen env e room held =
      let d = refresh_fields o env 0 o.specs e in
      let kept = served-refresh_fields o env 0 o.specs e in
      subst (λ s. Frozen s (served (flush o env (all_paths o.specs) d).0)) kept
        (flush-Frozen env (all_paths o.specs) d
          (subst (HasRoom o) (sym (ap (λ (s : Served T). s.dispatch) kept)) room)
          (ap (λ (s : Served T). s.pinned) kept ∙ held))

  -- While a Watcher is pinned, no run of updates, debounce windows and refreshes changes what Get
  -- serves, the pin, or the queue of changes for OnChange.
  pub Background-Frozen :
      {e d : Engine T}
      → HasRoom o e.dispatch
      → e.pinned ≡ true
      → Background e d
      → Frozen (served e) (served d)
  unfolding handle_update handle_timer
  Background-Frozen {e} room held idle =
      Frozen-behind (served e) e.last_good e.version e.applied e.history e.snapshots
  Background-Frozen {e} room held (updated run env idx pos up spec) =
      let before = Background-Frozen room held run in
      subst (Frozen (served e)) (sym (served-loop_outcome parse_duration o env spec _ _)) before
  Background-Frozen room held (flushed {d} run env) =
      let before = Background-Frozen room held run in
      Frozen-trans before (
        flush-Frozen env d.pending d (subst (HasRoom o) (sym before.dispatch) room)
          (before.pinned ∙ held))
  Background-Frozen room held (refreshed {d} run env) =
      let before = Background-Frozen room held run in
      Frozen-trans before
        (refresh-Frozen env d (subst (HasRoom o) (sym before.dispatch) room) (before.pinned ∙ held))
