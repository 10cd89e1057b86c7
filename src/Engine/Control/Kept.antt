-- ===== src/Engine/Control/Kept.antt =====
-- reconciler.go: the invariant of a Watcher along its commands.
use mamori.Prelude.{
  ℕ, suc, ◌≡◌, refl, sym, ◌∙◌, Bool, true, false, Option, none, some, List, [], ◌∷◌, if◌then◌else◌,
  arith, is_empty, Bool-cases, inl, inr, subst, All, ◌==◌,
}
use mamori.Value.{FieldSpec}
use mamori.Engine.State.{Change, Snapshot, Options, Env, Engine}
use mamori.Engine.Served.{served, served-refresh_outcome}
use mamori.Engine.Candidate.{diff_applied}
use mamori.Engine.Flush.Apply.{served-enqueue}
use mamori.Engine.Control.{
  Command, pin_at, pin_current, unpin, refresh, handle_pin, find_snapshot, refresh_fields,
  refresh_field, refresh_now, all_paths, pin_served, pin_snapshot, send_coalesced, release,
}
use mamori.Engine.Invariant.{Sound, sent-Sound, flush-Sound}

module _ {A : Type 0} (P : Snapshot A → Type 0) where
  found-All :
      (version : ℕ) (history : List (Snapshot A)) {s : Snapshot A}
      → All P history
      → find_snapshot version history ≡ some s
      → P s
  unfolding find_snapshot
  found-All version [] a h = absurd (ground (arith, h))
  found-All version (x ∷ history) {s} (p, a) h = elim (Bool-cases (x.version == version)) [
    | inl this ↦
        let h' : some x ≡ some s = rw this at h in let e : x ≡ s = ground arith in subst P e p
    | inr other ↦ found-All version history a (rw other at h)
  ]

module _ {T L : Type 0} (o : Options T L) (env : Env T) where
  pub served-refresh_fields :
      (i : ℕ) (specs : List FieldSpec) (e : Engine T)
      → served (refresh_fields o env i specs e) ≡ served e
  unfolding refresh_fields refresh_field
  served-refresh_fields i [] e = refl
  served-refresh_fields i (spec ∷ specs) e =
      served-refresh_fields (suc i) specs _ ∙ served-refresh_outcome o env spec _ _

  refresh_now-Sound : (e : Engine T) → Sound o (served e) → Sound o (served (refresh_now o env e).0)
  unfolding refresh_now
  refresh_now-Sound e h =
      flush-Sound o env (all_paths o.specs) (refresh_fields o env 0 o.specs e)
        (subst (Sound o) (sym (served-refresh_fields 0 o.specs e)) h)

  pin_snapshot-Sound :
      (version : ℕ) (e : Engine T) (s : Option (Snapshot T))
      → Sound o (served e)
      → find_snapshot version e.history ≡ s
      → Sound o (served (pin_snapshot o env version e s).0)
  unfolding pin_snapshot
  pin_snapshot-Sound version e none h missing = h
  pin_snapshot-Sound version e (some s) h found = record {
    recorded = h.recorded;
    serving = refl;
    get_valid =
        found-All (λ (x : Snapshot T). o.host.validate x.config ≡ none) version e.history
          h.recorded.past_valid found;
    room = h.room;
  }

  pin_served-Sound : (e : Engine T) → Sound o (served e) → Sound o (served (pin_served o env e).0)
  unfolding pin_served
  pin_served-Sound e h = record {
    recorded = h.recorded;
    serving = refl;
    get_valid = subst (λ c. o.host.validate c ≡ none) h.serving h.get_valid;
    room = h.room;
  }

  send_coalesced-Sound :
      (ev : Change T) (e : Engine T)
      → Sound o (served e)
      → Sound o (served (send_coalesced o env ev e))
  unfolding send_coalesced
  send_coalesced-Sound ev e h = elim (Bool-cases (is_empty ev.fields)) [
    | inl nothing ↦ rw nothing h
    | inr something ↦
        rw something (rw (served-enqueue o env ev e h.room) (sent-Sound o env ev (served e) h))
  ]

  either-Sound :
      (b : Bool) (d f : Engine T)
      → Sound o (served d)
      → Sound o (served f)
      → Sound o (served (if b then d else f))
  either-Sound true d f hd hf = hd
  either-Sound false d f hd hf = hf

  release-Sound : (e : Engine T) → Sound o (served e) → Sound o (served (release o env e))
  unfolding release
  release-Sound e h =
      let ev : Change T = record {
        before = e.pinned_config;
        after = e.last_good;
        fields = diff_applied o e.pinned_applied e.applied e.pinned_config e.last_good;
      } in
      let d = record e { pinned = false; cfg = e.last_good } in
      let freed : Sound o (served d) = record {
        recorded = h.recorded;
        serving = refl;
        get_valid = h.recorded.live_valid;
        room = h.room;
      } in
      let sent = send_coalesced-Sound ev d freed in
      either-Sound e.pinned _ e
        (record {
          recorded = sent.recorded;
          serving = sent.serving;
          get_valid = sent.get_valid;
          room = sent.room;
        })
        h

  pub handle_pin-Sound :
      (c : Command) (e : Engine T) → Sound o (served e) → Sound o (served (handle_pin o env c e).0)
  unfolding handle_pin
  handle_pin-Sound (pin_at version) e h = pin_snapshot-Sound version e _ h refl
  handle_pin-Sound pin_current e h = pin_served-Sound e h
  handle_pin-Sound unpin e h = release-Sound e h
  handle_pin-Sound refresh e h = refresh_now-Sound e h
