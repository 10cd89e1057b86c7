-- ===== src/Engine/Loop/Unpin.antt =====
-- reconciler.go, pin.go: Unpin, after what went on behind the pin.
use mamori.Prelude.{
  ℕ, ◌≡◌, sym, ap, ◌∙◌, Bool, true, false, Option, [], Text, if◌then◌else◌, is_empty, Bool-cases,
  inl, inr, subst,
}
use mamori.Engine.State.{Change, Options, Env, Engine}
use mamori.Engine.Served.{Served, served}
use mamori.Engine.Candidate.{diff_applied}
use mamori.Engine.Flush.{enqueue}
use mamori.Engine.Flush.Apply.{HasRoom, sent, served-enqueue}
use mamori.Engine.Control.{pin_current, unpin, handle_pin}
use mamori.Engine.Loop.Pinned.{Frozen, Frozen-same, Background, Background-Frozen}

module _ {T L : Type 0} (parse_duration : Text → Option ℕ) (o : Options T L) where
  -- What unpinning makes of the served part: Get serves the live config, and the queue has one change
  -- more, from what was pinned to what is live, unless these agree in every field.
  abbrev pub unpinned : Env T → Served T → Served T
  unpinned env s =
      let ev : Change T = record {
        before = s.pinned_config;
        after = s.last_good;
        fields = diff_applied o s.pinned_applied s.applied s.pinned_config s.last_good;
      } in
      let free = record s { pinned = false; cfg = s.last_good; pinned_applied = [] } in
      if is_empty ev.fields then free else sent o env ev free

  -- PinCurrent on an engine that is not pinned.
  abbrev pinned_now : Served T → Served T
  pinned_now s = record s {
    cfg = s.last_good;
    pinned = true;
    pinned_version = s.version;
    pinned_config = s.last_good;
    pinned_applied = s.applied;
  }

  served-pin_current :
      (env : Env T) (e : Engine T)
      → e.pinned ≡ false
      → served (handle_pin o env pin_current e).0 ≡ pinned_now (served e)
  unfolding handle_pin
  served-pin_current env e free = λ i. record (served e) {
    pinned = true;
    pinned_version = if free i then e.pinned_version else e.version;
    pinned_config = if free i then e.pinned_config else e.last_good;
    pinned_applied = if free i then e.pinned_applied else e.applied;
    cfg = if free i then e.pinned_config else e.last_good;
  }

  served-unpin :
      (env : Env T) (e : Engine T)
      → HasRoom o e.dispatch
      → e.pinned ≡ true
      → served (handle_pin o env unpin e).0 ≡ unpinned env (served e)
  unfolding handle_pin
  served-unpin env e room held =
      let ev : Change T = record {
        before = e.pinned_config;
        after = e.last_good;
        fields = diff_applied o e.pinned_applied e.applied e.pinned_config e.last_good;
      } in
      let d = record e { pinned = false; cfg = e.last_good } in
      let cleared : Engine T → Engine T = λ f. record f { pinned_applied = [] } in
      let done : Bool → Engine T = λ b. if b then d else enqueue o env ev d in
      let free = served (cleared d) in
      ap (λ b. served (if b then cleared (done (is_empty ev.fields)) else e)) held
      ∙ elim (Bool-cases (is_empty ev.fields)) [
        | inl nothing ↦
            ap (λ b. served (cleared (done b))) nothing
            ∙ ap (λ b. if b then free else sent o env ev free) (sym nothing)
        | inr something ↦
            ap (λ b. served (cleared (done b))) something
            ∙ ap (λ (s : Served T). record s { pinned_applied = [] })
                (served-enqueue o env ev d room)
            ∙ ap (λ b. if b then free else sent o env ev free) (sym something)
      ]

  -- Pin the config that is served, let any run of updates, debounce windows and refreshes go by, and
  -- unpin, in an engine that is not pinned and whose queue of changes has room. At the end Get
  -- serves the live config, and the queue is what it was at the pin, with no change more if the
  -- versions applied at the pin and now agree, and with one change more otherwise: from the config
  -- at the pin to the live one, with all that differs.
  pub pin-unpin :
      (pin_env unpin_env : Env T) (e d : Engine T)
      → e.pinned ≡ false
      → HasRoom o e.dispatch
      → Background parse_duration o (handle_pin o pin_env pin_current e).0 d
      → served (handle_pin o unpin_env unpin d).0
        ≡ unpinned unpin_env (record (served d) {
          cfg = e.last_good;
          pinned = true;
          pinned_version = e.version;
          pinned_config = e.last_good;
          pinned_applied = e.applied;
          dispatch = e.dispatch;
          dropped = e.dropped;
        })
  pin-unpin pin_env unpin_env e d free room run =
      let p = (handle_pin o pin_env pin_current e).0 in
      let at_pin = served-pin_current pin_env e free in
      let held : p.pinned ≡ true = ap (λ (s : Served T). s.pinned) at_pin in
      let pin_room : HasRoom o p.dispatch =
        subst (HasRoom o) (sym (ap (λ (s : Served T). s.dispatch) at_pin)) room in
      let frozen =
        subst (λ s. Frozen s (served d)) at_pin
          (Background-Frozen parse_duration o {e = p} {d = d} pin_room held run) in
      served-unpin unpin_env d (subst (HasRoom o) (sym frozen.dispatch) room) frozen.pinned
      ∙ ap (unpinned unpin_env) (Frozen-same frozen)
