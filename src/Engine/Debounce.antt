-- ===== src/Engine/Debounce.antt =====
-- reconciler.go: the debounce window of the loop (debounceFor, refDebounceOverride, and addPending,
-- arm, disarm and unblock of loop). Durations are not negative.
use mamori.Prelude.{
  ℕ, ◌+◌, Bool, true, false, Option, none, some, List, [], ◌∷◌, Text, codes, str_eq, ltb,
  if◌then◌else◌, is_empty, get, put, member, insert, delete,
}
use mamori.Ref.{Ref, opt}
use mamori.Value.{Value, FieldSpec, changed}
use mamori.Engine.State.{Options, Env, Engine, applied_at}

-- refDebounceOverride; `parse_duration` is time.ParseDuration.
unfoldable pub ref_debounce_override : (Text → Option ℕ) → Ref → Option ℕ
unfolding str_eq
ref_debounce_override parse_duration ref =
    let v = opt ref (codes "debounce") in
    if is_empty v then none else elim (parse_duration v) [
      | some d ↦ some d
      | none ↦ if str_eq v (codes "0") then some 0 else none
    ]

shorter : Option ℕ → Option ℕ → Option ℕ
shorter none d = d
shorter (some b) none = some b
shorter (some b) (some d) = if ltb d b then some d else some b

-- The loop of debounceFor: the shortest override so far.
debounce_loop : (Text → Option ℕ) → List Ref → Option ℕ → Option ℕ
unfolding shorter
debounce_loop parse_duration [] best = best
debounce_loop parse_duration (r ∷ rs) best =
    debounce_loop parse_duration rs (shorter best (ref_debounce_override parse_duration r))

or_default : Option ℕ → ℕ → ℕ
or_default none d = d
or_default (some b) d = b

unfoldable pub debounce_for : (Text → Option ℕ) → ℕ → FieldSpec → ℕ
unfolding debounce_loop or_default
debounce_for parse_duration default_debounce spec =
    or_default (debounce_loop parse_duration spec.refs none) default_debounce

module _ {T L : Type 0} (parse_duration : Text → Option ℕ) (o : Options T L) (env : Env T) where
  -- A timer armed for a time that has passed fires at once.
  unfoldable pub arm : Engine T → Engine T
  arm e =
      let fire_at = e.pending_since + e.window in
      record e { timer = some (if ltb fire_at env.now then env.now else fire_at) }

  unfoldable pub add_pending : FieldSpec → Engine T → Engine T
  add_pending spec e =
      let field_window = debounce_for parse_duration o.debounce spec in
      let e' =
        if is_empty e.pending
        then record e { pending_since = env.now; window = field_window }
        else (if ltb field_window e.window then record e { window = field_window } else e) in
      record e' { pending = insert e'.pending spec.path }

  -- markChanged: an unchanged value does not touch the window.
  unfoldable pub mark_changed : FieldSpec → Value → Engine T → Engine T
  mark_changed spec val e =
      let marked = arm (add_pending spec (record e { observed = put e.observed spec.path val })) in
      elim (get e.observed spec.path) [
        | some cur ↦ if changed cur val then marked else e
        | none ↦ marked
      ]

  -- The loop of unblock: every field whose observed version is not the applied one is pending again.
  unfoldable pub requeue : List FieldSpec → Engine T → Engine T
  requeue [] e = e
  requeue (spec ∷ specs) e = requeue specs (elim (get e.observed spec.path) [
    | none ↦ e
    | some v ↦ if str_eq (applied_at e.applied spec.path) v.version then e else add_pending spec e
  ])

  -- rearmed
  unfoldable pub any_stale : List FieldSpec → Engine T → Bool
  any_stale [] e = false
  any_stale (spec ∷ specs) e = elim (get e.observed spec.path) [
    | none ↦ any_stale specs e
    | some v ↦ if str_eq (applied_at e.applied spec.path) v.version then any_stale specs e else true
  ]

  unfoldable pub unblock : Text → Engine T → Engine T
  unblock path e =
      let e' = record e { blocked = delete e.blocked path } in
      let requeued = requeue o.specs e' in
      if member e.blocked path then (if any_stale o.specs e' then arm requeued else requeued) else e
