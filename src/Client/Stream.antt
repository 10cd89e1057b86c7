-- ===== src/Client/Stream.antt =====
-- providers/mamori/watch.go, providers/mamori/freshness.go: a watch of the client. The channel and the
-- context are a parameter: `sent` says whether an update was taken before the context ended.
use mamori.Prelude.{
  ℕ, ◌+◌, ◌-◌, ◌*◌, ◌%◌, ◌^◌, ◌==◌, ltb, leb, Bool, true, false, not, ◌||◌, Option, none, some,
  Text, codes, if◌then◌else◌, Map, get, put, is_empty, str_eq,
}
use mamori.Value.{Time}
use mamori.Resolve.{zero_value}
use mamori.Engine.State.{Update}
use mamori.Server.Wire.{ErrorDetail, ValueBody}
use mamori.Client.{reported, body_value}

-- resolvedAtSkewTolerance, in nanoseconds
abbrev pub skew_tolerance : ℕ
skew_tolerance = 1000000000

-- freshnessGuard, by its map of watermarks.
abbrev pub FreshnessGuard : Type 0
FreshnessGuard = Map Time

unfoldable pub not_before : Time → Option Time → Bool
not_before t none = true
not_before t (some watermark) = leb (watermark - skew_tolerance) t

unfoldable pub guard_allows : FreshnessGuard → Text → Option Time → Bool
unfolding not_before
guard_allows g name none = true
guard_allows g name (some t) = not_before t (get g name)

unfoldable pub advanced : FreshnessGuard → Text → Time → Option Time → FreshnessGuard
advanced g name t none = put g name t
advanced g name t (some current) = if ltb current t then put g name t else g

unfoldable pub guard_record : FreshnessGuard → Text → Option Time → FreshnessGuard
unfolding advanced
guard_record g name none = g
guard_record g name (some t) = advanced g name t (get g name)

-- What a frame has done: the guard, the update that was sent, and whether the stream is read on.
pub record Dispatched : Type 0 where
  pub guard : FreshnessGuard
  pub update : Option Update
  pub goes_on : Bool

-- A frame may name no binding: then it is of the one that is watched.
abbrev pub frame_name : Text → ValueBody → Text
frame_name name vb = if is_empty vb.name then name else vb.name

module _ (sent : Update → Bool) where
  -- An update frame that has been decoded.
  unfoldable pub dispatch_value : Text → FreshnessGuard → ValueBody → Dispatched
  dispatch_value name g vb =
      let key = frame_name name vb in
      let up : Update = record { value = body_value vb; error = none } in
      if not (guard_allows g key vb.resolved_at)
      then record { guard = g; update = none; goes_on = true }
      else if sent up
      then record { guard = guard_record g key vb.resolved_at; update = some up; goes_on = true }
      else record { guard = g; update = none; goes_on = false }

  unfoldable pub dispatch_error : FreshnessGuard → Option ErrorDetail → Dispatched
  dispatch_error g none = record { guard = g; update = none; goes_on = true }
  dispatch_error g (some d) =
      let up : Update = record { value = zero_value; error = some (reported d.kind) } in
      if sent up
      then record { guard = g; update = some up; goes_on = true }
      else record { guard = g; update = none; goes_on = false }

  -- dispatchSSEFrame; `decode` is json.Unmarshal into a valueBody.
  unfoldable pub dispatch_frame :
      (Text → Option ValueBody) → Text → FreshnessGuard → Text → Text → Dispatched
  unfolding dispatch_value dispatch_error
  dispatch_frame decode name g event payload = elim (decode payload) [
    | none ↦ record { guard = g; update = none; goes_on = true }
    | some vb ↦
        if str_eq event (codes "update")
        then dispatch_value name g vb
        else if str_eq event (codes "error")
        then dispatch_error g vb.error
        else record { guard = g; update = none; goes_on = true }
  ]

-- watchBackoffFloor, watchBackoffCap
abbrev pub watch_backoff_floor : ℕ
watch_backoff_floor = 100000000

abbrev pub watch_backoff_cap : ℕ
watch_backoff_cap = 30000000000

-- The product is an int64, not positive if it is 0 or has the sign bit.
unfoldable pub next_watch_backoff : ℕ → ℕ
next_watch_backoff d =
    let doubled = (d * 2) % 2 ^ 64 in
    if (doubled == 0) || leb (2 ^ 63) doubled || ltb watch_backoff_cap doubled
    then watch_backoff_cap
    else doubled

-- The loop of watchLoop keeps the endpoint it is at and the pause before the next sweep.
pub record Sweep : Type 0 where
  pub current : ℕ
  pub backoff : ℕ

-- A round of watchLoop over `n` endpoints, after watchOnce: the next, and the pause that is then
-- jittered and taken.
unfoldable pub next_round : ℕ → Bool → Sweep → Sweep × Option ℕ
unfolding next_watch_backoff
next_round n established s =
    let backoff = if established then watch_backoff_floor else s.backoff in
    let current = (s.current + 1) % n in
    if current == 0
    then (record { current = current; backoff = next_watch_backoff backoff }, some backoff)
    else (record { current = current; backoff = backoff }, none)
