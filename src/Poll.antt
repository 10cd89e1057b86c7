-- ===== src/Poll.antt =====
-- poll.go: the watch of a provider that has none of its own. The clock and the random jitter are
-- arguments, and the loop is given by its rounds; a context that ends stops it between two of them.
pub mod Latest
pub mod Tests
use mamori.Prelude.{
  ℕ, ◌-◌, ◌/◌, ◌==◌, ltb, Bool, true, false, not, Option, none, some, if◌then◌else◌,
}
use mamori.Errors.{Error, Sentinel, is, Result, ok, err}
use mamori.Value.{Time, Value, changed, is_zero_time}
use mamori.Backoff.{lt_int64, BackoffState, fail_once, reset, delay}
use mamori.Resolve.{zero_value}
use mamori.Engine.State.{Update}

-- last with haveLast, and bo.
pub record PollState : Type 0 where
  pub last : Option Value
  pub backoff : BackoffState

abbrev failed_with : Error → Update
failed_with e = record { value = zero_value; error = some e }

abbrev value_update : Value → Update
value_update v = record { value = v; error = none }

-- The first poll, before the loop.
unfoldable pub poll_first : BackoffState → Result Value → PollState × Option Update
poll_first bo (ok v) = (record { last = some v; backoff = bo }, some (value_update v))
poll_first bo (err e) =
    if is e Sentinel.not_found
    then (record { last = none; backoff = bo }, none)
    else (record { last = none; backoff = fail_once bo }, some (failed_with e))

has_changed : Option Value → Value → Bool
has_changed none v = true
has_changed (some old) v = changed old v

-- A round of the loop, with what Resolve gave.
unfoldable pub poll_again : PollState → Result Value → PollState × Option Update
unfolding has_changed
poll_again s (err e) =
    if is e Sentinel.not_found
    then (record s { backoff = reset s.backoff }, none)
    else (record s { backoff = fail_once s.backoff }, some (failed_with e))
poll_again s (ok v) =
    if has_changed s.last v
    then (record { last = some v; backoff = reset s.backoff }, some (value_update v))
    else (record s { backoff = reset s.backoff }, none)

-- The wait before a round, of a value with a lease; until_expiry is not zero.
before_expiry : ℕ → ℕ
before_expiry until_expiry =
    let lease_refresh = until_expiry - until_expiry / 10 in
    if lease_refresh == 0 then until_expiry else lease_refresh

sooner : ℕ → ℕ → ℕ
sooner refresh d = if ltb refresh d then refresh else d

leased : Time → Option Value → ℕ → ℕ
unfolding before_expiry sooner
leased now none d = d
leased now (some v) d =
    if not (is_zero_time v.not_after)
    then if ltb now v.not_after then sooner (before_expiry (v.not_after - now)) d else d
    else d

unfoldable pub poll_wait : (ℕ → ℕ) → ℕ → Time → PollState → ℕ
unfolding leased
poll_wait jittered interval now s =
    let retry = delay s.backoff in
    if lt_int64 0 retry then jittered retry else leased now s.last (jittered interval)
