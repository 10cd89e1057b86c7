-- ===== src/Backoff.antt =====
-- backoff.go: how long a source that fails waits before it is tried again. A Duration is an int64: it
-- stands as its bit pattern, below 2 ^ 64, which doubling wraps and comparisons read as signed.
pub mod Delay
pub mod Tests
use mamori.Prelude.{
  ℕ, zero, suc, ◌+◌, ◌-◌, ◌*◌, ◌/◌, ◌%◌, ◌^◌, Bool, true, false, if◌then◌else◌, ltb, ◌==◌,
}

-- `<` on int64s, by their bit patterns: the sign bit is turned round.
abbrev pub lt_int64 : ℕ → ℕ → Bool
lt_int64 a b = ltb ((a + 2 ^ 63) % 2 ^ 64) ((b + 2 ^ 63) % 2 ^ 64)

pub record BackoffState : Type 0 where
  pub base : ℕ
  pub ceiling : ℕ
  pub failures : ℕ

-- newBackoff of the options' backoffBase and backoffMax.
unfoldable pub new_backoff : ℕ → ℕ → BackoffState
new_backoff base max =
    if lt_int64 0 base
    then record { base = base; ceiling = if lt_int64 max base then base else max; failures = 0 }
    else record { base = 0; ceiling = 0; failures = 0 }

unfoldable pub fail_once : BackoffState → BackoffState
fail_once b = record b { failures = b.failures + 1 }

unfoldable pub reset : BackoffState → BackoffState
reset b = record b { failures = 0 }

-- The loop of delay, with the rounds that are left, for a ceiling that is not negative.
unfoldable pub delay_loop : ℕ → ℕ → ℕ → ℕ
delay_loop zero d ceiling = if lt_int64 ceiling d then ceiling else d
delay_loop (suc rounds) d ceiling =
    let rest = delay_loop rounds ((d * 2) % 2 ^ 64) ceiling in
    if lt_int64 (ceiling / 2) d then ceiling else rest

unfoldable pub delay : BackoffState → ℕ
unfolding delay_loop
delay b =
    if lt_int64 0 b.base
    then if b.failures == 0 then 0 else delay_loop (b.failures - 1) b.base b.ceiling
    else 0
