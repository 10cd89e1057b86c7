-- ===== src/Backoff/Tests.antt =====
-- The theorem on backoff at concrete options: one second, up to ten.
use mamori.Prelude.{◌≡◌, if◌then◌else◌, ltb, arith}
use mamori.Backoff.{new_backoff, delay}
use mamori.Backoff.Delay.{at_most, doubled, delay-doubled}

delay-doubled_example :
    delay (record (new_backoff 1000 10000) { failures = 5 })
    ≡ at_most (if ltb 10000 1000 then 1000 else 10000) (doubled 1000 4)
delay-doubled_example = delay-doubled 1000 10000 4 (omega arith) (omega arith) (omega arith)
