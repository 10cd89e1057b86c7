-- ===== src/Backoff/Delay.antt =====
-- backoff.go: the delay beside exponential growth.
use mamori.Prelude.{
  ℕ, zero, suc, ◌+◌, ◌-◌, ◌*◌, ◌/◌, ◌%◌, ◌^◌, ◌≤◌, ◌<◌, ◌≡◌, refl, ap, ◌∙◌, true, false,
  if◌then◌else◌, ltb, ◌==◌, arith, Bool-cases, inl, inr,
}
use mamori.Backoff.{lt_int64, BackoffState, new_backoff, delay, delay_loop}

-- Exponential growth: `d`, doubled `n` times.
pub doubled : ℕ → ℕ → ℕ
doubled d zero = d
doubled d (suc n) = doubled (d * 2) n

abbrev pub at_most : ℕ → ℕ → ℕ
at_most ceiling d = if ltb ceiling d then ceiling else d

doubled-le : (d n : ℕ) → d ≤ doubled d n
unfolding doubled
doubled-le d zero = omega arith
doubled-le d (suc n) = omega (arith, doubled-le (d * 2) n)

lt_int64-ltb : (a b : ℕ) → a < 2 ^ 63 → b < 2 ^ 63 → lt_int64 a b ≡ ltb a b
lt_int64-ltb a b ha hb =
    let a_turned : (a + 2 ^ 63) % 2 ^ 64 ≡ a + 2 ^ 63 = omega arith in
    let b_turned : (b + 2 ^ 63) % 2 ^ 64 ≡ b + 2 ^ 63 = omega arith in
    rw (a_turned, b_turned) (ground arith)

delay_loop-doubled :
    (n d ceiling : ℕ)
    → d < 2 ^ 63
    → ceiling < 2 ^ 63
    → delay_loop n d ceiling ≡ at_most ceiling (doubled d n)
unfolding delay_loop doubled
delay_loop-doubled zero d ceiling hd h = rw (lt_int64-ltb ceiling d h hd) refl
delay_loop-doubled (suc n) d ceiling hd h =
    let signed : lt_int64 (ceiling / 2) d ≡ ltb (ceiling / 2) d =
      lt_int64-ltb (ceiling / 2) d (omega arith) hd in
    elim (Bool-cases (ltb (ceiling / 2) d)) [
      | inl over ↦
          let beyond : ltb ceiling (doubled (d * 2) n) ≡ true =
            ground (arith, over, doubled-le (d * 2) n) in
          rw (signed, over, beyond) refl
      | inr under ↦
          let no_wrap : (d * 2) % 2 ^ 64 ≡ d * 2 = ground (arith, under, h) in
          let fits : d * 2 < 2 ^ 63 = ground (arith, under, h) in
          rw (signed, under, no_wrap) (delay_loop-doubled n (d * 2) ceiling fits h)
    ]

delay_lem :
    (base ceiling n : ℕ)
    → 0 < base
    → base < 2 ^ 63
    → delay (record { base = base; ceiling = ceiling; failures = suc n })
      ≡ delay_loop n base ceiling
unfolding delay
delay_lem base ceiling n h hb =
    let some_base : lt_int64 0 base ≡ true = lt_int64-ltb 0 base (omega arith) hb ∙ ground arith in
    let failed : (suc n == 0) ≡ false = ground arith in
    let rounds : suc n - 1 ≡ n = omega arith in rw (some_base, failed, rounds) refl

new_backoff_lem :
    (base max : ℕ)
    → 0 < base
    → base < 2 ^ 63
    → max < 2 ^ 63
    → new_backoff base max
      ≡ record { base = base; ceiling = if ltb max base then base else max; failures = 0 }
unfolding new_backoff
new_backoff_lem base max h hb hm =
    let some_base : lt_int64 0 base ≡ true = lt_int64-ltb 0 base (omega arith) hb ∙ ground arith in
    rw (some_base, lt_int64-ltb max base hm hb) refl

-- A source that backs off: after `suc n` failures in a row the delay is the base doubled `n` times,
-- but never more than the ceiling, which is the longer of the base and the given maximum, for any
-- base above zero and any maximum that is not negative; the doubling of the int64 never overflows.
pub delay-doubled :
    (base max n : ℕ)
    → 0 < base
    → base < 2 ^ 63
    → max < 2 ^ 63
    → delay (record (new_backoff base max) { failures = suc n })
      ≡ at_most (if ltb max base then base else max) (doubled base n)
delay-doubled base max n h hb hm =
    let fits : (if ltb max base then base else max) < 2 ^ 63 = ground arith in
    ap (λ (b : BackoffState). delay (record b { failures = suc n }))
      (new_backoff_lem base max h hb hm)
    ∙ delay_lem base _ n h hb
    ∙ delay_loop-doubled n base _ hb fits
