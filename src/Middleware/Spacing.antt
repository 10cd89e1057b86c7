-- ===== src/Middleware/Spacing.antt =====
-- middleware/ratelimit.go: when the inner provider is called.
use mamori.Prelude.{
  ℕ, ◌+◌, ◌≤◌, ◌<◌, ◌≡◌, refl, ap, ◌∙◌, if◌then◌else◌, false, inl, inr, List, [], ◌∷◌, ltb, ◌==◌,
  Bool-cases, arith,
}
use mamori.Value.{Time}
use mamori.Middleware.{rate_limit}

-- The calls, the newest first, by the times at which they start to wait; what is given is when each
-- gets through, and the time from which the next may.
pub record Grants : Type 0 where
  pub times : List Time
  pub next : Time

pub granted : ℕ → List Time → Grants
granted interval [] = record { times = []; next = 0 }
granted interval (now ∷ calls) =
    let before = granted interval calls in
    let out = rate_limit interval now before.next in
    record { times = (now + out.0) ∷ before.times; next = out.1 }

-- Each is at least the interval behind the one before it.
pub IsSpaced : ℕ → List Time → Type 0
IsSpaced interval [] = Unit
IsSpaced interval (t ∷ []) = Unit
IsSpaced interval (t ∷ u ∷ times) = (u + interval ≤ t) × IsSpaced interval (u ∷ times)

abbrev IsBehind : ℕ → Time → List Time → Type 0
IsBehind interval next [] = Unit
IsBehind interval next (t ∷ times) = t + interval ≤ next

rate_limit_lem :
    (interval now next : ℕ)
    → 0 < interval
    → let out = rate_limit interval now next in
      (next ≤ now + out.0) × (now + out.0 + interval ≤ out.1)
unfolding rate_limit
rate_limit_lem interval now next h =
    let limited : (interval == 0) ≡ false = ground arith in
    elim (Bool-cases (ltb now next)) [
      | inl early ↦ rw (limited, early) (ground (arith, early), ground (arith, early))
      | inr late ↦ rw (limited, late) (ground (arith, late), ground (arith, late))
    ]

IsSpaced-cons :
    (interval : ℕ) (t next : Time) (times : List Time)
    → IsSpaced interval times
    → IsBehind interval next times
    → next ≤ t
    → IsSpaced interval (t ∷ times)
unfolding IsSpaced
IsSpaced-cons interval t next [] h b later = tt
IsSpaced-cons interval t next (u ∷ times) h b later = (omega (arith, b, later), h)

granted-IsBehind :
    (interval : ℕ) (calls : List Time)
    → 0 < interval
    → IsSpaced interval (granted interval calls).times
      × IsBehind interval (granted interval calls).next (granted interval calls).times
unfolding granted IsSpaced
granted-IsBehind interval [] h = (tt, tt)
granted-IsBehind interval (now ∷ calls) h =
    let before = granted interval calls in
    let (spaced, behind) = granted-IsBehind interval calls h in
    let (later, next) = rate_limit_lem interval now before.next h in
    (
      IsSpaced-cons interval (now + (rate_limit interval now before.next).0) before.next
          before.times spaced behind later,
      next,
    )

abbrev pub later : Time → Time → Time
later a b = if ltb a b then b else a

-- Each call at its own time, or an interval behind the one that was let through before it.
pub soonest : ℕ → List Time → List Time
soonest interval [] = []
soonest interval (now ∷ calls) =
    let before = soonest interval calls in
    (elim before [ [] ↦ now | t ∷ ts ↦ later now (t + interval) ]) ∷ before

-- From when the next call may start, by the calls that were let through.
abbrev opens : ℕ → List Time → Time
opens interval [] = 0
opens interval (t ∷ times) = t + interval

rate_limit_exact :
    (interval now next : ℕ)
    → 0 < interval
    → let out = rate_limit interval now next in
      (now + out.0 ≡ later now next) × (out.1 ≡ later now next + interval)
unfolding rate_limit
rate_limit_exact interval now next h =
    let limited : (interval == 0) ≡ false = ground arith in
    elim (Bool-cases (ltb now next)) [
      | inl early ↦ rw (limited, early) (ground (arith, early), refl)
      | inr late ↦ rw (limited, late) (omega arith, refl)
    ]

soonest_opens :
    (interval now : ℕ) (times : List Time)
    → later now (opens interval times)
      ≡ (elim times [ [] ↦ now | t ∷ ts ↦ later now (t + interval) ])
soonest_opens interval now [] = ground arith
soonest_opens interval now (t ∷ times) = refl

granted-opens :
    (interval : ℕ) (calls : List Time)
    → 0 < interval
    → ((granted interval calls).times ≡ soonest interval calls)
      × ((granted interval calls).next ≡ opens interval (soonest interval calls))
unfolding granted soonest
granted-opens interval [] h = (refl, refl)
granted-opens interval (now ∷ calls) h =
    let before = granted interval calls in
    let done = soonest interval calls in
    let (times, next) = granted-opens interval calls h in
    let (through, after) = rate_limit_exact interval now before.next h in
    let first : Time = elim done [ [] ↦ now | t ∷ ts ↦ later now (t + interval) ] in
    let start : later now before.next ≡ first =
      ap (later now) next ∙ soonest_opens interval now done in
    (
      ap (λ t. t ∷ before.times) (through ∙ start) ∙ ap (λ l. first ∷ l) times,
      after ∙ ap (λ t. t + interval) start,
    )

-- Any calls, in the order in which they take the lock and however they come, with an interval above
-- zero and contexts that do not end: RateLimit lets each through exactly when it comes, or an interval
-- behind the one let through before it if that is later. So two calls are never closer than the
-- interval, and none waits longer than it has to.
pub granted-soonest :
    (interval : ℕ) (calls : List Time)
    → 0 < interval
    → ((granted interval calls).times ≡ soonest interval calls)
      × IsSpaced interval (granted interval calls).times
granted-soonest interval calls h =
    ((granted-opens interval calls h).0, (granted-IsBehind interval calls h).0)
