-- ===== src/Poll/Latest.antt =====
-- poll.go: what a polling watch has told of its provider, and when it asks again.
use mamori.Prelude.{
  ℕ, suc, ◌≡◌, refl, subst, ap, inl, inr, Bool, true, false, not, Option, none, some, List, [], ◌∷◌,
  if◌then◌else◌, Bool-cases, arith, str_eq_refl,
}
use mamori.Errors.{Sentinel, is, Result, ok, err}
use mamori.Value.{Value, changed}
use mamori.Backoff.{lt_int64, BackoffState, new_backoff, fail_once, reset}
use mamori.Engine.State.{Update}
use mamori.Poll.{PollState, poll_first, poll_again, has_changed}

-- A watch after a first poll and further ones, the newest first, with the newest good value that it
-- has told.
pub record Told : Type 0 where
  pub state : PollState
  pub value : Option Value

abbrev tell : Option Value → PollState × Option Update → Told
tell before (s, none) = record { state = s; value = before }
tell before (s, some up) = record {
  state = s;
  value = elim up.error [ none ↦ some up.value | some e ↦ before ];
}

pub polled : BackoffState → Result Value → List (Result Value) → Told
polled bo first [] = tell none (poll_first bo first)
polled bo first (got ∷ results) =
    let before = polled bo first results in tell before.value (poll_again before.state got)

-- The newest good value of the provider.
newer : Result Value → Option Value → Option Value
newer (ok v) before = some v
newer (err e) before = before

pub newest_value : Result Value → List (Result Value) → Option Value
unfolding newer
newest_value first [] = newer first none
newest_value first (got ∷ results) = newer got (newest_value first results)

-- The failures in a row up to now; "not found" is none.
after_result : Result Value → ℕ → ℕ
after_result (ok v) n = 0
after_result (err e) n = if is e Sentinel.not_found then 0 else suc n

pub streak : Result Value → List (Result Value) → ℕ
unfolding after_result
streak first [] = after_result first 0
streak first (got ∷ results) = after_result got (streak first results)

-- Both none, or the same value as Value.changed sees it.
pub up_to_date : Option Value → Option Value → Bool
up_to_date none none = true
up_to_date (some told) (some newest) = not (changed told newest)
up_to_date none (some newest) = false
up_to_date (some told) none = false

changed_refl : (v : Value) → changed v v ≡ false
unfolding changed
changed_refl v = rw (str_eq_refl v.version, str_eq_refl v.bytes) (false_anyway _)
  where
    false_anyway : (b : Bool) → (if b then false else false) ≡ false
    false_anyway true = refl
    false_anyway false = refl

abbrev IsSound : Told → Option Value → ℕ → Type 0
IsSound told newest failures =
    (told.state.last ≡ told.value)
    × (up_to_date told.value newest ≡ true)
    × (told.state.backoff.failures ≡ failures)

up_to_date_new : (v : Value) → up_to_date (some v) (some v) ≡ true
unfolding up_to_date
up_to_date_new v = ap not (changed_refl v)

up_to_date_kept :
    (o : Option Value) (v : Value) → has_changed o v ≡ false → up_to_date o (some v) ≡ true
unfolding has_changed up_to_date
up_to_date_kept none v h = absurd (ground (arith, h))
up_to_date_kept (some w) v h = ap not h

first-IsSound :
    (bo : BackoffState) (first : Result Value)
    → bo.failures ≡ 0
    → IsSound (tell none (poll_first bo first)) (newer first none) (after_result first 0)
unfolding poll_first newer after_result fail_once up_to_date
first-IsSound bo (ok v) h = (refl, up_to_date_new v, h)
first-IsSound bo (err e) h = elim (Bool-cases (is e Sentinel.not_found)) [
  | inl absent ↦ rw absent (refl, refl, h)
  | inr broken ↦ rw broken (refl, refl, omega (arith, h))
]

again-IsSound :
    (told : Told) (newest : Option Value) (n : ℕ) (got : Result Value)
    → IsSound told newest n
    → IsSound (tell told.value (poll_again told.state got)) (newer got newest) (after_result got n)
unfolding poll_again newer after_result fail_once reset
again-IsSound told newest n (err e) (same, current, counted) =
    elim (Bool-cases (is e Sentinel.not_found)) [
      | inl absent ↦ rw absent (same, current, refl)
      | inr broken ↦ rw broken (same, current, omega (arith, counted))
    ]
again-IsSound told newest n (ok v) (same, current, counted) =
    elim (Bool-cases (has_changed told.state.last v)) [
      | inl new ↦ rw new (refl, up_to_date_new v, refl)
      | inr old ↦
          let kept : up_to_date told.value (some v) ≡ true =
            subst (λ o. up_to_date o (some v) ≡ true) same
              (up_to_date_kept told.state.last v old) in
          rw old (same, kept, refl)
    ]

polled-IsSound :
    (bo : BackoffState) (first : Result Value) (results : List (Result Value))
    → bo.failures ≡ 0
    → IsSound (polled bo first results) (newest_value first results) (streak first results)
unfolding polled newest_value streak
polled-IsSound bo first [] h = first-IsSound bo first h
polled-IsSound bo first (got ∷ results) h =
    again-IsSound (polled bo first results) (newest_value first results) (streak first results) got
      (polled-IsSound bo first results h)

new_backoff_failures : (base max : ℕ) → (new_backoff base max).failures ≡ 0
unfolding new_backoff
new_backoff_failures base max = elim (Bool-cases (lt_int64 0 base)) [
  | inl on ↦ rw on refl
  | inr off ↦ rw off refl
]

-- A watch by polling, after any polls with any results: the newest value that it has told is the
-- newest good value of the provider, as Value.changed compares them, and there is none exactly if the
-- provider never gave one; and the backoff counts the failures in a row, "not found" not being one.
pub polled-up_to_date :
    (base max : ℕ) (first : Result Value) (results : List (Result Value))
    → let told = polled (new_backoff base max) first results in
      (up_to_date told.value (newest_value first results) ≡ true)
      × (told.state.backoff.failures ≡ streak first results)
polled-up_to_date base max first results =
    let (same, current, counted) =
      polled-IsSound (new_backoff base max) first results (new_backoff_failures base max) in
    (current, counted)
