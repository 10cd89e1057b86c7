-- ===== src/Middleware/Caching.antt =====
-- middleware/cache.go: what Cache answers after any calls.
use mamori.Prelude.{
  ℕ, ◌+◌, ◌≡◌, refl, ap, ◌∙◌, Bool, true, false, not, ◌&&◌, Option, none, some, List, [], ◌∷◌, Text,
  if◌then◌else◌, ltb, Map, get, get-put, str_eq, str_eq_iff, Bool-cases, inl, inr,
}
use mamori.Errors.{Result, Result-cases, ok, err}
use mamori.Ref.{Ref}
use mamori.Value.{Time, Value}
use mamori.Middleware.{CacheEntry, cached, ask, hit_or_ask}

-- A call of Resolve: when, for which ref, and what the inner provider answers if it is asked then.
abbrev Call : Type 0
Call = Time × Ref × Result Value

module _ (ttl : ℕ) where
  -- The entries of a new cache behind calls, the newest first.
  pub entries_after : List Call → Map CacheEntry
  entries_after [] = []
  entries_after ((now, ref, answer) ∷ before) =
      (cached ttl (λ r. answer) now ref (entries_after before)).1

  -- Younger than the ttl.
  abbrev is_fresh : Time → Option (Time × Value) → Bool
  is_fresh now none = false
  is_fresh now (some (t, v)) = ltb now (t + ttl)

  abbrev newly : Time → Result Value → Option (Time × Value) → Option (Time × Value)
  newly now (ok v) old = some (now, v)
  newly now (err e) old = old

  -- The value that was last fetched for a raw ref, and when: a call for it fetches if the value fetched
  -- before is no longer fresh then, and an error is not kept.
  unfoldable pub fetched : Text → List Call → Option (Time × Value)
  fetched raw [] = none
  fetched raw ((now, ref, answer) ∷ before) =
      let old = fetched raw before in
      if str_eq ref.raw raw && not (is_fresh now old) then newly now answer old else old

  -- A fresh value, or else what the inner provider answers.
  abbrev pub fresh_or : Time → Option (Time × Value) → Result Value → Result Value
  fresh_or now none answer = answer
  fresh_or now (some (t, v)) answer = if ltb now (t + ttl) then ok v else answer

  abbrev entry_of : Option (Time × Value) → Option CacheEntry
  entry_of none = none
  entry_of (some (t, v)) = some (record { value = v; expires = t + ttl })

  module _ (inner : Ref → Result Value) (now : Time) (ref : Ref) (entries : Map CacheEntry) where
    ask_answer : (ask ttl inner now ref entries).0 ≡ inner ref
    unfolding ask
    ask_answer = elim (Result-cases (inner ref)) [
      | inl (v, good) ↦ rw (good, ask) refl
      | inr (e, bad) ↦ rw (bad, ask) refl
    ]

    hit_or_ask_answer :
        (o : Option (Time × Value))
        → (hit_or_ask ttl inner now ref entries (entry_of o)).0 ≡ fresh_or now o (inner ref)
    unfolding hit_or_ask
    hit_or_ask_answer none = ask_answer
    hit_or_ask_answer (some (t, v)) = elim (Bool-cases (ltb now (t + ttl))) [
      | inl early ↦ rw early refl
      | inr late ↦ rw late ask_answer
    ]

    get-ask_other :
        (raw : Text)
        → str_eq ref.raw raw ≡ false
        → get (ask ttl inner now ref entries).1 raw ≡ get entries raw
    unfolding ask
    get-ask_other raw other = elim (Result-cases (inner ref)) [
      | inl (v, good) ↦ rw (good, ask) (get-put entries ref.raw raw _ ∙ rw other refl)
      | inr (e, bad) ↦ rw (bad, ask) refl
    ]

    get-ask_same :
        (raw : Text) (old : Option (Time × Value))
        → str_eq ref.raw raw ≡ true
        → get entries raw ≡ entry_of old
        → get (ask ttl inner now ref entries).1 raw ≡ entry_of (newly now (inner ref) old)
    unfolding ask
    get-ask_same raw old same held = elim (Result-cases (inner ref)) [
      | inl (v, good) ↦ rw (good, ask) (get-put entries ref.raw raw _ ∙ rw same refl)
      | inr (e, bad) ↦ rw (bad, ask) held
    ]

    get-hit_or_ask_other :
        (raw : Text) (o : Option (Time × Value))
        → str_eq ref.raw raw ≡ false
        → get (hit_or_ask ttl inner now ref entries (entry_of o)).1 raw ≡ get entries raw
    unfolding hit_or_ask
    get-hit_or_ask_other raw none other = get-ask_other raw other
    get-hit_or_ask_other raw (some (t, v)) other = elim (Bool-cases (ltb now (t + ttl))) [
      | inl early ↦ rw early refl
      | inr late ↦ rw late (get-ask_other raw other)
    ]

    get-hit_or_ask_same :
        (raw : Text) (old : Option (Time × Value))
        → str_eq ref.raw raw ≡ true
        → get entries raw ≡ entry_of old
        → get (hit_or_ask ttl inner now ref entries (entry_of old)).1 raw
          ≡ entry_of (if not (is_fresh now old) then newly now (inner ref) old else old)
    unfolding hit_or_ask
    get-hit_or_ask_same raw none same held = get-ask_same raw none same held
    get-hit_or_ask_same raw (some (t, v)) same held = elim (Bool-cases (ltb now (t + ttl))) [
      | inl early ↦ rw early held
      | inr late ↦ rw late (get-ask_same raw (some (t, v)) same held)
    ]

  get-entries_after :
      (raw : Text) (calls : List Call)
      → get (entries_after calls) raw ≡ entry_of (fetched raw calls)
  unfolding entries_after fetched cached
  get-entries_after raw [] = unfold get in refl
  get-entries_after raw ((now, ref, answer) ∷ before) =
      let inner : Ref → Result Value = λ r. answer in
      let entries = entries_after before in
      let asked = get-entries_after ref.raw before in
      let held = get-entries_after raw before in
      ap (λ e. get (hit_or_ask ttl inner now ref entries e).1 raw) asked
      ∙ (elim (Bool-cases (str_eq ref.raw raw)) [
        | inr other ↦
            rw other
              (get-hit_or_ask_other inner now ref entries raw (fetched ref.raw before) other ∙ held)
        | inl same ↦
            let equal : ref.raw ≡ raw = (str_eq_iff ref.raw raw).0 same in
            rw same (
              ap
                (λ r.
                  get (hit_or_ask ttl inner now ref entries (entry_of (fetched r before))).1 raw)
                equal
              ∙ get-hit_or_ask_same inner now ref entries raw (fetched raw before) same held)
      ])

  -- A new cache, after any calls for any refs at any times, whatever the inner provider answered to
  -- each: a call gets the value that was last fetched for its raw ref as long as that is younger than
  -- the ttl, and otherwise the inner provider's own answer. What counts as fetched is every good answer
  -- to a call that found nothing fresh, also one after an expiry; errors are never kept.
  pub cached-entries_after :
      (calls : List Call) (inner : Ref → Result Value) (now : Time) (ref : Ref)
      → (cached ttl inner now ref (entries_after calls)).0
        ≡ fresh_or now (fetched ref.raw calls) (inner ref)
  unfolding cached
  cached-entries_after calls inner now ref =
      let entries = entries_after calls in
      ap (λ e. (hit_or_ask ttl inner now ref entries e).0) (get-entries_after ref.raw calls)
      ∙ hit_or_ask_answer inner now ref entries (fetched ref.raw calls)
