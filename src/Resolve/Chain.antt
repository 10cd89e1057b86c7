-- ===== src/Resolve/Chain.antt =====
-- resolve.go: the precedence rule of chains against an independent description.
use mamori.Prelude.{
  not, ℕ, suc, ◌+◌, ◌≡◌, ◌≢◌, ◌↔◌, refl, Bool, true, false, List, [], ◌∷◌, arith, All, length, ◌++◌,
  Bool-cases, ◌⊎◌, inl, inr,
}
use mamori.Errors.{Error, Sentinel, sentinel, Result, Result-cases, ok, err, is, ◌>>=◌}
use mamori.Ref.{Ref}
use mamori.Value.{Value, OnFailPolicy, first_ref}
use mamori.Resolve.{
  on_fail_default, apply_default, apply_on_fail, set_resolved, Sources, Resolved, resolve_ref,
  chain_loop, resolve_chain, tag_error, resolve_one,
}

-- The ref has no value: its provider answered, and the answer was "not found".
abbrev pub Missing : Sources → Ref → Type 0
Missing o ref = (e : Error) × (resolve_ref o ref ≡ err e) × (is e Sentinel.not_found ≡ true)

module _ (o : Sources) (first : Ref) where
  loop-wins :
      (front : List Ref) (ref : Ref) (back : List Ref) (i : ℕ) {v : Value}
      → All (Missing o) front
      → resolve_ref o ref ≡ ok v
      → chain_loop o first (front ++ ref ∷ back) i ≡ ok (v, i + length front)
  unfolding chain_loop
  loop-wins [] ref back i m h = let z : i ≡ i + 0 = omega arith in rw (h, chain_loop) (rw (← z))
  loop-wins (r ∷ front) ref back i ((e, failed, nf), m) h =
      let step : suc i + length front ≡ i + suc (length front) = omega arith in
      rw (failed, chain_loop) (rw (nf, ← step) (loop-wins front ref back (suc i) m h))

  loop-stops :
      (front : List Ref) (ref : Ref) (back : List Ref) (i : ℕ) {e : Error}
      → All (Missing o) front
      → resolve_ref o ref ≡ err e
      → is e Sentinel.not_found ≡ false
      → chain_loop o first (front ++ ref ∷ back) i ≡ err e
  unfolding chain_loop
  loop-stops [] ref back i m h n = rw (h, chain_loop) (rw n)
  loop-stops (r ∷ front) ref back i ((e, failed, nf), m) h n =
      rw (failed, chain_loop) (rw nf (loop-stops front ref back (suc i) m h n))

  chain_loop-Missing :
      (refs : List Ref) (i : ℕ)
      → All (Missing o) refs
      → chain_loop o first refs i ≡ err (tag_error first (sentinel Sentinel.not_found))
  unfolding chain_loop
  chain_loop-Missing [] i m = refl
  chain_loop-Missing (r ∷ refs) i ((e, failed, nf), m) =
      rw (failed, chain_loop) (rw nf (chain_loop-Missing refs (suc i) m))

  Missing-chain_loop :
      (refs : List Ref) (i : ℕ) (e : Error)
      → chain_loop o first refs i ≡ err e
      → is e Sentinel.not_found ≡ true
      → All (Missing o) refs
  unfolding chain_loop
  Missing-chain_loop [] i e h n = tt
  Missing-chain_loop (r ∷ refs) i e h n = elim (Result-cases (resolve_ref o r)) [
    | inl (v, good) ↦
        let found : ◌≡◌ {A = Result (Value × ℕ)} (ok (v, i)) (err e) = rw (good, chain_loop) at h in
        cc
    | inr (f, bad) ↦ elim (Bool-cases (is f Sentinel.not_found)) [
      | inl absent ↦ (
        (f, bad, absent),
        Missing-chain_loop refs (suc i) e (rw absent at (rw (bad, chain_loop) at h)) n,
      )
      | inr broken ↦
          let stopped : err f ≡ err e = rw broken at (rw (bad, chain_loop) at h) in
          let same : f ≡ e = ground arith in
          let both : is e Sentinel.not_found ≡ false = rw same at broken in cc
    ]
  ]

-- The ref decides its chain: it has a value, or fails with something else than "not found".
abbrev pub decides : Result Value → Bool
decides (ok v) = true
decides (err e) = not (is e Sentinel.not_found)

-- The precedence rule of a chain: the first ref that is not "not found" decides. If it has a value,
-- the chain has that value at its position; if it fails otherwise, the chain fails with that error;
-- and what the refs behind it would answer does not matter.
pub resolve_chain-precedence :
    (o : Sources) (front : List Ref) (ref : Ref) (back : List Ref)
    → All (Missing o) front
    → decides (resolve_ref o ref) ≡ true
    → resolve_chain o (front ++ ref ∷ back) ≡ (do v ← resolve_ref o ref; ok (v, length front))
unfolding resolve_chain
resolve_chain-precedence o front ref back m h =
    let z : length front ≡ 0 + length front = omega arith in
    elim (Result-cases (resolve_ref o ref)) [
      | inl (v, good) ↦ rw good (rw z (loop-wins o _ front ref back 0 m good))
      | inr (e, bad) ↦ rw bad (loop-stops o _ front ref back 0 m bad (ground (arith, bad)))
    ]

-- A chain is "not found" exactly if each of its refs is, and then the error names its first ref.
pub resolve_chain-Missing :
    (o : Sources) (refs : List Ref) (e : Error)
    → ((resolve_chain o refs ≡ err e) × (is e Sentinel.not_found ≡ true))
      ↔ ((e ≡ tag_error (first_ref refs) (sentinel Sentinel.not_found)) × All (Missing o) refs)
unfolding resolve_chain is
resolve_chain-Missing o refs e = (
  (λ (h, n).
      let all_missing = Missing-chain_loop o (first_ref refs) refs 0 e h n in
      (ground (arith, h, chain_loop-Missing o (first_ref refs) refs 0 all_missing), all_missing)),
  (λ (names_first, m). rw names_first (chain_loop-Missing o (first_ref refs) refs 0 m, refl)),
)

keeps_error :
    (p : OnFailPolicy) (r : Resolved) (e : Error)
    → p ≢ OnFailPolicy.use_default
    → on_fail_default p r e ≡ err e
unfolding on_fail_default
keeps_error OnFailPolicy.keep_last r e h = refl
keeps_error OnFailPolicy.use_default r e h = absurd (h refl)
keeps_error OnFailPolicy.fail r e h = refl

default_or_optional :
    (r r' : Resolved)
    → apply_default r ≡ ok r'
    → (r.spec.has_default ≡ true) ⊎ (r.spec.optional ≡ true)
unfolding apply_default
default_or_optional r r' h = ground arith

-- A default never hides a failure: if a field without onfail:"default" resolves and its value did
-- not come from a provider, then every ref of its chain was "not found", and the field has a
-- default or is optional.
pub resolve_one-absent :
    (o : Sources) (r r' : Resolved)
    → r.spec.on_fail ≢ OnFailPolicy.use_default
    → resolve_one o r ≡ ok r'
    → r'.found ≡ false
    → All (Missing o) r.spec.refs × ((r.spec.has_default ≡ true) ⊎ (r.spec.optional ≡ true))
unfolding resolve_one resolve_chain set_resolved apply_on_fail
resolve_one-absent o r r' policy h absent = elim (Result-cases (resolve_chain o r.spec.refs)) [
  | inl ((v, i), good) ↦
      let found : ok (set_resolved r v) ≡ ok r' = rw (good, resolve_one) at h in
      absurd (ground arith)
  | inr (e, bad) ↦ elim (Bool-cases (is e Sentinel.not_found)) [
    | inl gone ↦
        let defaulted : apply_default r ≡ ok r' = rw gone at (rw (bad, resolve_one) at h) in
        (
          Missing-chain_loop o (first_ref r.spec.refs) r.spec.refs 0 e bad gone,
          default_or_optional r r' defaulted,
        )
    | inr broken ↦
        let refused : on_fail_default r.spec.on_fail r e ≡ ok r' =
          rw broken at (rw (bad, resolve_one) at h) in
        let kept = keeps_error r.spec.on_fail r e policy in cc
  ]
]
