-- ===== src/Engine/Sources/Precedence.antt =====
-- reconciler.go beside resolve.go: the winner of a chain in a Watcher and in a Load.
use mamori.Prelude.{
  ℕ, zero, suc, ◌≡◌, refl, true, false, Option, none, some, List, [], ◌∷◌, arith, replicate, length,
  Bool-cases, Option-cases, ◌⊎◌, inl, inr,
}
use mamori.Errors.{Sentinel, sentinel, Result, Result-cases, ok, err, is, map_err}
use mamori.Ref.{Ref}
use mamori.Value.{Value, FieldSpec, mark_sensitive}
use mamori.Resolve.{Sources, Provider, provider, resolve_ref, chain_loop, resolve_chain, tag_error}
use mamori.Engine.State.{SrcState}
use mamori.Engine.Sources.{
  unseen, seen_error, Winner, won, lost, winner_loop, only_error, recompute_winner, probe,
  seed_chain_sources,
}

-- The two answers agree: the same value at the same position, marked as the field says, or both are
-- "not found", or neither is and they are the same error, the first under the layer of ProviderError
-- that names the ref.
abbrev pub Agrees : FieldSpec → Result (Value × ℕ) → Winner → Type 0
Agrees spec (ok (v, i)) (won w j) = (w ≡ mark_sensitive spec v) × (i ≡ j)
Agrees spec (err e) (lost pos f) =
    ((is e Sentinel.not_found ≡ true) × (is f Sentinel.not_found ≡ true))
    ⊎ ((is e Sentinel.not_found ≡ false)
        × (is f Sentinel.not_found ≡ false)
        × (r : Ref) × (e ≡ tag_error r f))
Agrees spec _ _ = ⊥

-- What the loop of the reconciler has at a position where the loop of Load stands.
abbrev Loop : FieldSpec → Result (Value × ℕ) → Option Winner → Type 0
Loop spec res (some w) = Agrees spec res w
Loop spec (ok x) none = ⊥
Loop spec (err e) none = is e Sentinel.not_found ≡ true

unseen-loop : (n i : ℕ) → winner_loop (replicate n unseen) i ≡ none
unfolding winner_loop
unseen-loop zero i = refl
unseen-loop (suc n) i = unseen-loop n (suc i)

module _ (o : Sources) (ref : Ref) where
  resolve_ref_unregistered :
      provider o ref.scheme ≡ none
      → resolve_ref o ref ≡ err (tag_error ref (sentinel Sentinel.invalid))
  unfolding resolve_ref
  resolve_ref_unregistered h = rw (h, resolve_ref)

  resolve_ref-probe :
      (p : Provider) (r : Result Value)
      → provider o ref.scheme ≡ some p
      → probe o p ref ≡ r
      → resolve_ref o ref ≡ map_err (tag_error ref) r
  unfolding resolve_ref probe
  resolve_ref-probe p r h e = rw (h, resolve_ref) (rw e)

module _ (o : Sources) (spec : FieldSpec) (first : Ref) where
  chain_loop-Loop :
      (refs : List Ref) (i : ℕ)
      → Loop spec (chain_loop o first refs i) (winner_loop (seed_chain_sources o spec refs) i)
  unfolding chain_loop winner_loop seed_chain_sources is
  chain_loop-Loop [] i = refl
  chain_loop-Loop (ref ∷ refs) i = elim (Option-cases (provider o ref.scheme)) [
    | inl unregistered ↦
        rw (resolve_ref_unregistered o ref unregistered, chain_loop)
          (rw (unregistered, seed_chain_sources) (inr (refl, refl, ref, refl)))
    | inr (p, registered) ↦ elim (Result-cases (probe o p ref)) [
      | inl (v, good) ↦
          rw (resolve_ref-probe o ref p (ok v) registered good, chain_loop)
            (rw (registered, seed_chain_sources) (rw (good, seed_chain_sources) (refl, refl)))
      | inr (e, bad) ↦ elim (Bool-cases (is e Sentinel.not_found)) [
        | inl absent ↦
            rw (resolve_ref-probe o ref p (err e) registered bad, chain_loop)
              (rw (registered, seed_chain_sources)
                (rw (bad, seed_chain_sources)
                  (rw absent (rw absent (chain_loop-Loop refs (suc i))))))
        | inr broken ↦
            rw (resolve_ref-probe o ref p (err e) registered bad, chain_loop)
              (rw (registered, seed_chain_sources)
                (rw (bad, seed_chain_sources)
                  (rw broken (rw broken (inr (broken, broken, ref, refl))))))
      ]
    ]
  ]

-- The fall-through of recomputeWinner on a walk that fell through is a "not found".
IsAbsent : Winner → Type 0
IsAbsent (won v i) = ⊥
IsAbsent (lost pos e) = is e Sentinel.not_found ≡ true

only_error-IsAbsent :
    (st : SrcState) (sts : List SrcState)
    → st.seen ≡ true
    → winner_loop (st ∷ sts) 0 ≡ none
    → IsAbsent (only_error (st ∷ sts))
unfolding winner_loop only_error IsAbsent is
only_error-IsAbsent st [] s h = elim (Option-cases st.error) [
  | inl none_given ↦ rw none_given refl
  | inr (e, given) ↦ let absent : is e Sentinel.not_found ≡ true = ground arith in rw given absent
]
only_error-IsAbsent st (x ∷ sts) s h = refl

seed_chain_sources-IsAbsent :
    (o : Sources) (spec : FieldSpec) (ref : Ref) (refs : List Ref)
    → winner_loop (seed_chain_sources o spec (ref ∷ refs)) 0 ≡ none
    → IsAbsent (only_error (seed_chain_sources o spec (ref ∷ refs)))
unfolding seed_chain_sources
seed_chain_sources-IsAbsent o spec ref refs h = elim (Option-cases (provider o ref.scheme)) [
  | inl unregistered ↦
      rw (unregistered, seed_chain_sources)
        (only_error-IsAbsent _ (replicate (length refs) unseen) refl
          (rw (unregistered, seed_chain_sources) at h))
  | inr (p, registered) ↦
      let h' = rw (registered, seed_chain_sources) at h in
      elim (Result-cases (probe o p ref)) [
        | inl (v, good) ↦
            rw (registered, seed_chain_sources)
              (rw (good, seed_chain_sources)
                (only_error-IsAbsent _ (replicate (length refs) unseen) refl
                  (rw (good, seed_chain_sources) at h')))
        | inr (e, bad) ↦
            let h'' = rw (bad, seed_chain_sources) at h' in
            elim (Bool-cases (is e Sentinel.not_found)) [
              | inl absent ↦
                  rw (registered, seed_chain_sources)
                    (rw (bad, seed_chain_sources)
                      (rw absent (
                        only_error-IsAbsent (seen_error e) (seed_chain_sources o spec refs) refl
                          (rw absent at h''))))
              | inr broken ↦
                  rw (registered, seed_chain_sources)
                    (rw (bad, seed_chain_sources)
                      (rw broken (
                        only_error-IsAbsent (seen_error e) (replicate (length refs) unseen) refl
                          (rw broken at h''))))
            ]
      ]
]

Agrees-IsAbsent :
    (spec : FieldSpec) (res : Result (Value × ℕ)) (w : Winner)
    → Loop spec res none
    → IsAbsent w
    → Agrees spec res w
unfolding IsAbsent
Agrees-IsAbsent spec (ok x) w gone absent = absurd gone
Agrees-IsAbsent spec (err e) (won v i) gone absent = absurd absent
Agrees-IsAbsent spec (err e) (lost pos f) gone absent = inl (gone, absent)

-- The reconciler and Load agree on every chain: the winner that recomputeWinner reads off a walk of
-- seedChainSources is the one that resolveChain finds with the same providers. It has the same
-- value (marked sensitive if the field is) at the same position; or both fail, one as "not found"
-- exactly if the other is, and any other failure is the same error, under the ProviderError that
-- resolveChain puts round it.
pub recompute_winner-resolve_chain :
    (o : Sources) (spec : FieldSpec) (ref : Ref) (refs : List Ref)
    → Agrees spec
        (resolve_chain o (ref ∷ refs))
        (recompute_winner (seed_chain_sources o spec (ref ∷ refs)))
unfolding resolve_chain recompute_winner
recompute_winner-resolve_chain o spec ref refs =
    let agrees = chain_loop-Loop o spec ref (ref ∷ refs) 0 in
    elim (Option-cases (winner_loop (seed_chain_sources o spec (ref ∷ refs)) 0)) [
      | inl fell ↦
          rw (fell, recompute_winner)
            (Agrees-IsAbsent spec _ _ (rw fell at agrees)
              (seed_chain_sources-IsAbsent o spec ref refs fell))
      | inr (w, found) ↦ rw (found, recompute_winner) (rw found at agrees)
    ]
