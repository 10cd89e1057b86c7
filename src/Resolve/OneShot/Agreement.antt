-- ===== src/Resolve/OneShot/Agreement.antt =====
-- resolveref.go beside resolve.go: a ref string and the chain of a field.
use mamori.Prelude.{ℕ, suc, ◌≡◌, refl, ap, ◌∙◌, inl, inr, some, List, [], ◌∷◌, All, Bool-cases}
use mamori.Errors.{Sentinel, is, Result, Result-cases, ok, err}
use mamori.Ref.{Ref}
use mamori.Value.{Value}
use mamori.Resolve.{Provider, Sources, provider, resolve_ref, chain_loop}
use mamori.Resolve.OneShot.{known, walked, ref_loop}

abbrev value_only : Result (Value × ℕ) → Result Value
value_only (ok (val, i)) = ok val
value_only (err e) = err e

abbrev Registered : Sources → Ref → Type 0
Registered o r = (p : Provider) × (provider o r.scheme ≡ some p)

-- If each scheme of a chain has a provider, Resolve gives what a field with that chain gets: the same
-- value, or the same error.
pub ref_loop-chain_loop :
    (o : Sources) (first : Ref) (refs : List Ref) (i : ℕ)
    → All (Registered o) refs
    → ref_loop o first refs ≡ value_only (chain_loop o first refs i)
unfolding ref_loop known walked chain_loop
ref_loop-chain_loop o first [] i h = refl
ref_loop-chain_loop o first (r ∷ refs) i ((p, here), h) =
    let rest = ref_loop-chain_loop o first refs (suc i) h in
    ap (λ q. known q (walked (resolve_ref o r) (ref_loop o first refs))) here
    ∙ (elim (Result-cases (resolve_ref o r)) [
      | inl (val, good) ↦ rw (good, chain_loop) refl
      | inr (e, bad) ↦ elim (Bool-cases (is e Sentinel.not_found)) [
        | inl absent ↦ rw (bad, chain_loop, absent) rest
        | inr broken ↦ rw (bad, chain_loop, broken) refl
      ]
    ])
