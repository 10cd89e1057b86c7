-- ===== src/Middleware/Laws.antt =====
-- middleware/failover.go: what Failover answers.
use mamori.Prelude.{
  ◌≡◌, refl, sym, ap, ◌∙◌, true, false, List, [], ◌∷◌, ◌++◌, arith, All, All-append, Bool-cases,
  inl, inr,
}
use mamori.Errors.{Error, Sentinel, wrap, is, Result, Result-cases, ok, err}
use mamori.Ref.{Ref}
use mamori.Value.{Value}
use mamori.Middleware.{join_errors, failover_loop, failover}

-- Neither a value nor "not found".
abbrev pub Fails : Error → Type 0
Fails e = is e Sentinel.not_found ≡ false

join_errors-Fails :
    (es : List Error) → All Fails es → is (join_errors es) Sentinel.not_found ≡ false
unfolding join_errors is
join_errors-Fails [] a = refl
join_errors-Fails (e ∷ es) (here, a) = ground (arith, here, join_errors-Fails es a)

-- A provider of the list answered that.
abbrev pub Answered : Ref → Error → List (Ref → Result Value) → Type 0
Answered ref e ps =
    (front : List (Ref → Result Value)) × (p : Ref → Result Value) × (back : List
      (Ref → Result Value))
    × (ps ≡ front ++ p ∷ back)
    × (p ref ≡ err e)

failover_loop-not_found :
    (ps : List (Ref → Result Value)) (ref : Ref) (errs : List Error) (e : Error)
    → All Fails errs
    → failover_loop ps ref errs ≡ err e
    → is e Sentinel.not_found ≡ true
    → Answered ref e ps
unfolding failover_loop is
failover_loop-not_found [] ref errs e a h n =
    let same : wrap (join_errors errs) ≡ e = ground (arith, h) in
    let other : is e Sentinel.not_found ≡ false =
      ap (λ x. is x Sentinel.not_found) (sym same) ∙ join_errors-Fails errs a in
    absurd (ground (arith, n, other))
failover_loop-not_found (p ∷ ps) ref errs e a h n = elim (Result-cases (p ref)) [
  | inl (v, good) ↦
      let found : ◌≡◌ {A = Result Value} (ok v) (err e) = rw (good, failover_loop) at h in
      absurd (ground arith)
  | inr (x, bad) ↦ elim (Bool-cases (is x Sentinel.not_found)) [
    | inl absent ↦
        let same : ◌≡◌ {A = Result Value} (err x) (err e) =
          rw absent at (rw (bad, failover_loop) at h) in
        ([], p, ps, refl, bad ∙ same)
    | inr broken ↦
        let rest = rw broken at (rw (bad, failover_loop) at h) in
        let (front, q, back, split, answered) =
          failover_loop-not_found ps ref (errs ++ x ∷ []) e
            (All-append _ errs (x ∷ []) a (broken, tt)) rest n in
        (p ∷ front, q, back, ap (λ l. p ∷ l) split, answered)
  ]
]

-- An outage never looks like absence: if Failover answers "not found", then one of its providers
-- answered just that.
pub failover-not_found :
    (primary : Ref → Result Value) (replicas : List (Ref → Result Value)) (ref : Ref) (e : Error)
    → failover primary replicas ref ≡ err e
    → is e Sentinel.not_found ≡ true
    → Answered ref e (primary ∷ replicas)
unfolding failover
failover-not_found primary replicas ref e h n =
    failover_loop-not_found (primary ∷ replicas) ref [] e tt h n
