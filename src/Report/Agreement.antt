-- ===== src/Report/Agreement.antt =====
-- report.go: Status beside Health.
use mamori.Prelude.{
  ◌≡◌, refl, ap, ◌∙◌, Bool, true, false, not, ◌&&◌, List, [], ◌∷◌, ◌++◌, if◌then◌else◌, any,
  is_empty, arith, ℕ,
}
use mamori.Value.{Time}
use mamori.Report.{
  FieldStatus, Report, field_unhealthy, unhealthy_of, status, health, bootstrap_expired,
  HealthFailure, unhealthy_fields, bootstrap_stale,
}

any-unhealthy_of :
    (fs : List FieldStatus) → is_empty (unhealthy_of fs) ≡ not (any field_unhealthy fs)
unfolding unhealthy_of
any-unhealthy_of [] = refl
any-unhealthy_of (f ∷ fs) = ground (arith, any-unhealthy_of fs)

no_failure :
    (bad : List FieldStatus) (expired : Bool) (a b : HealthFailure)
    → (is_empty ((if is_empty bad then [] else a ∷ []) ++ (if expired then b ∷ [] else [])))
      ≡ (is_empty bad && not expired)
no_failure [] true a b = refl
no_failure [] false a b = refl
no_failure (f ∷ bad) expired a b = refl

-- At every moment, for every stored report and every setting of WithStale and of the age that a
-- bootstrap snapshot may have, Health returns no error exactly if Status says healthy.
pub health-status :
    (stale max_age : ℕ) (now : Time) (rep : Report)
    → is_empty (health stale max_age now rep) ≡ (status stale max_age now rep).healthy
unfolding health status bootstrap_expired
health-status stale max_age now rep =
    let out = status stale max_age now rep in
    let expired = bootstrap_expired out max_age in
    no_failure (unhealthy_of out.fields) expired (unhealthy_fields (unhealthy_of out.fields))
      bootstrap_stale
    ∙ ap (λ (b : Bool). b && not expired) (any-unhealthy_of out.fields)
