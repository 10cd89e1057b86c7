-- ===== src/Client/Endpoints.antt =====
-- providers/mamori/failover.go: which endpoint answers.
use mamori.Prelude.{
  arith, ◌≡◌, refl, sym, ap, ◌∙◌, ◌⊎◌, inl, inr, Bool, true, false, not, ◌&&◌, none, some, List, [],
  ◌∷◌, ◌++◌, All, Bool-cases,
}
use mamori.Errors.{Error, Kind, same_kind, error_kind, opaque, Result, ok, err}
use mamori.Errors.Laws.{error_kind-some}
use mamori.Client.{authoritative, should_failover, tried, try_loop, try_endpoints}

-- The kinds that say nothing of the binding: an outage, and what nobody has classified.
abbrev pub is_outage : Kind → Bool
is_outage Kind.unavailable = true
is_outage Kind.unknown = true
is_outage _ = false

-- The next endpoint is asked: an outage or a failure without a class, in time.
abbrev pub moves_on : {A : Type 0} → Result A × Bool → Bool
moves_on (ok result, ended) = false
moves_on (err e, ended) = not ended && is_outage (error_kind (some e))

not-authoritative :
    (k : Kind) → same_kind k Kind.blank ≡ false → not (authoritative k) ≡ is_outage k
unfolding authoritative
not-authoritative Kind.not_found h = refl
not-authoritative Kind.permission_denied h = refl
not-authoritative Kind.unauthenticated h = refl
not-authoritative Kind.unavailable h = refl
not-authoritative Kind.rate_limited h = refl
not-authoritative Kind.invalid h = refl
not-authoritative Kind.unknown h = refl
not-authoritative Kind.blank h = absurd (ground (arith, h))

should_failover-is_outage : (e : Error) → should_failover (some e) ≡ is_outage (error_kind (some e))
unfolding should_failover
should_failover-is_outage e = not-authoritative (error_kind (some e)) (error_kind-some e)

module _ {E A : Type 0} (attempt : E → Result A × Bool) where
  -- The endpoint that is answered with, behind those that were moved on from.
  abbrev pub Decides : List E → Result A → Type 0
  Decides endpoints got =
      (front : List E) × (ep : E) × (back : List E) × (endpoints ≡ front ++ ep ∷ back)
      × All (λ x. moves_on (attempt x) ≡ true) front
      × ((moves_on (attempt ep) ≡ false) ⊎ (back ≡ []))
      × (got ≡ (attempt ep).0)

  moved_on :
      (ep next : E) (endpoints : List E) (out : Result A × Bool)
      → attempt ep ≡ out
      → ((e : Error) → Decides (next ∷ endpoints) (try_loop attempt (next ∷ endpoints) e))
      → Decides (ep ∷ next ∷ endpoints) (tried out (try_loop attempt (next ∷ endpoints)))
  unfolding tried
  moved_on ep next endpoints (ok result, ended) h later =
      ([], ep, next ∷ endpoints, refl, tt, inl (ap moves_on h), sym (ap (λ x. x.0) h))
  moved_on ep next endpoints (err e, true) h later =
      ([], ep, next ∷ endpoints, refl, tt, inl (ap moves_on h), sym (ap (λ x. x.0) h))
  moved_on ep next endpoints (err e, false) h later =
      elim (Bool-cases (is_outage (error_kind (some e)))) [
        | inr answered ↦
            rw (should_failover-is_outage e, answered)
              (
                [],
                ep,
                next ∷ endpoints,
                refl,
                tt,
                inl (ap moves_on h ∙ answered),
                sym (ap (λ x. x.0) h),
              )
        | inl broken ↦
            let (front, last, back, split, passed, stops, got) = later e in
            rw (should_failover-is_outage e, broken)
              (
                ep ∷ front,
                last,
                back,
                ap (λ l. ep ∷ l) split,
                (ap moves_on h ∙ broken, passed),
                stops,
                got,
              )
      ]

  only_one :
      (ep : E) (out : Result A × Bool)
      → attempt ep ≡ out
      → Decides (ep ∷ []) (tried out (try_loop attempt []))
  unfolding tried try_loop
  only_one ep (ok result, ended) h = ([], ep, [], refl, tt, inr refl, sym (ap (λ x. x.0) h))
  only_one ep (err e, true) h = ([], ep, [], refl, tt, inr refl, sym (ap (λ x. x.0) h))
  only_one ep (err e, false) h = elim (Bool-cases (is_outage (error_kind (some e)))) [
    | inl broken ↦
        rw (should_failover-is_outage e, broken)
          ([], ep, [], refl, tt, inr refl, sym (ap (λ x. x.0) h))
    | inr answered ↦
        rw (should_failover-is_outage e, answered)
          ([], ep, [], refl, tt, inr refl, sym (ap (λ x. x.0) h))
  ]

  try_loop-Decides :
      (endpoints : List E) (ep : E) (last : Error)
      → Decides (ep ∷ endpoints) (try_loop attempt (ep ∷ endpoints) last)
  unfolding try_loop
  try_loop-Decides [] ep last = only_one ep (attempt ep) refl
  try_loop-Decides (next ∷ endpoints) ep last =
      moved_on ep next endpoints (attempt ep) refl (try_loop-Decides endpoints next)

  -- With endpoints that are well configured, one at least, the answer is that of the first endpoint
  -- that the client does not move on from, and that of the last one if it moves on from all. It moves
  -- on from an endpoint exactly after an error of the kind "unavailable" or "unknown", one that the
  -- server has reported included, with its context not ended.
  pub try_endpoints-Decides :
      (ep : E) (endpoints : List E)
      → Decides (ep ∷ endpoints) (try_endpoints attempt none (ep ∷ endpoints))
  unfolding try_endpoints
  try_endpoints-Decides ep endpoints = try_loop-Decides endpoints ep (opaque [])
