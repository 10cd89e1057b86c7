-- ===== src/Client/EndToEnd.antt =====
-- providers/mamori against server/handler.go: a value asked for over the wire.
use mamori.Prelude.{
  ℕ, ◌==◌, ◌≡◌, refl, sym, ap, ◌∙◌, ◌⊎◌, inl, inr, Bool, true, false, Option, none, some, [], not,
  ◌&&◌, Map, get, subst, Text, if◌then◌else◌, Bool-cases, Option-cases, arith,
}
use mamori.Errors.{
  Error, Kind, same_kind, error_kind, first_kind, first_sentinel, is, Result, Sentinel, ok, err,
}
use mamori.Value.{Time, Value}
use mamori.Server.Bindings.{Identity, Policy, Binding}
use mamori.Server.Resolver.{Lookup, Resolvers, lookup_fresh, start_all}
use mamori.Server.Resolver.Log.{Log, deliver_log, history}
use mamori.Server.Resolver.LastGood.{promised, lookup_fresh-promised, lookup_fresh-has_value}
use mamori.Server.Wire.{ErrorDetail, ValueBody, new_value_body, status_for_kind, is_failed}
use mamori.Server.Handler.{
  Request, Response, Body, error_body, value_body, RequestOutcome, Access, refusal, value_for,
  write_error, outcome_of, allow, deny, authenticate, judged, answer_found, answer_allowed,
  handle_value,
}
use mamori.Client.{Codec, resolve_once, reported, value_decoded, error_decoded, body_value, time_of}

abbrev unopposed : Option Error → Bool
unopposed none = true
unopposed (some e) = false

-- The caller may have the binding: it is let in, and the policy has nothing against it.
abbrev passes : Policy → Text → Result Identity → Bool
passes policy name (ok id) = unopposed (policy id name)
passes policy name (err e) = false

abbrev pub is_entitled : Access → Request → Text → Bool
is_entitled a r name =
    passes a.policy name (if a.no_auth then ok (record { subject = [] }) else a.auth r)

-- What an exchange gave the client: the value that there is, with a 200; or an error, of the kind that
-- the server has logged, and then the caller is not entitled or there is no value.
abbrev pub Agrees : Bool → Result Value → Lookup → Response × RequestOutcome → Type 0
Agrees entitled got l sent =
    ((entitled ≡ true) × (l.has_value ≡ true) × (sent.0.status ≡ 200) × (got ≡ ok l.value))
    ⊎ ((e : Error) × (got ≡ err e)
        × (error_kind (some e) ≡ sent.1.kind)
        × ((entitled ≡ false) ⊎ (l.has_value ≡ false)))

reported_kind : (k : Kind) → (same_kind k Kind.blank ≡ true) ⊎ (error_kind (some (reported k)) ≡ k)
unfolding reported error_kind first_kind is first_sentinel
reported_kind Kind.not_found = inr refl
reported_kind Kind.permission_denied = inr refl
reported_kind Kind.unauthenticated = inr refl
reported_kind Kind.unavailable = inr refl
reported_kind Kind.rate_limited = inr refl
reported_kind Kind.invalid = inr refl
reported_kind Kind.unknown = inr refl
reported_kind Kind.blank = inl refl

status_for_kind-error : (k : Kind) → (status_for_kind k == 200) ≡ false
unfolding status_for_kind
status_for_kind-error Kind.not_found = refl
status_for_kind-error Kind.permission_denied = refl
status_for_kind-error Kind.unauthenticated = refl
status_for_kind-error Kind.unavailable = refl
status_for_kind-error Kind.rate_limited = refl
status_for_kind-error Kind.invalid = refl
status_for_kind-error Kind.unknown = refl
status_for_kind-error Kind.blank = refl

time_of-pointer : (t : Time) → time_of (if t == 0 then none else some t) ≡ t
time_of-pointer t = ground arith

body_value-new_value_body :
    (name : Text) (v : Value) (k : Kind) (t : Time) (stale : Bool)
    → body_value (new_value_body name v k t stale) ≡ v
unfolding new_value_body
body_value-new_value_body name v k t stale =
    ap (λ t. record v { not_after = t }) (time_of-pointer v.not_after)

module _ {W : Type 0} (codec : Codec W) (encode : Body → W)
    (reads_value : (vb : ValueBody) → codec.decode_value (encode (value_body vb)) ≡ some vb)
    (reads_error : (d : ErrorDetail) → codec.decode_error (encode (error_body d)) ≡ some d) where
  abbrev exchange : Response → Result Value
  exchange rsp = resolve_once codec (ok (rsp.status, encode rsp.body))

  exchange_error :
      (entitled : Bool) (l : Lookup) (status : ℕ) (k : Kind) (challenge : Option Text)
      (o : RequestOutcome)
      → (status == 200) ≡ false
      → (same_kind k Kind.blank) ≡ false
      → o.kind ≡ k
      → (entitled ≡ false) ⊎ (l.has_value ≡ false)
      → Agrees entitled
          (exchange (write_error status k challenge))
          l
          (write_error status k challenge, o)
  unfolding resolve_once error_decoded
  exchange_error entitled l status k challenge o bad named logged why =
      let got : exchange (write_error status k challenge) ≡ err (reported k) =
        rw (bad, reads_error (record { kind = k })) refl in
      elim (reported_kind k) [
        | inl blank ↦ absurd (ground (arith, blank, named))
        | inr kept ↦ inr (reported k, got, kept ∙ sym logged, why)
      ]

  exchange_answer :
      (id : Identity) (r : Request) (name : Text) (l : Lookup)
      → l.has_value ≡ (l.found && not (is_failed l))
      → Agrees true (exchange (answer_found id r name l).0) l (answer_found id r name l)
  unfolding answer_found resolve_once value_decoded
  exchange_answer id r name l held = elim (Bool-cases l.found) [
    | inr missing ↦ rw missing (
        exchange_error true l 404 Kind.not_found none
          (outcome_of id.subject name r allow Kind.not_found 404) refl refl refl
          (inr (rw missing at held)))
    | inl there ↦ elim (Bool-cases (is_failed l)) [
      | inl failed ↦
          rw (there, failed)
            (exchange_error true l (status_for_kind l.kind) l.kind none
              (outcome_of id.subject name r allow l.kind (status_for_kind l.kind))
              (status_for_kind-error l.kind) (ground (arith, failed)) refl
              (inr (rw (there, failed) at held)))
      | inr good ↦
          rw (there, good, reads_value (new_value_body name l.value l.kind l.resolved_at l.stale))
            (inl (
              refl,
              rw (there, good) at held,
              refl,
              ap ok (body_value-new_value_body name l.value l.kind l.resolved_at l.stale),
            ))
    ]
  ]

  exchange_allowed :
      (policy : Policy) (id : Identity) (r : Request) (name : Text) (l : Lookup)
      → l.has_value ≡ (l.found && not (is_failed l))
      → Agrees
          (unopposed (policy id name))
          (exchange (answer_allowed policy id r name l).0)
          l
          (answer_allowed policy id r name l)
  unfolding answer_allowed
  exchange_allowed policy id r name l held = elim (Option-cases (policy id name)) [
    | inl allowed ↦ rw (allowed, answer_allowed) (exchange_answer id r name l held)
    | inr (e, denied) ↦
        rw (denied, answer_allowed)
          (exchange_error false l 403 Kind.permission_denied none
            (outcome_of id.subject name r deny Kind.permission_denied 403) refl refl refl
            (inl refl))
  ]

  exchange-judged :
      (policy : Policy) (resolved : Resolvers) (r : Request) (name : Text) (challenge : Option Text)
      (got : Result Identity)
      → let l = lookup_fresh resolved name in
        l.has_value ≡ (l.found && not (is_failed l))
        → Agrees
            (passes policy name got)
            (exchange (value_for policy resolved r name (judged challenge got)).0)
            (lookup_fresh resolved name)
            (value_for policy resolved r name (judged challenge got))
  unfolding judged value_for refusal
  exchange-judged policy resolved r name challenge (ok id) held =
      exchange_allowed policy id r name (lookup_fresh resolved name) held
  exchange-judged policy resolved r name challenge (err e) held =
      let l = lookup_fresh resolved name in
      elim (Bool-cases (is e Sentinel.forbidden)) [
        | inl forbidden ↦ rw forbidden (
            exchange_error false l 403 Kind.permission_denied none
              (outcome_of [] name r deny Kind.permission_denied 403) refl refl refl (inl refl))
        | inr refused ↦ rw refused (
            exchange_error false l 401 Kind.unauthenticated challenge
              (outcome_of [] name r deny Kind.unauthenticated 401) refl refl refl (inl refl))
      ]

  exchange_value :
      (a : Access) (resolved : Resolvers) (r : Request) (name : Text)
      → let l = lookup_fresh resolved name in
        l.has_value ≡ (l.found && not (is_failed l))
        → Agrees
            (is_entitled a r name)
            (exchange (handle_value a resolved r name).0)
            (lookup_fresh resolved name)
            (handle_value a resolved r name)
  unfolding handle_value authenticate value_for
  exchange_value a resolved r name held = elim (Bool-cases a.no_auth) [
    | inl open_to_all ↦ rw open_to_all (
        exchange_allowed a.policy (record { subject = [] }) r name (lookup_fresh resolved name)
          held)
    | inr guarded ↦
        rw guarded (exchange-judged a.policy resolved r name a.challenge (a.auth r) held)
  ]

  -- A client asks a server that has been started on any bindings and has got any updates, for any
  -- name and as any caller. If the caller passes authentication and the policy, and the binding has
  -- ever got a value, then the status is 200 and the client reads its newest good value, all fields
  -- kept. In every other case, an unknown name among them, the client gives an error, of the very
  -- kind that the server has put in its audit log. JSON bodies are read as they were written.
  pub resolve_once-handle_value :
      (a : Access) (has_provider : Text → Bool) (bindings : Map Binding) (log : Log) (r : Request)
      (name : Text)
      → let sent = handle_value a (deliver_log log (start_all has_provider bindings)) r name in
        Agrees
          (is_entitled a r name)
          (resolve_once codec (ok (sent.0.status, encode sent.0.body)))
          (promised has_provider (get bindings name) (history name log))
          sent
  resolve_once-handle_value a has_provider bindings log r name =
      let resolved = deliver_log log (start_all has_provider bindings) in
      let sent = handle_value a resolved r name in
      subst (λ l. Agrees (is_entitled a r name) (exchange sent.0) l sent)
        (lookup_fresh-promised has_provider bindings log name)
        (exchange_value a resolved r name (lookup_fresh-has_value has_provider bindings log name))
