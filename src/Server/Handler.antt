-- ===== src/Server/Handler.antt =====
-- server/handler.go: the HTTP endpoints but the watch. The authenticator, path.Match behind the policy
-- and the JSON decoder of a batch request are parameters; latency and the node id of the audit log
-- are not modelled, and writing a response never fails.
pub mod Batch
pub mod Laws
use mamori.Prelude.{
  ℕ, zero, suc, Bool, true, false, not, Option, none, some, List, [], ◌∷◌, Text, if◌then◌else◌, map,
}
use mamori.Errors.{Error, Sentinel, is, Kind, Result, ok, err}
use mamori.Server.Bindings.{Identity, Policy}
use mamori.Server.Resolver.{Lookup, ReadyState, Resolvers, lookup_fresh, readiness}
use mamori.Server.Wire.{
  ErrorDetail, ValueBody, new_value_body, new_error_value_body, status_for_kind, is_failed,
}

-- What the server reads of an http.Request; `credentials` is what the authenticator looks at.
pub record Request : Type 0 where
  pub credentials : Text
  pub method : Text
  pub path : Text
  pub body : Text

pub data Body : Type 0 where
  error_body : ErrorDetail → Body
  value_body : ValueBody → Body
  batch_body : List ValueBody → Body
  ready_body : ReadyState → Body

pub record Response : Type 0 where
  pub status : ℕ
  pub challenge : Option Text
  pub no_store : Bool
  pub body : Body

pub data Decision : Type 0 where
  allow deny : Decision

-- requestOutcome, the line of the audit log.
pub record RequestOutcome : Type 0 where
  pub subject : Text
  pub name : Text
  pub decision : Decision
  pub kind : Kind
  pub status : ℕ
  pub method : Text
  pub path : Text

-- WithAuth or WithNoAuth, and WithPolicy; `challenge` is of an authenticator that is a Challenger.
pub record Access : Type 0 where
  pub no_auth : Bool
  pub auth : Request → Result Identity
  pub challenge : Option Text
  pub policy : Policy

-- writeError, behind the headers that each endpoint sets.
abbrev pub write_error : ℕ → Kind → Option Text → Response
write_error status kind challenge = record {
  status = status;
  challenge = challenge;
  no_store = true;
  body = error_body (record { kind = kind });
}

-- A refused request: the kind and the status of its audit line, and the response.
pub record Refusal : Type 0 where
  pub kind : Kind
  pub status : ℕ
  pub response : Response

pub data Authenticated : Type 0 where
  admits : Identity → Authenticated
  refuses : Refusal → Authenticated

unfoldable pub refusal : Kind → ℕ → Option Text → Authenticated
refusal kind status challenge =
    refuses (record { kind = kind; status = status; response = write_error status kind challenge })

-- authenticate behind the authenticator's answer.
unfoldable pub judged : Option Text → Result Identity → Authenticated
unfolding refusal
judged challenge (ok id) = admits id
judged challenge (err e) =
    if is e Sentinel.forbidden
    then refusal Kind.permission_denied 403 none
    else refusal Kind.unauthenticated 401 challenge

unfoldable pub authenticate : Access → Request → Authenticated
unfolding judged
authenticate a r =
    if a.no_auth then admits (record { subject = [] }) else judged a.challenge (a.auth r)

abbrev pub outcome_of : Text → Text → Request → Decision → Kind → ℕ → RequestOutcome
outcome_of subject name r decision kind status = record {
  subject = subject;
  name = name;
  decision = decision;
  kind = kind;
  status = status;
  method = r.method;
  path = r.path;
}

-- handleValue's switch over what lookupFresh gives.
unfoldable pub answer_found : Identity → Request → Text → Lookup → Response × RequestOutcome
answer_found id r name l =
    if not l.found
    then (
      write_error 404 Kind.not_found none,
      outcome_of id.subject name r allow Kind.not_found 404,
    )
    else if is_failed l
    then (
      write_error (status_for_kind l.kind) l.kind none,
      outcome_of id.subject name r allow l.kind (status_for_kind l.kind),
    )
    else (
      record {
        status = 200;
        challenge = none;
        no_store = true;
        body = value_body (new_value_body name l.value l.kind l.resolved_at l.stale);
      },
      outcome_of id.subject name r allow l.kind 200,
    )

-- handleValue behind authentication: authorize, then the lookup.
unfoldable pub answer_allowed :
    Policy → Identity → Request → Text → Lookup → Response × RequestOutcome
unfolding answer_found
answer_allowed policy id r name l = elim (policy id name) [
  | some e ↦ (
    write_error 403 Kind.permission_denied none,
    outcome_of id.subject name r deny Kind.permission_denied 403,
  )
  | none ↦ answer_found id r name l
]

-- handleValue behind authenticate.
unfoldable pub value_for :
    Policy → Resolvers → Request → Text → Authenticated → Response × RequestOutcome
unfolding answer_allowed
value_for policy resolved r name (refuses f) =
    (f.response, outcome_of [] name r deny f.kind f.status)
value_for policy resolved r name (admits id) =
    answer_allowed policy id r name (lookup_fresh resolved name)

unfoldable pub handle_value : Access → Resolvers → Request → Text → Response × RequestOutcome
unfolding value_for
handle_value a resolved r name = value_for a.policy resolved r name (authenticate a r)

unfoldable pub handle_readyz : Bool → Resolvers → Response
handle_readyz draining resolved =
    let out = readiness draining resolved in
    record {
      status = if out.1 then 200 else 503;
      challenge = none;
      no_store = true;
      body = ready_body out.0;
    }
