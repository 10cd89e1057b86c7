-- ===== src/Server/Handler/Batch.antt =====
-- server/handler.go: the endpoint for a batch of values. The decoder of its body is a parameter.
use mamori.Prelude.{ℕ, zero, suc, true, not, Option, none, some, List, [], ◌∷◌, Text, if◌then◌else◌}
use mamori.Errors.{Kind}
use mamori.Server.Bindings.{Identity, Policy}
use mamori.Server.Resolver.{Lookup, Resolvers, lookup_fresh}
use mamori.Server.Wire.{ValueBody, new_value_body, new_error_value_body, status_for_kind, is_failed}
use mamori.Server.Handler.{
  Request, Response, batch_body, RequestOutcome, Access, allow, deny, Authenticated, admits,
  refuses, authenticate, outcome_of, write_error,
}

-- One name of a batch: its entry and its audit line.
unfoldable pub entry_found : Identity → Request → Text → Lookup → ValueBody × RequestOutcome
entry_found id r name l =
    if not l.found
    then (
      new_error_value_body name Kind.not_found,
      outcome_of id.subject name r allow Kind.not_found 404,
    )
    else if is_failed l
    then (
      new_error_value_body name l.kind,
      outcome_of id.subject name r allow l.kind (status_for_kind l.kind),
    )
    else (
      new_value_body name l.value l.kind l.resolved_at l.stale,
      outcome_of id.subject name r allow l.kind 200,
    )

unfoldable pub batch_entry :
    Policy → Identity → Request → Text → Lookup → ValueBody × RequestOutcome
unfolding entry_found
batch_entry policy id r name l = elim (policy id name) [
  | some e ↦ (
    new_error_value_body name Kind.permission_denied,
    outcome_of id.subject name r deny Kind.permission_denied 403,
  )
  | none ↦ entry_found id r name l
]

-- The loop of handleBatch over the names.
unfoldable pub batch_entries :
    Policy → Identity → Request → Resolvers → List Text → List ValueBody × List RequestOutcome
unfolding batch_entry
batch_entries policy id r resolved [] = ([], [])
batch_entries policy id r resolved (name ∷ names) =
    let entry = batch_entry policy id r name (lookup_fresh resolved name) in
    let rest = batch_entries policy id r resolved names in (entry.0 ∷ rest.0, entry.1 ∷ rest.1)

-- maxBatchBodyBytes
abbrev pub max_batch_body_bytes : ℕ
max_batch_body_bytes = 1048576

-- io.LimitReader
unfoldable pub limit : ℕ → Text → Text
limit zero body = []
limit (suc n) [] = []
limit (suc n) (b ∷ body) = b ∷ limit n body

-- handleBatch behind the decoding of the body.
unfoldable pub batch_names :
    Policy → Identity → Resolvers → Request → Option (List Text) → Response × List RequestOutcome
unfolding batch_entries
batch_names policy id resolved r none =
    (write_error 400 Kind.invalid none, outcome_of id.subject [] r deny Kind.invalid 400 ∷ [])
batch_names policy id resolved r (some names) =
    let out = batch_entries policy id r resolved names in
    (record { status = 200; challenge = none; no_store = true; body = batch_body out.0 }, out.1)

-- handleBatch behind authenticate.
unfoldable pub batch_for :
    Policy
    → (Text → Option (List Text))
    → Resolvers
    → Request
    → Authenticated
    → Response × List RequestOutcome
unfolding batch_names
batch_for policy decode resolved r (refuses f) =
    (f.response, outcome_of [] [] r deny f.kind f.status ∷ [])
batch_for policy decode resolved r (admits id) =
    batch_names policy id resolved r (decode (limit max_batch_body_bytes r.body))

unfoldable pub handle_batch :
    Access → (Text → Option (List Text)) → Resolvers → Request → Response × List RequestOutcome
unfolding batch_for
handle_batch a decode resolved r = batch_for a.policy decode resolved r (authenticate a r)
