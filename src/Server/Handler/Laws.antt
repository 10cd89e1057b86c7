-- ===== src/Server/Handler/Laws.antt =====
-- server/handler.go: a batch beside requests for one value.
use mamori.Prelude.{
  ◌≡◌, refl, sym, ap, ◌∙◌, inl, inr, true, Option, none, some, List, [], ◌∷◌, Text, map,
  Option-cases, Bool-cases,
}
use mamori.Errors.{Kind}
use mamori.Server.Bindings.{Identity, Policy}
use mamori.Server.Resolver.{Lookup, Resolvers, lookup_fresh}
use mamori.Server.Wire.{ValueBody, new_error_value_body, is_failed}
use mamori.Server.Handler.{
  Request, Response, Body, error_body, value_body, batch_body, ready_body, RequestOutcome, Access,
  admits, value_for, authenticate, answer_found, answer_allowed, handle_value,
}
use mamori.Server.Handler.Batch.{
  batch_names, batch_for, entry_found, batch_entry, batch_entries, handle_batch, limit,
  max_batch_body_bytes,
}

-- The batch entry that says what the body of a response for one value says.
abbrev pub entry_of_body : Text → Body → ValueBody
entry_of_body name (error_body d) = new_error_value_body name d.kind
entry_of_body name (value_body v) = v
entry_of_body name (batch_body vs) = new_error_value_body name Kind.unknown
entry_of_body name (ready_body s) = new_error_value_body name Kind.unknown

abbrev pub entry_of : Text → Response × RequestOutcome → ValueBody × RequestOutcome
entry_of name x = (entry_of_body name x.0.body, x.1)

entry_found-answer_found :
    (id : Identity) (r : Request) (name : Text) (l : Lookup)
    → entry_found id r name l ≡ entry_of name (answer_found id r name l)
unfolding entry_found answer_found
entry_found-answer_found id r name l = elim (Bool-cases l.found) [
  | inr missing ↦ rw missing refl
  | inl there ↦ elim (Bool-cases (is_failed l)) [
    | inl failed ↦ rw (there, failed) refl
    | inr good ↦ rw (there, good) refl
  ]
]

pub batch_entry-answer_allowed :
    (policy : Policy) (id : Identity) (r : Request) (name : Text) (l : Lookup)
    → batch_entry policy id r name l ≡ entry_of name (answer_allowed policy id r name l)
unfolding batch_entry answer_allowed
batch_entry-answer_allowed policy id r name l = elim (Option-cases (policy id name)) [
  | inl allowed ↦ rw (allowed, batch_entry, answer_allowed) (entry_found-answer_found id r name l)
  | inr (e, denied) ↦ rw (denied, batch_entry, answer_allowed) refl
]

pub handle_value-admitted :
    (a : Access) (resolved : Resolvers) (r : Request) (name : Text) (id : Identity)
    → authenticate a r ≡ admits id
    → handle_value a resolved r name
      ≡ answer_allowed a.policy id r name (lookup_fresh resolved name)
unfolding handle_value value_for
handle_value-admitted a resolved r name id h = ap (value_for a.policy resolved r name) h

pub handle_batch-admitted :
    (a : Access) (decode : Text → Option (List Text)) (resolved : Resolvers) (r : Request)
    (id : Identity) (names : List Text)
    → authenticate a r ≡ admits id
    → decode (limit max_batch_body_bytes r.body) ≡ some names
    → handle_batch a decode resolved r ≡ (
      record {
        status = 200;
        challenge = none;
        no_store = true;
        body = batch_body (batch_entries a.policy id r resolved names).0;
      },
      (batch_entries a.policy id r resolved names).1,
    )
unfolding handle_batch batch_for batch_names
handle_batch-admitted a decode resolved r id names h d =
    ap (batch_for a.policy decode resolved r) h ∙ ap (batch_names a.policy id resolved r) d

module _ (a : Access) (resolved : Resolvers) (r : Request) (id : Identity)
    (h : authenticate a r ≡ admits id) where
  abbrev single : Text → ValueBody × RequestOutcome
  single name = entry_of name (handle_value a resolved r name)

  batch_entries-single :
      (names : List Text)
      → batch_entries a.policy id r resolved names
        ≡ (map (λ n. (single n).0) names, map (λ n. (single n).1) names)
  unfolding batch_entries
  batch_entries-single [] = refl
  batch_entries-single (name ∷ names) =
      let one : batch_entry a.policy id r name (lookup_fresh resolved name) ≡ single name =
        batch_entry-answer_allowed a.policy id r name (lookup_fresh resolved name)
        ∙ ap (entry_of name) (sym (handle_value-admitted a resolved r name id h)) in
      rw (one, batch_entries-single names) refl

  -- A batch request of an authenticated caller, whose body names some bindings within the limit of
  -- 1 MiB, is answered by a 200 that holds for each name, in order, what a request for that value
  -- alone is answered: the value, or the kind of the error. The audit log gets the same lines too.
  pub handle_batch-handle_value :
      (decode : Text → Option (List Text)) (names : List Text)
      → decode (limit max_batch_body_bytes r.body) ≡ some names
      → handle_batch a decode resolved r ≡ (
        record {
          status = 200;
          challenge = none;
          no_store = true;
          body = batch_body (map (λ n. entry_of_body n (handle_value a resolved r n).0.body) names);
        },
        map (λ n. (handle_value a resolved r n).1) names,
      )
  handle_batch-handle_value decode names d =
      handle_batch-admitted a decode resolved r id names h d
      ∙ ap
          (λ (out : List ValueBody × List RequestOutcome). (
            record { status = 200; challenge = none; no_store = true; body = batch_body out.0 },
            out.1,
          ))
          (batch_entries-single names)
