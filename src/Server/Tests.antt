-- ===== src/Server/Tests.antt =====
-- The config server at concrete inputs: two bindings, one of a scheme that has no provider.
use mamori.Prelude.{
  ◌≡◌, refl, subst, sym, inl, inr, Bool, true, false, not, ◌&&◌, Option, none, some, List, [], ◌∷◌,
  ◌++◌, Text, codes, if◌then◌else◌, Map, get, str_eq, str_eq_iff, Unique, map, Bool-cases, arith,
}
use mamori.Errors.{Error, Kind, Sentinel, sentinel, opaque, ok, err}
use mamori.Ref.{Ref}
use mamori.Value.{Value}
use mamori.Engine.State.{Update}
use mamori.Server.Bindings.{Identity, Binding, err_denied}
use mamori.Server.Resolver.{
  Resolvers, initial_snapshot, lookup_fresh, start_all, readiness, ready_state, priming_state,
}
use mamori.Server.Resolver.Log.{Log, deliver_log, history}
use mamori.Server.Resolver.LastGood.{promised, lookup_fresh-promised}
use mamori.Server.Resolver.Ready.{all_heard, readiness-all_heard}
use mamori.Server.Handler.{Request, Access, admits, authenticate, handle_value, batch_body}
use mamori.Server.Handler.Batch.{handle_batch, limit, max_batch_body_bytes}
use mamori.Server.Handler.Laws.{entry_of_body, handle_batch-handle_value}
use mamori.Server.Watch.{start_watch, poll_subs}
use mamori.Server.Isolation.{subs_of, isolation}

abbrev pub ref_of : Text → Ref
ref_of scheme = record { scheme = scheme; path = codes "A"; key = []; opts = []; raw = [] }

abbrev pub db : Text
db = codes "db"

abbrev pub key : Text
key = codes "key"

abbrev pub two_bindings : Map Binding
two_bindings =
    (db, record { name = db; ref = ref_of (codes "env") })
    ∷ (key, record { name = key; ref = ref_of (codes "gone") })
    ∷ []

abbrev pub has_env : Text → Bool
has_env scheme = str_eq scheme (codes "env")

abbrev pub a_value : Value
a_value = record {
  bytes = codes "v";
  version = codes "1";
  sensitive = true;
  not_after = 0;
  metadata = [];
}

abbrev good : Update
good = record { value = a_value; error = none }

abbrev failure : Update
failure = record { value = a_value; error = some (sentinel Sentinel.unavailable) }

abbrev pub log : Log
log = (7, db, failure) ∷ (5, db, good) ∷ []

lookup_fresh-promised_example :
    lookup_fresh (deliver_log log (start_all has_env two_bindings)) db
    ≡ promised has_env (get two_bindings db) (history db log)
lookup_fresh-promised_example = lookup_fresh-promised has_env two_bindings log db

two_bindings-Unique : Unique two_bindings
unfolding Unique get str_eq
two_bindings-Unique = (refl, (refl, tt))

readiness-all_heard_example :
    (readiness false (deliver_log log (start_all has_env two_bindings)) ≡ (
      if all_heard has_env log two_bindings then (ready_state, true) else (priming_state, false)))
    × ((all_heard has_env log two_bindings && not (all_heard has_env (log ++ log) two_bindings))
        ≡ false)
readiness-all_heard_example = readiness-all_heard has_env two_bindings log log two_bindings-Unique

-- A caller with a key, who may see one binding.
abbrev pub guarded : Access
guarded = record {
  no_auth = false;
  auth = λ r.
      if str_eq r.credentials (codes "k")
      then ok (record { subject = codes "ops" })
      else err (opaque []);
  challenge = some (codes "Bearer");
  policy = λ id name. if str_eq name db then none else some err_denied;
}

abbrev pub request : Request
request = record {
  credentials = codes "k";
  method = codes "GET";
  path = codes "/v1";
  body = codes "B";
}

abbrev ops : Identity
ops = record { subject = codes "ops" }

admitted_here : authenticate guarded request ≡ admits ops
unfolding authenticate str_eq
admitted_here = refl

abbrev decode_names : Text → Option (List Text)
decode_names body = if str_eq body (codes "B") then some (db ∷ key ∷ []) else none

decoded_here : decode_names (limit max_batch_body_bytes request.body) ≡ some (db ∷ key ∷ [])
unfolding limit str_eq
decoded_here = refl

abbrev server_state : Resolvers
server_state = start_all has_env two_bindings

handle_batch-handle_value_example : handle_batch guarded decode_names server_state request ≡ (
  record {
    status = 200;
    challenge = none;
    no_store = true;
    body = batch_body (
        map
          (λ n. entry_of_body n (handle_value guarded server_state request n).0.body)
          (db ∷ key ∷ []));
  },
  map (λ n. (handle_value guarded server_state request n).1) (db ∷ key ∷ []),
)
handle_batch-handle_value_example =
    handle_batch-handle_value guarded server_state request ops admitted_here decode_names
      (db ∷ key ∷ []) decoded_here

-- Two servers that differ in the binding that the caller may not see.
abbrev other_state : Resolvers
other_state =
    (db, some (initial_snapshot true))
    ∷ (
      key,
      some (record {
        has_value = true;
        value = a_value;
        error = none;
        kind = Kind.blank;
        resolved_at = 3;
        settled = true;
      }),
    )
    ∷ []

same_db : lookup_fresh server_state db ≡ lookup_fresh other_state db
unfolding lookup_fresh start_all get str_eq initial_snapshot
same_db = refl

same_visible :
    (id : Identity) (name : Text)
    → authenticate guarded request ≡ admits id
    → guarded.policy id name ≡ none
    → lookup_fresh server_state name ≡ lookup_fresh other_state name
same_visible id name _ allowed = elim (Bool-cases (str_eq name db)) [
  | inl same ↦
      subst (λ n. lookup_fresh server_state n ≡ lookup_fresh other_state n)
        (sym ((str_eq_iff name db).0 same)) same_db
  | inr other ↦
      let refused : ◌≡◌ {A = Option Error} (some err_denied) none = rw other at allowed in
      absurd (ground arith)
]

isolation_example :
    let subs = subs_of (start_watch guarded other_state true request (db ∷ key ∷ [])) in
    (handle_value guarded server_state request key ≡ handle_value guarded other_state request key)
    × (handle_batch guarded decode_names server_state request
        ≡ handle_batch guarded decode_names other_state request)
    × (start_watch guarded server_state true request (db ∷ key ∷ [])
        ≡ start_watch guarded other_state true request (db ∷ key ∷ []))
    × (poll_subs (λ f. true) server_state subs ≡ poll_subs (λ f. true) other_state subs)
isolation_example =
    isolation guarded request server_state other_state same_visible key decode_names (λ f. true)
      true (db ∷ key ∷ [])
