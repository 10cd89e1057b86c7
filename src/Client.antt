-- ===== src/Client.antt =====
-- providers/mamori: the client of the config server, a provider. What net/http and encoding/json do is
-- a parameter: `do` gives the status and the body of a response, and a Codec reads bodies of type W.
-- A kind that the client does not know is `unknown`.
pub mod Endpoints
pub mod Stream
pub mod Fresh
pub mod EndToEnd
pub mod Tests
use mamori.Prelude.{
  ℕ, ◌-◌, ◌==◌, ltb, leb, Bool, true, false, not, Option, none, some, List, [], ◌∷◌, Text, codes,
  if◌then◌else◌, Map, get, put, is_empty, str_eq, map,
}
use mamori.Errors.{
  Error, Sentinel, sentinel, opaque, wrap, Kind, same_kind, error_kind, first_sentinel,
  kind_sentinels, Result, ok, err,
}
use mamori.Ref.{Ref, render}
use mamori.Strings.Url.{Values}
use mamori.Value.{Time, Value}
use mamori.Resolve.{zero_value}
use mamori.Engine.State.{Update}
use mamori.Server.Wire.{ErrorDetail, ValueBody}

-- The JSON decoders of the client, each on a limited body where the source limits it.
pub record Codec (W : Type 0) : Type 0 where
  pub decode_value : W → Option ValueBody
  pub decode_error : W → Option ErrorDetail
  pub decode_batch : W → Option (List ValueBody)

-- wireKindSentinel, sentinelForKind: the same six kinds as kindSentinels.
unfoldable pub sentinel_for_kind : Kind → Option Error
sentinel_for_kind kind = first_sentinel wire_kind_sentinel kind
  where
    wire_kind_sentinel : List (Kind × Sentinel)
    wire_kind_sentinel =
        (Kind.not_found, Sentinel.not_found)
        ∷ (Kind.permission_denied, Sentinel.permission_denied)
        ∷ (Kind.unauthenticated, Sentinel.unauthenticated)
        ∷ (Kind.unavailable, Sentinel.unavailable)
        ∷ (Kind.rate_limited, Sentinel.rate_limited)
        ∷ (Kind.invalid, Sentinel.invalid)
        ∷ []

-- What the client makes of an error that the server reports.
unfoldable pub reported : Kind → Error
unfolding sentinel_for_kind
reported kind = elim (sentinel_for_kind kind) [ some s ↦ wrap s | none ↦ opaque (codes "kind") ]

abbrev time_of : Option Time → Time
time_of none = 0
time_of (some t) = t

-- The Value of a body.
abbrev pub body_value : ValueBody → Value
body_value vb = record {
  bytes = vb.bytes;
  version = vb.version;
  sensitive = vb.sensitive;
  not_after = time_of vb.not_after;
  metadata = vb.metadata;
}

module _ {W : Type 0} (codec : Codec W) where
  value_decoded : Option ValueBody → Result Value
  value_decoded (some vb) = ok (body_value vb)
  value_decoded none = err (wrap (sentinel Sentinel.invalid))

  error_decoded : ℕ → Option ErrorDetail → Result Value
  error_decoded status (some d) = err (reported d.kind)
  error_decoded status none =
      if status == 404
      then err (wrap (sentinel Sentinel.not_found))
      else err (opaque (codes "status"))

  -- resolveOnce, of what `do` gave.
  unfoldable pub resolve_once : Result (ℕ × W) → Result Value
  unfolding value_decoded error_decoded reported
  resolve_once (err e) = err e
  resolve_once (ok (status, w)) =
      if status == 200
      then value_decoded (codec.decode_value w)
      else error_decoded status (codec.decode_error w)

  -- The loop of resolveBatchOnce over the entries.
  unfoldable pub collect_entries : Map Text → List ValueBody → Map Value → Result (Map Value)
  unfolding reported
  collect_entries key_by_name [] result = ok result
  collect_entries key_by_name (entry ∷ entries) result = elim (get key_by_name entry.name) [
    | none ↦ collect_entries key_by_name entries result
    | some key ↦ elim entry.error [
      | none ↦ collect_entries key_by_name entries (put result key (body_value entry))
      | some d ↦
          let rest = collect_entries key_by_name entries result in
          if same_kind d.kind Kind.not_found then rest else err (reported d.kind)
    ]
  ]

  batch_decoded : Map Text → Option (List ValueBody) → Result (Map Value)
  unfolding collect_entries
  batch_decoded key_by_name none = err (wrap (sentinel Sentinel.invalid))
  batch_decoded key_by_name (some entries) = collect_entries key_by_name entries []

  batch_refused : Option ErrorDetail → Result (Map Value)
  batch_refused none = err (opaque (codes "status"))
  batch_refused (some d) = err (reported d.kind)

  unfoldable pub resolve_batch_once : Map Text → Result (ℕ × W) → Result (Map Value)
  unfolding batch_decoded batch_refused
  resolve_batch_once key_by_name (err e) = err e
  resolve_batch_once key_by_name (ok (status, w)) =
      if status == 200
      then batch_decoded key_by_name (codec.decode_batch w)
      else batch_refused (codec.decode_error w)

-- The names of a batch and the keys of its result; a ref without a name fails the batch.
unfoldable pub batch_keys : (Values → Text) → List Ref → Map Text → Result (List Text × Map Text)
batch_keys encode [] key_by_name = ok ([], key_by_name)
batch_keys encode (ref ∷ refs) key_by_name =
    let rest = batch_keys encode refs (put key_by_name ref.path (render encode ref)) in
    if is_empty ref.path
    then err (wrap (sentinel Sentinel.invalid))
    else elim rest [ err e ↦ err e | ok (names, keys) ↦ ok (ref.path ∷ names, keys) ]

-- authoritativeKinds
unfoldable pub authoritative : Kind → Bool
authoritative Kind.not_found = true
authoritative Kind.permission_denied = true
authoritative Kind.unauthenticated = true
authoritative Kind.invalid = true
authoritative Kind.rate_limited = true
authoritative Kind.unavailable = false
authoritative Kind.unknown = false
authoritative Kind.blank = false

unfoldable pub should_failover : Option Error → Bool
unfolding authoritative error_kind
should_failover none = false
should_failover (some e) = not (authoritative (error_kind (some e)))

-- A round of the loop of tryEndpoints; an attempt also says whether the context had ended behind it.
unfoldable pub tried : {A : Type 0} → Result A × Bool → (Error → Result A) → Result A
unfolding should_failover
tried (ok result, ended) rest = ok result
tried (err e, ended) rest =
    if ended then err e else if not (should_failover (some e)) then err e else rest e

module _ {E A : Type 0} (attempt : E → Result A × Bool) where
  unfoldable pub try_loop : List E → Error → Result A
  unfolding tried
  try_loop [] last_err = err last_err
  try_loop (ep ∷ endpoints) last_err = tried (attempt ep) (try_loop endpoints)

  unfoldable pub try_endpoints : Option Error → List E → Result A
  unfolding try_loop
  try_endpoints (some e) endpoints = err e
  try_endpoints none [] = err (wrap (sentinel Sentinel.invalid))
  try_endpoints none (ep ∷ endpoints) = try_loop (ep ∷ endpoints) (opaque [])

-- Resolve, over the responses of the endpoints.
unfoldable pub resolve :
    {W E : Type 0}
    → Codec W
    → (E → Text → Result (ℕ × W) × Bool)
    → Option Error
    → List E
    → Ref
    → Result Value
unfolding try_endpoints resolve_once
resolve codec do_get endpoint_err endpoints ref =
    if is_empty ref.path
    then err (wrap (sentinel Sentinel.invalid))
    else try_endpoints (λ ep. let rsp = do_get ep ref.path in (resolve_once codec rsp.0, rsp.1))
        endpoint_err endpoints

unfoldable pub resolve_batch :
    {W E : Type 0}
    → (Values → Text)
    → Codec W
    → (E → List Text → Result (ℕ × W) × Bool)
    → Option Error
    → List E
    → List Ref
    → Result (Map Value)
unfolding batch_keys try_endpoints resolve_batch_once
resolve_batch encode codec do_post endpoint_err endpoints refs = elim (batch_keys encode refs []) [
  | err e ↦ err e
  | ok (names, keys) ↦
      try_endpoints
        (λ ep. let rsp = do_post ep names in (resolve_batch_once codec keys rsp.0, rsp.1))
        endpoint_err endpoints
]
