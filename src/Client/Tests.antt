-- ===== src/Client/Tests.antt =====
-- The client at concrete inputs: a server of two bindings, two endpoints, three frames.
use mamori.Prelude.{ℕ, zero, suc, ◌≡◌, refl, Bool, true, false, none, some, [], ◌∷◌, codes, get}
use mamori.Errors.{Kind, Sentinel, sentinel, Result, ok, err}
use mamori.Engine.State.{Update}
use mamori.Server.Wire.{ErrorDetail, ValueBody}
use mamori.Server.Handler.{Body, value_body, error_body, batch_body, ready_body, handle_value}
use mamori.Server.Resolver.{start_all}
use mamori.Server.Resolver.Log.{deliver_log, history}
use mamori.Server.Resolver.LastGood.{promised}
use mamori.Server.Tests.{two_bindings, has_env, log, db, guarded, request}
use mamori.Client.{Codec, resolve_once, try_endpoints}
use mamori.Client.Endpoints.{Decides, try_endpoints-Decides}
use mamori.Client.EndToEnd.{Agrees, is_entitled, resolve_once-handle_value}
use mamori.Client.Fresh.{InOrder, frames_run, frames_run-InOrder}

-- Bodies that are sent as they are.
abbrev plain : Codec Body
plain = record {
  decode_value = λ b. elim b [
    | value_body v ↦ some v
    | error_body d ↦ none
    | batch_body vs ↦ none
    | ready_body s ↦ none
  ];
  decode_error = λ b. elim b [
    | value_body v ↦ none
    | error_body d ↦ some d
    | batch_body vs ↦ none
    | ready_body s ↦ none
  ];
  decode_batch = λ b. elim b [
    | value_body v ↦ none
    | error_body d ↦ none
    | batch_body vs ↦ some vs
    | ready_body s ↦ none
  ];
}

plain-value : (vb : ValueBody) → plain.decode_value (value_body vb) ≡ some vb
plain-value vb = refl

plain-error : (d : ErrorDetail) → plain.decode_error (error_body d) ≡ some d
plain-error d = refl

resolve_once-handle_value_example :
    let sent = handle_value guarded (deliver_log log (start_all has_env two_bindings)) request db in
    Agrees
      (is_entitled guarded request db)
      (resolve_once plain (ok (sent.0.status, sent.0.body)))
      (promised has_env (get two_bindings db) (history db log))
      sent
resolve_once-handle_value_example =
    resolve_once-handle_value plain (λ b. b) plain-value plain-error guarded has_env two_bindings
      log request db

-- The first endpoint is down, the second knows no such binding, the third is not asked.
abbrev attempt : ℕ → Result ℕ × Bool
attempt zero = (err (sentinel Sentinel.unavailable), false)
attempt (suc zero) = (err (sentinel Sentinel.not_found), false)
attempt (suc (suc n)) = (ok n, false)

try_endpoints-Decides_example :
    Decides attempt (0 ∷ 1 ∷ 2 ∷ []) (try_endpoints attempt none (0 ∷ 1 ∷ 2 ∷ []))
try_endpoints-Decides_example = try_endpoints-Decides attempt 0 (1 ∷ 2 ∷ [])

abbrev frame_at : ℕ → ValueBody
frame_at t = record {
  name = [];
  bytes = codes "v";
  version = [];
  sensitive = false;
  not_after = none;
  metadata = [];
  kind = Kind.blank;
  error = none;
  resolved_at = some t;
  stale = false;
}

abbrev always : Update → Bool
always up = true

frames_run-InOrder_example :
    InOrder
      (frames_run always db
        (frame_at 9000000000 ∷ frame_at 1000000000 ∷ frame_at 8000000000 ∷ [])).delivered
frames_run-InOrder_example =
    frames_run-InOrder always db
      (frame_at 9000000000 ∷ frame_at 1000000000 ∷ frame_at 8000000000 ∷ [])
