-- ===== src/Server/Wire.antt =====
-- server/wire.go: the bodies that the server sends, and when a watched binding counts as changed.
-- JSON and the texts of messages are not modelled: a body is the struct that is encoded.
use mamori.Prelude.{
  ℕ, Bool, true, false, not, ◌&&◌, ◌||◌, Option, none, some, List, [], ◌∷◌, Text, if◌then◌else◌,
  Map, str_eq, is_empty,
}
use mamori.Errors.{Kind, same_kind}
use mamori.Value.{Time, Value, is_zero_time}
use mamori.Server.Resolver.{Lookup}

-- errorDetail, with its kind only.
pub record ErrorDetail : Type 0 where
  pub kind : Kind

-- A time pointer of the source is an Option.
pub record ValueBody : Type 0 where
  pub name : Text
  pub bytes : Text
  pub version : Text
  pub sensitive : Bool
  pub not_after : Option Time
  pub metadata : Map Text
  pub kind : Kind
  pub error : Option ErrorDetail
  pub resolved_at : Option Time
  pub stale : Bool

time_pointer : Time → Option Time
time_pointer t = if is_zero_time t then none else some t

unfoldable pub new_value_body : Text → Value → Kind → Time → Bool → ValueBody
unfolding time_pointer
new_value_body name v kind resolved_at stale = record {
  name = name;
  bytes = v.bytes;
  version = v.version;
  sensitive = v.sensitive;
  not_after = time_pointer v.not_after;
  metadata = v.metadata;
  kind = kind;
  error = none;
  resolved_at = time_pointer resolved_at;
  stale = stale;
}

unfoldable pub new_error_value_body : Text → Kind → ValueBody
new_error_value_body name kind = record {
  name = name;
  bytes = [];
  version = [];
  sensitive = false;
  not_after = none;
  metadata = [];
  kind = Kind.blank;
  error = some (record { kind = kind });
  resolved_at = none;
  stale = false;
}

-- kindStatus
abbrev pub kind_status : List (Kind × ℕ)
kind_status =
    (Kind.not_found, 404)
    ∷ (Kind.invalid, 400)
    ∷ (Kind.unauthenticated, 401)
    ∷ (Kind.permission_denied, 403)
    ∷ (Kind.rate_limited, 429)
    ∷ (Kind.unavailable, 503)
    ∷ (Kind.unknown, 500)
    ∷ []

status_in : List (Kind × ℕ) → Kind → ℕ
status_in [] kind = 500
status_in ((k, status) ∷ rest) kind = if same_kind k kind then status else status_in rest kind

unfoldable pub status_for_kind : Kind → ℕ
unfolding status_in
status_for_kind kind = status_in kind_status kind

pub data Frame : Type 0 where
  update error : ValueBody → Frame
  heartbeat : Frame

-- kind != "" && !hasValue
abbrev pub is_failed : Lookup → Bool
is_failed l = not (same_kind l.kind Kind.blank) && not l.has_value

-- The frame that sendWatchSnapshot writes.
unfoldable pub watch_snapshot : Text → Lookup → Frame
unfolding new_value_body new_error_value_body
watch_snapshot name l =
    if not l.found
    then error (new_error_value_body name Kind.not_found)
    else if is_failed l
    then error (new_error_value_body name l.kind)
    else update (new_value_body name l.value l.kind l.resolved_at l.stale)

unfoldable pub snapshot_changed : Value → Kind → Bool → Value → Kind → Bool → Bool
snapshot_changed prev_value prev_kind prev_found value kind found =
    if not (same_bool prev_found found) || not (same_kind prev_kind kind)
    then true
    else if not (is_empty value.version) || not (is_empty prev_value.version)
    then not (str_eq value.version prev_value.version)
    else not (str_eq value.bytes prev_value.bytes)
  where
    same_bool : Bool → Bool → Bool
    same_bool true b = b
    same_bool false b = not b
