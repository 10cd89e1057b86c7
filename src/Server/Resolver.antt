-- ===== src/Server/Resolver.antt =====
-- server/resolve.go: what the server holds of each binding, fed by one watch for each, and the
-- server's life from start to Close.
pub mod Log
pub mod LastGood
pub mod Ready
pub mod Life
use mamori.Prelude.{
  ℕ, ◌+◌, Bool, true, false, not, ◌&&◌, ◌||◌, Option, none, some, List, [], ◌∷◌, Text, codes,
  if◌then◌else◌, Map, get, put,
}
use mamori.Errors.{Error, opaque, Kind, error_kind, Result, ok, err}
use mamori.Ref.{Ref}
use mamori.Value.{Time, Value}
use mamori.Resolve.{zero_value}
use mamori.Engine.State.{Update}
use mamori.Server.Bindings.{Binding}

pub record BindingSnapshot : Type 0 where
  pub has_value : Bool
  pub value : Value
  pub error : Option Error
  pub kind : Kind
  pub resolved_at : Time
  pub settled : Bool

-- A failure over what was stored: the last good value is kept, with its time.
keep_good : Error → BindingSnapshot → BindingSnapshot
keep_good e prev =
    let next : BindingSnapshot = record {
      has_value = false;
      value = zero_value;
      error = some e;
      kind = error_kind (some e);
      resolved_at = 0;
      settled = true;
    } in
    if prev.has_value
    then record next { has_value = true; value = prev.value; resolved_at = prev.resolved_at }
    else next

keep_stored : Error → Option BindingSnapshot → BindingSnapshot
unfolding keep_good
keep_stored e none = record {
  has_value = false;
  value = zero_value;
  error = some e;
  kind = error_kind (some e);
  resolved_at = 0;
  settled = true;
}
keep_stored e (some prev) = keep_good e prev

-- resolverState.apply, of an update received at `now`.
unfoldable pub apply : Time → Update → Option BindingSnapshot → BindingSnapshot
unfolding keep_stored
apply now up prev = elim up.error [
  | none ↦ record {
    has_value = true;
    value = up.value;
    error = none;
    kind = Kind.blank;
    resolved_at = now;
    settled = true;
  }
  | some e ↦ keep_stored e prev
]

abbrev pub pending_resolve : Error
pending_resolve = opaque (codes "binding not yet resolved")

abbrev pub no_provider : Error
no_provider = opaque (codes "no provider registered")

-- What start stores for a binding, by whether its scheme has a provider.
unfoldable pub initial_snapshot : Bool → BindingSnapshot
initial_snapshot registered =
    if registered
    then record {
      has_value = false;
      value = zero_value;
      error = some pending_resolve;
      kind = error_kind (some pending_resolve);
      resolved_at = 0;
      settled = false;
    }
    else record {
      has_value = false;
      value = zero_value;
      error = some no_provider;
      kind = error_kind (some no_provider);
      resolved_at = 0;
      settled = true;
    }

-- resolved, by name: each binding's snapshot pointer.
abbrev pub Resolvers : Type 0
Resolvers = Map (Option BindingSnapshot)

pub record Lookup : Type 0 where
  pub value : Value
  pub resolved_at : Time
  pub stale : Bool
  pub kind : Kind
  pub has_value : Bool
  pub found : Bool

unfoldable pub has_error : Option Error → Bool
has_error none = false
has_error (some e) = true

view_of : BindingSnapshot → Lookup
unfolding has_error
view_of snap =
    if snap.has_value
    then record {
      value = snap.value;
      resolved_at = snap.resolved_at;
      stale = has_error snap.error;
      kind = snap.kind;
      has_value = true;
      found = true;
    }
    else record {
      value = zero_value;
      resolved_at = 0;
      stale = false;
      kind = snap.kind;
      has_value = false;
      found = true;
    }

view_stored : Option BindingSnapshot → Lookup
unfolding view_of
view_stored none = record {
  value = zero_value;
  resolved_at = 0;
  stale = false;
  kind = error_kind (some pending_resolve);
  has_value = false;
  found = true;
}
view_stored (some snap) = view_of snap

view_named : Option (Option BindingSnapshot) → Lookup
unfolding view_stored
view_named none = record {
  value = zero_value;
  resolved_at = 0;
  stale = false;
  kind = Kind.blank;
  has_value = false;
  found = false;
}
view_named (some stored) = view_stored stored

unfoldable pub lookup_fresh : Resolvers → Text → Lookup
unfolding view_named
lookup_fresh resolved name = view_named (get resolved name)

-- The goroutine of one binding stores what an update makes of its snapshot.
receive_entry : Time → Text → Update → Resolvers → Option (Option BindingSnapshot) → Resolvers
receive_entry now name up resolved none = resolved
receive_entry now name up resolved (some prev) = put resolved name (some (apply now up prev))

unfoldable pub receive : Time → Text → Update → Resolvers → Resolvers
unfolding receive_entry
receive now name up resolved = receive_entry now name up resolved (get resolved name)

pub data ReadyState : Type 0 where
  ready_state priming_state draining_state : ReadyState

unfoldable pub is_settled : Option BindingSnapshot → Bool
is_settled none = false
is_settled (some snap) = snap.settled

unfoldable pub all_settled : Resolvers → Bool
unfolding is_settled
all_settled [] = true
all_settled ((name, stored) ∷ resolved) = if is_settled stored then all_settled resolved else false

unfoldable pub readiness : Bool → Resolvers → ReadyState × Bool
unfolding all_settled
readiness draining resolved =
    if draining
    then (draining_state, false)
    else if all_settled resolved
    then (ready_state, true)
    else (priming_state, false)

-- start fills `resolved` from the bindings.
unfoldable pub start_all : (Text → Bool) → Map Binding → Resolvers
unfolding initial_snapshot
start_all has_provider [] = []
start_all has_provider ((name, b) ∷ bindings) =
    (name, some (initial_snapshot (has_provider b.ref.scheme))) ∷ start_all has_provider bindings

-- The fields of Server that its life writes; contexts, channels and wait groups count as flags.
pub record ServerState : Type 0 where
  pub started : Bool
  pub closed : Bool
  pub draining : Bool
  pub torn_down : Bool
  pub listening : ℕ
  pub resolved : Resolvers

pub data StartError : Type 0 where
  is_closed already_started : StartError

unfoldable pub start : (Text → Bool) → Map Binding → ServerState → ServerState × Option StartError
start has_provider bindings s =
    if s.closed
    then (s, some is_closed)
    else if s.started
    then (s, some already_started)
    else (record s { started = true; resolved = start_all has_provider bindings }, none)

-- beginListening for `n` listeners.
unfoldable pub begin_listening : ℕ → ServerState → ServerState × Bool
begin_listening n s =
    if s.closed then (s, false) else (record s { listening = s.listening + n }, true)

-- Close up to the sleep of the drain grace; a later call changes nothing.
unfoldable pub begin_close : ServerState → ServerState
begin_close s = if s.closed then s else record s { closed = true; draining = true }

-- teardown, behind the grace: the listeners and the watches are gone.
unfoldable pub teardown : ServerState → ServerState
teardown s = record s { torn_down = true; listening = 0 }
