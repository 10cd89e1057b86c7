-- ===== src/Server/Watch.antt =====
-- server/handler.go: the watch endpoint. Tickers and the request's context are not modelled: the loop
-- is given as one function for each of its ticks. `writes` says which frames reach the client; the
-- frames that are sent at first are sent whether or not they do.
pub mod Changes
use mamori.Prelude.{Bool, true, false, Option, none, some, List, [], ◌∷◌, Text, if◌then◌else◌, ◌++◌}
use mamori.Errors.{Kind}
use mamori.Value.{Value}
use mamori.Server.Bindings.{Identity, Policy}
use mamori.Server.Resolver.{Lookup, Resolvers, lookup_fresh}
use mamori.Server.Wire.{
  Frame, new_error_value_body, status_for_kind, is_failed, watch_snapshot, snapshot_changed,
}
use mamori.Server.Handler.{
  Request, Response, RequestOutcome, Access, Decision, Authenticated, write_error, outcome_of,
  authenticate,
}

pub record Watched : Type 0 where
  pub name : Text
  pub value : Value
  pub kind : Kind
  pub found : Bool

abbrev pub seen : Text → Lookup → Watched
seen name l = record { name = name; value = l.value; kind = l.kind; found = l.found }

-- What the loop over the names has sent, logged and taken on.
pub record Opening : Type 0 where
  pub frames : List Frame
  pub outcomes : List RequestOutcome
  pub subs : List Watched

watch_outcome : Identity → Request → Text → Lookup → RequestOutcome
watch_outcome id r name l =
    if l.found
    then if is_failed l
      then outcome_of id.subject name r Decision.allow l.kind (status_for_kind l.kind)
      else outcome_of id.subject name r Decision.allow l.kind 200
    else outcome_of id.subject name r Decision.allow Kind.not_found 404

-- One round of the loop of handleWatch over the names.
unfoldable pub open_name : Policy → Identity → Request → Text → Lookup → Opening → Opening
unfolding watch_outcome
open_name policy id r name l rest = elim (policy id name) [
  | some e ↦ record rest {
    frames = Frame.error (new_error_value_body name Kind.permission_denied) ∷ rest.frames;
    outcomes =
        outcome_of id.subject name r Decision.deny Kind.permission_denied 403 ∷ rest.outcomes;
  }
  | none ↦ record {
    frames = watch_snapshot name l ∷ rest.frames;
    outcomes = watch_outcome id r name l ∷ rest.outcomes;
    subs = seen name l ∷ rest.subs;
  }
]

unfoldable pub open_names : Policy → Identity → Request → Resolvers → List Text → Opening
unfolding open_name
open_names policy id r resolved [] = record { frames = []; outcomes = []; subs = [] }
open_names policy id r resolved (name ∷ names) =
    open_name policy id r name (lookup_fresh resolved name) (open_names policy id r resolved names)

-- handleWatch up to its loop: a refusal, or the stream's opening; with no subs it ends there.
pub data WatchStart : Type 0 where
  refused : Response → List RequestOutcome → WatchStart
  streams : Opening → WatchStart

unfoldable pub open_stream : Access → Identity → Request → Resolvers → Bool → List Text → WatchStart
unfolding open_names
open_stream a id r resolved can_flush [] =
    refused (write_error 400 Kind.invalid none)
      (outcome_of id.subject [] r Decision.deny Kind.invalid 400 ∷ [])
open_stream a id r resolved can_flush (name ∷ names) =
    if can_flush
    then streams (open_names a.policy id r resolved (name ∷ names))
    else refused (write_error 500 Kind.unknown none)
        (outcome_of id.subject [] r Decision.deny Kind.unknown 500 ∷ [])

-- handleWatch behind authenticate.
unfoldable pub watch_for :
    Access → Resolvers → Bool → Request → List Text → Authenticated → WatchStart
unfolding open_stream
watch_for a resolved can_flush r names (Authenticated.refuses f) =
    refused f.response (outcome_of [] [] r Decision.deny f.kind f.status ∷ [])
watch_for a resolved can_flush r names (Authenticated.admits id) =
    open_stream a id r resolved can_flush names

unfoldable pub start_watch : Access → Resolvers → Bool → Request → List Text → WatchStart
unfolding watch_for
start_watch a resolved can_flush r names = watch_for a resolved can_flush r names (authenticate a r)

-- A round of the loop over the subs: what was sent, the subs, and whether the stream goes on.
pub record Polled : Type 0 where
  pub frames : List Frame
  pub subs : List Watched
  pub goes_on : Bool

unfoldable pub has_changed : Watched → Lookup → Bool
unfolding snapshot_changed
has_changed w l = snapshot_changed w.value w.kind w.found l.value l.kind l.found

unfoldable pub poll_subs : (Frame → Bool) → Resolvers → List Watched → Polled
unfolding watch_snapshot has_changed
poll_subs writes resolved [] = record { frames = []; subs = []; goes_on = true }
poll_subs writes resolved (w ∷ ws) =
    let l = lookup_fresh resolved w.name in
    let frame = watch_snapshot w.name l in
    let rest = poll_subs writes resolved ws in
    if has_changed w l
    then if writes frame
      then record rest { frames = frame ∷ rest.frames; subs = seen w.name l ∷ rest.subs }
      else record { frames = frame ∷ []; subs = seen w.name l ∷ ws; goes_on = false }
    else record rest { subs = w ∷ rest.subs }
