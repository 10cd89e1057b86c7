-- ===== src/Server/Resolver/LastGood.antt =====
-- server/resolve.go: what lookupFresh answers beside the log of the updates.
use mamori.Prelude.{
  ◌≡◌, refl, sym, subst, ap, ◌∙◌, ◌&&◌, Bool, true, false, ◌||◌, not, Option, none, some, List, [],
  ◌∷◌, Text, if◌then◌else◌, Map, get, arith, is_empty, Option-cases, inl, inr,
}
use mamori.Errors.{Error, error_kind, Kind}
use mamori.Errors.Laws.{error_kind-some}
use mamori.Value.{Time, Value}
use mamori.Resolve.{zero_value}
use mamori.Engine.State.{Update}
use mamori.Server.Bindings.{Binding}
use mamori.Server.Resolver.{
  BindingSnapshot, keep_good, keep_stored, apply, pending_resolve, no_provider, initial_snapshot,
  Lookup, has_error, view_of, view_stored, view_named, lookup_fresh, start_all,
}
use mamori.Server.Wire.{is_failed}
use mamori.Server.Resolver.Log.{
  Log, deliver_log, history, stored, stored_entry, get-deliver_log, initial_entry, get-start_all,
}

pub newest_good : List (Time × Update) → Option (Time × Value)
newest_good [] = none
newest_good ((now, up) ∷ hist) =
    let rest = newest_good hist in elim up.error [ none ↦ some (now, up.value) | some e ↦ rest ]

-- The error of the newest update, or that of a binding not heard of.
pub newest_error : Error → List (Time × Update) → Option Error
newest_error before [] = some before
newest_error before ((now, up) ∷ hist) = up.error

-- The newest good value, stale if the newest update is a failure.
abbrev pub served : Option (Time × Value) → Option Error → Lookup
served none e = record {
  value = zero_value;
  resolved_at = 0;
  stale = false;
  kind = error_kind e;
  has_value = false;
  found = true;
}
served (some (t, v)) e = record {
  value = v;
  resolved_at = t;
  stale = has_error e;
  kind = error_kind e;
  has_value = true;
  found = true;
}

abbrev pub before_updates : Bool → Error
before_updates registered = if registered then pending_resolve else no_provider

abbrev pub promised : (Text → Bool) → Option Binding → List (Time × Update) → Lookup
promised has_provider none hist = record {
  value = zero_value;
  resolved_at = 0;
  stale = false;
  kind = Kind.blank;
  has_value = false;
  found = false;
}
promised has_provider (some b) hist =
    served (newest_good hist) (newest_error (before_updates (has_provider b.ref.scheme)) hist)

-- The snapshot that stands for a log.
abbrev pub snapshot_of : Option (Time × Value) → Option Error → Bool → BindingSnapshot
snapshot_of none e s = record {
  has_value = false;
  value = zero_value;
  error = e;
  kind = error_kind e;
  resolved_at = 0;
  settled = s;
}
snapshot_of (some (t, v)) e s = record {
  has_value = true;
  value = v;
  error = e;
  kind = error_kind e;
  resolved_at = t;
  settled = s;
}

keep_good-snapshot_of :
    (e : Error) (g : Option (Time × Value)) (old : Option Error) (s : Bool)
    → keep_good e (snapshot_of g old s) ≡ snapshot_of g (some e) true
unfolding keep_good
keep_good-snapshot_of e none old s = refl
keep_good-snapshot_of e (some (t, v)) old s = refl

apply-snapshot_of :
    (now : Time) (up : Update) (g : Option (Time × Value)) (old : Option Error) (s : Bool)
    → apply now up (some (snapshot_of g old s))
      ≡ snapshot_of (elim up.error [ none ↦ some (now, up.value) | some e ↦ g ]) up.error true
unfolding apply keep_stored error_kind
apply-snapshot_of now up g old s = elim (Option-cases up.error) [
  | inl good ↦ rw good refl
  | inr (e, bad) ↦ rw bad (keep_good-snapshot_of e g old s)
]

abbrev pub settled_by : Bool → List (Time × Update) → Bool
settled_by registered hist = not registered || not (is_empty hist)

pub stored-snapshot_of :
    (registered : Bool) (hist : List (Time × Update))
    → stored hist (some (initial_snapshot registered))
      ≡ some (
          snapshot_of
            (newest_good hist)
            (newest_error (before_updates registered) hist)
            (settled_by registered hist))
unfolding stored newest_good newest_error initial_snapshot
stored-snapshot_of true [] = refl
stored-snapshot_of false [] = refl
stored-snapshot_of registered ((now, up) ∷ hist) =
    let before = before_updates registered in
    let all_settle : true ≡ settled_by registered ((now, up) ∷ hist) = ground arith in
    ap (λ x. some (apply now up x)) (stored-snapshot_of registered hist)
    ∙ ap some (
        apply-snapshot_of now up (newest_good hist) (newest_error before hist)
          (settled_by registered hist))
    ∙ ap (λ s. some (snapshot_of (newest_good ((now, up) ∷ hist)) up.error s)) all_settle

view_of-snapshot_of :
    (g : Option (Time × Value)) (e : Option Error) (s : Bool)
    → view_of (snapshot_of g e s) ≡ served g e
unfolding view_of
view_of-snapshot_of none e s = refl
view_of-snapshot_of (some (t, v)) e s = refl

view_named-promised :
    (has_provider : Text → Bool) (o : Option Binding) (hist : List (Time × Update))
    → view_named (stored_entry hist (initial_entry has_provider o)) ≡ promised has_provider o hist
unfolding view_named view_stored
view_named-promised has_provider none hist = refl
view_named-promised has_provider (some b) hist =
    let registered = has_provider b.ref.scheme in
    ap view_stored (stored-snapshot_of registered hist)
    ∙ view_of-snapshot_of (newest_good hist) (newest_error (before_updates registered) hist)
        (settled_by registered hist)

-- For every set of bindings and every log of updates, in any order over the bindings: a lookup gives
-- the newest good value of its binding, with the time of its arrival, and calls it stale exactly if
-- the newest update is a failure, whose kind it then gives; with no good value it gives the kind of
-- the newest failure, or of a binding not heard of; and it finds no other name.
pub lookup_fresh-promised :
    (has_provider : Text → Bool) (bindings : Map Binding) (log : Log) (name : Text)
    → lookup_fresh (deliver_log log (start_all has_provider bindings)) name
      ≡ promised has_provider (get bindings name) (history name log)
unfolding lookup_fresh
lookup_fresh-promised has_provider bindings log name =
    ap view_named (
      get-deliver_log log (start_all has_provider bindings) name
      ∙ ap (stored_entry (history name log)) (get-start_all has_provider bindings name))
    ∙ view_named-promised has_provider (get bindings name) (history name log)

-- A binding without a good value has an error.
served-has_value :
    (before : Error) (hist : List (Time × Update))
    → let l = served (newest_good hist) (newest_error before hist) in
      l.has_value ≡ (l.found && not (is_failed l))
unfolding newest_good newest_error
served-has_value before [] = rw (error_kind-some before) refl
served-has_value before ((now, up) ∷ hist) = elim (Option-cases up.error) [
  | inl good ↦ rw good (ground arith)
  | inr (e, bad) ↦ elim (Option-cases (newest_good hist)) [
    | inl never ↦ rw (bad, never, error_kind-some e) refl
    | inr (g, ever) ↦ rw (bad, ever) (ground arith)
  ]
]

promised-has_value :
    (has_provider : Text → Bool) (o : Option Binding) (hist : List (Time × Update))
    → let l = promised has_provider o hist in l.has_value ≡ (l.found && not (is_failed l))
promised-has_value has_provider none hist = refl
promised-has_value has_provider (some b) hist =
    served-has_value (before_updates (has_provider b.ref.scheme)) hist

-- A lookup has a value exactly if it finds a binding that has not failed.
pub lookup_fresh-has_value :
    (has_provider : Text → Bool) (bindings : Map Binding) (log : Log) (name : Text)
    → let l = lookup_fresh (deliver_log log (start_all has_provider bindings)) name in
      l.has_value ≡ (l.found && not (is_failed l))
lookup_fresh-has_value has_provider bindings log name =
    subst (λ (l : Lookup). l.has_value ≡ (l.found && not (is_failed l)))
      (sym (lookup_fresh-promised has_provider bindings log name))
      (promised-has_value has_provider (get bindings name) (history name log))
