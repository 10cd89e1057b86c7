-- ===== src/Bootstrap.antt =====
-- bootstrapstore.go: what goes into the bootstrap snapshot and what is restored from it. The file,
-- its encryption and the fingerprint of the config struct are arguments.
pub mod RoundTrip
pub mod Tests
use mamori.Prelude.{
  ℕ, Bool, true, false, not, ◌&&◌, ◌||◌, Option, none, some, List, [], ◌∷◌, Text, if◌then◌else◌,
  ltb, ◌==◌, str_eq, Map, Set, get, put, insert, is_empty,
}
use mamori.Errors.{
  Error, Sentinel, sentinel, wrap, wrap2, Kind, error_kind, same_kind, Result, ok, err, ◌>>=◌,
}
use mamori.Ref.{Ref}
use mamori.Ref.Redact.{redacted}
use mamori.Value.{Time, Value, FieldSpec, default_value_version}
use mamori.Resolve.{Resolved, unresolved}
use mamori.Engine.State.{Options, Engine}

pub record SnapshotRecord : Type 0 where
  pub path : Text
  pub ref : Text
  pub bytes : Text
  pub value_version : Text
  pub sensitive : Bool
  pub not_after : Time
  pub metadata : Map Text

pub record Stored : Type 0 where
  pub written_at : Time
  pub fingerprint : Text
  pub records : List SnapshotRecord

-- bootstrapOrigin
pub record Origin : Type 0 where
  pub present : Bool
  pub restored : Bool
  pub written_at : Time
  pub resolve_err : Option Error

-- bootstrapTransient
unfoldable pub bootstrap_transient : Kind → Bool
bootstrap_transient k = same_kind k Kind.unavailable || same_kind k Kind.rate_limited

first_redacted : List Ref → Text
first_redacted [] = []
first_redacted (ref ∷ refs) = redacted ref

unfoldable pub record_of : Resolved → SnapshotRecord
unfolding first_redacted
record_of r = record {
  path = r.spec.path;
  ref = first_redacted r.spec.refs;
  bytes = r.value.bytes;
  value_version = r.value.version;
  sensitive = r.value.sensitive || r.spec.sensitive;
  not_after = r.value.not_after;
  metadata = r.value.metadata;
}

unfoldable pub bootstrap_records : List Resolved → List SnapshotRecord
unfolding record_of
bootstrap_records [] = []
bootstrap_records (r ∷ res) =
    if r.set then record_of r ∷ bootstrap_records res else bootstrap_records res

unfoldable pub is_expired : SnapshotRecord → Time → Bool
is_expired rec now = not (rec.not_after == 0) && not (ltb now rec.not_after)

-- The loop of restoreBootstrap over the records; one that has expired ends it.
unfoldable pub index_records :
    List SnapshotRecord → Time → Map SnapshotRecord → Option (Map SnapshotRecord)
unfolding is_expired
index_records [] now by_path = some by_path
index_records (rec ∷ recs) now by_path =
    if is_expired rec now then none else index_records recs now (put by_path rec.path rec)

unfoldable pub restored_from : FieldSpec → Option SnapshotRecord → Resolved
restored_from spec none = unresolved spec
restored_from spec (some rec) = record {
  spec = spec;
  value = record {
    bytes = rec.bytes;
    version = rec.value_version;
    sensitive = rec.sensitive || spec.sensitive;
    not_after = rec.not_after;
    metadata = rec.metadata;
  };
  found = true;
  set = true;
}

unfoldable pub restored_fields : Map SnapshotRecord → List FieldSpec → List Resolved
unfolding restored_from
restored_fields by_path [] = []
restored_fields by_path (spec ∷ specs) =
    restored_from spec (get by_path spec.path) ∷ restored_fields by_path specs

-- What restoreBootstrap makes of a snapshot that could be read.
unfoldable pub restore_stored :
    Text → List FieldSpec → Error → Time → Stored → Result (List Resolved × Time)
unfolding index_records restored_fields
restore_stored fingerprint specs resolve_err now s =
    if str_eq fingerprint s.fingerprint
    then elim (index_records s.records now []) [
      | none ↦ err (wrap2 resolve_err (sentinel Sentinel.invalid))
      | some by_path ↦ ok (restored_fields by_path specs, s.written_at)
    ]
    else err (wrap2 resolve_err (sentinel Sentinel.invalid))

-- restoreBootstrap; `read` is the answer of readBootstrapSnapshot.
unfoldable pub restore_bootstrap :
    Result Stored → Text → List FieldSpec → Error → Time → Result (List Resolved × Time)
restore_bootstrap read fingerprint specs resolve_err now =
    if bootstrap_transient (error_kind (some resolve_err))
    then elim read [
      | err e ↦ err (wrap2 resolve_err e)
      | ok s ↦ restore_stored fingerprint specs resolve_err now s
    ]
    else err (wrap resolve_err)

-- bootstrapReplayErr
unfoldable pub replay_err : Option Origin → Error → Error
replay_err none e = e
replay_err (some origin) e = elim origin.resolve_err [
  | none ↦ e
  | some cause ↦ if origin.restored then wrap2 cause e else e
]

-- seedBootstrapOrigin: the paths that no provider has confirmed.
unfoldable pub unconfirmed_paths : List Resolved → Set
unconfirmed_paths [] = []
unconfirmed_paths (r ∷ res) =
    let rest = unconfirmed_paths res in
    if not r.set || str_eq r.value.version default_value_version
    then rest
    else insert rest r.spec.path

unfoldable pub seed_bootstrap_origin : {T : Type 0} → Origin → List Resolved → Engine T → Engine T
unfolding unconfirmed_paths
seed_bootstrap_origin origin restored e =
    let e' = record e {
      bootstrap_present = origin.present;
      bootstrap_restored = true;
      bootstrap_written_at = origin.written_at;
    } in
    if is_empty (unconfirmed_paths restored) then e' else record e' {
      bootstrap_unconfirmed = some (unconfirmed_paths restored);
      bootstrap_serving = true;
    }

-- observedAsResolved
unfoldable pub observed_as_resolved : Map Value → List FieldSpec → List Resolved
observed_as_resolved observed [] = []
observed_as_resolved observed (spec ∷ specs) = elim (get observed spec.path) [
  | none ↦ observed_as_resolved observed specs
  | some v ↦
      record { spec = spec; value = v; found = true; set = true }
      ∷ observed_as_resolved observed specs
]
