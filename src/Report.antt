-- ===== src/Report.antt =====
-- report.go, status.go: the report that the reconciler stores after each event, and what Status and
-- Health make of it when they are asked. Texts of errors are left out. The clock does not go back.
pub mod Agreement
pub mod Tests
use mamori.Prelude.{
  ℕ, suc, ◌-◌, Bool, true, false, not, ◌&&◌, ◌||◌, Option, none, some, List, [], ◌∷◌, ◌++◌, Text,
  if◌then◌else◌, ltb, ◌==◌, is_empty, any, get, member, insert, Set,
}
use mamori.Errors.{Error, Kind, error_kind, same_kind}
use mamori.Ref.{Ref}
use mamori.Ref.Redact.{redacted}
use mamori.Value.{Time, Value, FieldSpec, first_ref}
use mamori.Engine.State.{Derive, Options, Engine}
use mamori.Engine.Sources.{Winner, won, lost, recompute_winner, states_of, ref_at}
use mamori.Engine.Candidate.{has_spec_path}

pub record FieldStatus : Type 0 where
  pub path : Text
  pub scheme : Text
  pub ref : Text
  pub version : Text
  pub sensitive : Bool
  pub last_ok : Time
  pub age : ℕ
  pub stale : Bool
  pub last_kind : Kind
  pub is_derived : Bool

pub data ConfigSource : Type 0 where
  no_source bootstrap_cache backend : ConfigSource

pub record BootstrapStatus : Type 0 where
  pub present : Bool
  pub restored : Bool
  pub written_at : Time
  pub age : ℕ
  pub fingerprint_match : Bool

pub record Report : Type 0 where
  pub fields : List FieldStatus
  pub snapshot : ℕ
  pub live : ℕ
  pub pinned : Bool
  pub healthy : Bool
  pub generated_at : Time
  pub source : ConfigSource
  pub bootstrap : Option BootstrapStatus

-- fieldUnhealthy
unfoldable pub field_unhealthy : FieldStatus → Bool
field_unhealthy fs =
    if same_kind fs.last_kind Kind.not_found
      || (same_kind fs.last_kind Kind.permission_denied
          || (same_kind fs.last_kind Kind.unauthenticated || same_kind fs.last_kind Kind.invalid))
    then true
    else fs.stale

winning_ref : List Ref → Winner → Ref
winning_ref refs (won v pos) = ref_at refs pos
winning_ref refs (lost (some pos) e) = ref_at refs pos
winning_ref refs (lost none e) = first_ref refs

version_of : Option Value → Text
version_of none = []
version_of (some v) = v.version

kind_of : Option Error → Kind
kind_of none = Kind.blank
kind_of (some e) = error_kind (some e)

-- The staleness of a field last confirmed at `last`, and its age.
with_age : ℕ → Time → Time → FieldStatus → FieldStatus
with_age stale now last fs = record fs {
  last_ok = last;
  age = now - last;
  stale = ltb 0 stale && ltb stale (now - last);
}

module _ {T L : Type 0} (o : Options T L) (now : Time) where
  unfoldable pub field_status : ℕ → FieldSpec → Engine T → FieldStatus
  unfolding winning_ref version_of kind_of with_age
  field_status i spec e =
      let ref = winning_ref spec.refs (recompute_winner (states_of e.sources i)) in
      let fs : FieldStatus = record {
        path = spec.path;
        scheme = ref.scheme;
        ref = redacted ref;
        version = version_of (get e.observed spec.path);
        sensitive = spec.sensitive;
        last_ok = 0;
        age = 0;
        stale = false;
        last_kind = kind_of (get e.last_err spec.path);
        is_derived = false;
      } in
      elim (get e.last_ok spec.path) [ none ↦ fs | some last ↦ with_age o.stale now last fs ]

  unfoldable pub field_statuses : ℕ → List FieldSpec → Engine T → List FieldStatus
  field_statuses i [] e = []
  field_statuses i (spec ∷ specs) e = field_status i spec e ∷ field_statuses (suc i) specs e

  -- bootstrapSource and bootstrapStatus
  unfoldable pub bootstrap_source : Engine T → ConfigSource
  bootstrap_source e =
      if not o.has_bootstrap
      then ConfigSource.no_source
      else if e.bootstrap_serving
      then ConfigSource.bootstrap_cache
      else ConfigSource.backend

  unfoldable pub bootstrap_status : Engine T → Option BootstrapStatus
  bootstrap_status e =
      if o.has_bootstrap
      then some (record {
        present = e.bootstrap_present;
        restored = e.bootstrap_restored;
        written_at = e.bootstrap_written_at;
        age = if e.bootstrap_written_at == 0 then 0 else now - e.bootstrap_written_at;
        fingerprint_match = e.bootstrap_present;
      })
      else none

  -- The entries of derived fields: reflection finds them (`is_exported` is CanInterface) and knows
  -- the secret types.
  module _ (is_exported is_secret : L → Bool) where
    derived_status : Text → Option L → List FieldStatus
    derived_status path none = []
    derived_status path (some v) =
        if is_exported v
        then record {
          path = path;
          scheme = [];
          ref = [];
          version = o.host.derived_version v;
          sensitive = is_secret v;
          last_ok = 0;
          age = 0;
          stale = false;
          last_kind = Kind.blank;
          is_derived = true;
        }
          ∷ []
        else []

    written_statuses : T → List Text → Set → List FieldStatus × Set
    written_statuses cfg [] seen = ([], seen)
    written_statuses cfg (p ∷ ps) seen =
        let (same, same_seen) = written_statuses cfg ps seen in
        let (rest, seen') = written_statuses cfg ps (insert seen p) in
        if member seen p
        then (same, same_seen)
        else if has_spec_path o.specs p
        then (rest, seen')
        else (derived_status p (o.host.field_by_path cfg p) ++ rest, seen')

    unfoldable pub derived_statuses : T → List (Derive T) → Set → List FieldStatus
    unfolding derived_status written_statuses
    derived_statuses cfg [] seen = []
    derived_statuses cfg (d ∷ ds) seen =
        let (fields, seen') = written_statuses cfg d.writes seen in
        fields ++ derived_statuses cfg ds seen'

    unfoldable pub build_report : Engine T → Report
    build_report e =
        let fields = field_statuses 0 o.specs e in
        record {
          fields = fields ++ derived_statuses e.last_good o.derives [];
          snapshot = if e.pinned then e.pinned_version else e.version;
          live = e.version;
          pinned = e.pinned;
          healthy = not (any field_unhealthy fields);
          generated_at = now;
          source = bootstrap_source e;
          bootstrap = bootstrap_status e;
        }

-- bootstrapExpired
from_cache : ConfigSource → Bool
from_cache ConfigSource.bootstrap_cache = true
from_cache _ = false

expired_status : ConfigSource → ℕ → Option BootstrapStatus → Bool
unfolding from_cache
expired_status served_by max_age none = false
expired_status served_by max_age (some bs) =
    from_cache served_by && (ltb 0 max_age && ltb max_age bs.age)

unfoldable pub bootstrap_expired : Report → ℕ → Bool
unfolding expired_status
bootstrap_expired rep max_age = expired_status rep.source max_age rep.bootstrap

-- One field, and the bootstrap status, as Status asks for them at `now`.
aged : ℕ → Time → FieldStatus → FieldStatus
aged stale now f = if f.last_ok == 0 then f else with_age stale now f.last_ok f

all_aged : ℕ → Time → List FieldStatus → List FieldStatus
unfolding aged with_age
all_aged stale now [] = []
all_aged stale now (f ∷ fs) = aged stale now f ∷ all_aged stale now fs

bootstrap_aged : Time → Option BootstrapStatus → Option BootstrapStatus
bootstrap_aged now none = none
bootstrap_aged now (some bs) =
    if bs.written_at == 0 then some bs else some (record bs { age = now - bs.written_at })

-- Status of a Watcher with WithStale `stale` and the maximal age of a bootstrap snapshot; there is no
-- report before the first event.
unfoldable pub status : ℕ → ℕ → Time → Report → Report
unfolding all_aged bootstrap_aged
status stale max_age now rep =
    let fields = all_aged stale now rep.fields in
    let out = record rep {
      fields = fields;
      generated_at = now;
      bootstrap = bootstrap_aged now rep.bootstrap;
    } in
    record out { healthy = not (any field_unhealthy fields) && not (bootstrap_expired out max_age) }

pub data HealthFailure : Type 0 where
  unhealthy_fields : List FieldStatus → HealthFailure
  bootstrap_stale : HealthFailure

unfoldable pub unhealthy_of : List FieldStatus → List FieldStatus
unhealthy_of [] = []
unhealthy_of (f ∷ fs) = if field_unhealthy f then f ∷ unhealthy_of fs else unhealthy_of fs

-- Health: nil is [], and several errors are joined.
unfoldable pub health : ℕ → ℕ → Time → Report → List HealthFailure
health stale max_age now rep =
    let out = status stale max_age now rep in
    let bad = unhealthy_of out.fields in
    (if is_empty bad then [] else unhealthy_fields bad ∷ [])
    ++ (if bootstrap_expired out max_age then bootstrap_stale ∷ [] else [])
