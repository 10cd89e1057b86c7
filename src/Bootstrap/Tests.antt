-- ===== src/Bootstrap/Tests.antt =====
-- The theorem on bootstrap snapshots at two concrete fields, of which the second has no value.
use mamori.Prelude.{◌≡◌, refl, true, [], ◌∷◌, codes, Map, get, put, remove, str_eq}
use mamori.Resolve.{Resolved, unresolved}
use mamori.Resolve.Tests.{ref_of, value_of, spec_of}
use mamori.Bootstrap.{
  SnapshotRecord, record_of, bootstrap_records, index_records, is_expired, restored_from,
}
use mamori.Bootstrap.RoundTrip.{as_restored, restored_from-bootstrap_records}

abbrev first : Resolved
first = record {
  spec = spec_of (ref_of (codes "env") ∷ []);
  value = value_of (codes "x");
  found = true;
  set = true;
}

abbrev second : Resolved
second = unresolved (record (spec_of []) { path = codes "other" })

abbrev indexed : Map SnapshotRecord
indexed = (codes "db.url", record_of first) ∷ []

restored_from-bootstrap_records_example :
    restored_from first.spec (get indexed (codes "db.url")) ≡ as_restored first
unfolding index_records bootstrap_records is_expired record_of put remove str_eq
restored_from-bootstrap_records_example =
    restored_from-bootstrap_records 5 [] (second ∷ []) first indexed tt (refl, tt) refl
