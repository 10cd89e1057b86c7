-- ===== src/Report/Tests.antt =====
-- The theorem on health at a concrete report: one stale field, served from the bootstrap snapshot.
use mamori.Prelude.{◌≡◌, true, false, some, [], ◌∷◌, codes, is_empty}
use mamori.Errors.{Kind}
use mamori.Report.{FieldStatus, Report, ConfigSource, status, health}
use mamori.Report.Agreement.{health-status}

abbrev stale_field : FieldStatus
stale_field = record {
  path = codes "db.url";
  scheme = codes "env";
  ref = codes "env:A";
  version = codes "x";
  sensitive = false;
  last_ok = 1;
  age = 0;
  stale = false;
  last_kind = Kind.blank;
  is_derived = false;
}

abbrev stored : Report
stored = record {
  fields = stale_field ∷ [];
  snapshot = 1;
  live = 1;
  pinned = false;
  healthy = true;
  generated_at = 1;
  source = ConfigSource.bootstrap_cache;
  bootstrap = some (record {
    present = true;
    restored = true;
    written_at = 1;
    age = 0;
    fingerprint_match = true;
  });
}

health-status_example : is_empty (health 5 10 100 stored) ≡ (status 5 10 100 stored).healthy
health-status_example = health-status 5 10 100 stored
