-- ===== src/Http/Classify.antt =====
-- providers/httpcore/classify.go: the two tables beside each other.
use mamori.Prelude.{◌≡◌, refl}
use mamori.Errors.{Kind, error_kind, is}
use mamori.Http.{classify_status, status_of_kind}

-- A kind, as a client reads it behind the status that a fake server gives for it: a kind that is not
-- known looks like an outage.
abbrev seen_kind : Kind → Kind
seen_kind Kind.not_found = Kind.not_found
seen_kind Kind.permission_denied = Kind.permission_denied
seen_kind Kind.unauthenticated = Kind.unauthenticated
seen_kind Kind.rate_limited = Kind.rate_limited
seen_kind Kind.invalid = Kind.invalid
seen_kind Kind.unavailable = Kind.unavailable
seen_kind Kind.unknown = Kind.unavailable
seen_kind Kind.blank = Kind.unavailable

-- ClassifyStatus gives back the kind that StatusForKind was asked for.
classify_status-status_of_kind :
    (k : Kind) → error_kind (classify_status (status_of_kind k)) ≡ seen_kind k
unfolding classify_status status_of_kind error_kind is
classify_status-status_of_kind Kind.not_found = refl
classify_status-status_of_kind Kind.permission_denied = refl
classify_status-status_of_kind Kind.unauthenticated = refl
classify_status-status_of_kind Kind.rate_limited = refl
classify_status-status_of_kind Kind.invalid = refl
classify_status-status_of_kind Kind.unavailable = refl
classify_status-status_of_kind Kind.unknown = refl
classify_status-status_of_kind Kind.blank = refl
