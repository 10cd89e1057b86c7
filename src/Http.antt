-- ===== src/Http.antt =====
-- providers/httpcore: what the HTTP providers share. classify.go: the error of a status, and the status of a kind.
pub mod Classify
pub mod Revalidate
pub mod Tests
use mamori.Prelude.{
  ℕ, ◌==◌, leb, ltb, Bool, true, false, ◌&&◌, ◌||◌, Option, none, some, if◌then◌else◌,
}
use mamori.Errors.{Error, Sentinel, sentinel, wrap, Kind}

-- The switch of classify.
sentinel_for_status : ℕ → Sentinel
sentinel_for_status status =
    if (status == 400) || (status == 422)
    then Sentinel.invalid
    else if status == 401
    then Sentinel.unauthenticated
    else if status == 403
    then Sentinel.permission_denied
    else if status == 404
    then Sentinel.not_found
    else if (status == 408) || (status == 429)
    then Sentinel.rate_limited
    else Sentinel.unavailable

classify : ℕ → Option Error
unfolding sentinel_for_status
classify status =
    if leb 200 status && ltb status 300
    then none
    else if status == 304
    then none
    else some (wrap (sentinel (sentinel_for_status status)))

unfoldable pub classify_status : ℕ → Option Error
unfolding classify
classify_status status = elim (classify status) [ none ↦ none | some e ↦ some (wrap e) ]

-- StatusForKind
unfoldable pub status_of_kind : Kind → ℕ
status_of_kind Kind.invalid = 400
status_of_kind Kind.unauthenticated = 401
status_of_kind Kind.permission_denied = 403
status_of_kind Kind.not_found = 404
status_of_kind Kind.rate_limited = 429
status_of_kind Kind.unavailable = 503
status_of_kind Kind.unknown = 500
status_of_kind Kind.blank = 500
