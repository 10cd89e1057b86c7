-- ===== src/Errors/Laws.antt =====
-- errors.go: the tables of kinds beside the kinds that the sentinels stand for.
use mamori.Prelude.{◌≡◌, ◌⊎◌, Bool, true, false, Option, none, some, arith, Text, List, [], ◌∷◌}
use mamori.Errors.{
  Error, Sentinel, sentinel, Kind, same_kind, wrap, provider_error, error_kind, first_kind,
  validation_error, derive_error, pre_apply_error, stale_error,
}

-- A layer that the program puts round an error: fmt.Errorf with one %w, or a wrapping type.
pub data Layer : Type 0 where
  plain validation derive pre_apply : Layer
  by_provider : Text → Text → Layer
  stale : Text → Layer

pub layered : List Layer → Error → Error
layered [] e = e
layered (plain ∷ ls) e = wrap (layered ls e)
layered (validation ∷ ls) e = validation_error (layered ls e)
layered (derive ∷ ls) e = derive_error (layered ls e)
layered (pre_apply ∷ ls) e = pre_apply_error (layered ls e)
layered (by_provider scheme ref ∷ ls) e = provider_error scheme ref (layered ls e)
layered (stale ref ∷ ls) e = stale_error ref (layered ls e)

-- The kind that the doc of each sentinel names; a deadline is an outage, and the others have none.
pub kind_of : Sentinel → Kind
kind_of Sentinel.not_found = Kind.not_found
kind_of Sentinel.permission_denied = Kind.permission_denied
kind_of Sentinel.unauthenticated = Kind.unauthenticated
kind_of Sentinel.unavailable = Kind.unavailable
kind_of Sentinel.rate_limited = Kind.rate_limited
kind_of Sentinel.invalid = Kind.invalid
kind_of Sentinel.deadline_exceeded = Kind.unavailable
kind_of Sentinel.no_such_snapshot = Kind.unknown
kind_of Sentinel.watcher_closed = Kind.unknown
kind_of Sentinel.reentrant_call = Kind.unknown
kind_of Sentinel.canceled = Kind.unknown
kind_of Sentinel.forbidden = Kind.unknown

-- An error is never of the kind of no error.
pub error_kind-some : (e : Error) → same_kind (error_kind (some e)) Kind.blank ≡ false
unfolding error_kind first_kind
error_kind-some e = ground arith

-- The kinds that have a sentinel.
pub is_named : Kind → Bool
is_named Kind.unknown = false
is_named Kind.blank = false
is_named _ = true

-- What SentinelFor is to give for a kind.
abbrev pub Stands : Kind → Option Error → Type 0
Stands k o =
    ((is_named k ≡ true) × (s : Sentinel) × (o ≡ some (sentinel s)) × (kind_of s ≡ k))
    ⊎ ((is_named k ≡ false) × (o ≡ none))
