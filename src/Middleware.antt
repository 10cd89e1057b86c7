-- ===== src/Middleware.antt =====
-- middleware/failover.go, middleware/cache.go, middleware/ratelimit.go, middleware/prefix.go: providers that wrap providers. The mutex of the cache
-- is not modelled: each section that it guards is one step, and calls come one after another.
pub mod Laws
pub mod Caching
pub mod Spacing
pub mod Tests
use mamori.Prelude.{
  ℕ, ◌+◌, ◌-◌, ◌==◌, ◌&&◌, is_empty, Bool, true, false, Option, none, some, List, [], ◌∷◌, ◌++◌,
  Text, if◌then◌else◌, ltb, Map, get, put,
}
use mamori.Errors.{Error, Sentinel, opaque, wrap, wrap2, is, Result, ok, err}
use mamori.Ref.{Ref, render}
use mamori.Strings.{trim_prefix}
use mamori.Strings.Url.{Values}
use mamori.Value.{Time, Value}

-- errors.Join: the errors as one, behind fmt.Errorf's %w.
unfoldable pub join_errors : List Error → Error
join_errors [] = opaque []
join_errors (e ∷ es) = wrap2 e (join_errors es)

-- The loop of Failover over the providers that are left, with the errors so far.
unfoldable pub failover_loop : List (Ref → Result Value) → Ref → List Error → Result Value
failover_loop [] ref errs = err (wrap (join_errors errs))
failover_loop (p ∷ all) ref errs = elim (p ref) [
  | ok v ↦ ok v
  | err e ↦
      let rest = failover_loop all ref (errs ++ e ∷ []) in
      if is e Sentinel.not_found then err e else rest
]

unfoldable pub failover : (Ref → Result Value) → List (Ref → Result Value) → Ref → Result Value
failover primary replicas ref = failover_loop (primary ∷ replicas) ref []

pub record CacheEntry : Type 0 where
  pub value : Value
  pub expires : Time

-- What Cache asks its inner provider, and what it then stores.
ask : ℕ → (Ref → Result Value) → Time → Ref → Map CacheEntry → Result Value × Map CacheEntry
ask ttl inner now ref entries = elim (inner ref) [
  | err e ↦ (err e, entries)
  | ok v ↦ (ok v, put entries ref.raw (record { value = v; expires = now + ttl }))
]

hit_or_ask :
    ℕ
    → (Ref → Result Value)
    → Time
    → Ref
    → Map CacheEntry
    → Option CacheEntry
    → Result Value × Map CacheEntry
hit_or_ask ttl inner now ref entries none = ask ttl inner now ref entries
hit_or_ask ttl inner now ref entries (some e) =
    if ltb now e.expires then (ok e.value, entries) else ask ttl inner now ref entries

-- The resolve function of Cache, on its entries.
unfoldable pub cached :
    ℕ → (Ref → Result Value) → Time → Ref → Map CacheEntry → Result Value × Map CacheEntry
unfolding hit_or_ask ask
cached ttl inner now ref entries = hit_or_ask ttl inner now ref entries (get entries ref.raw)

-- RateLimit: the wait of a call at `now`, and the time from which the next may start.
unfoldable pub rate_limit : ℕ → Time → Time → ℕ × Time
rate_limit interval now next =
    if interval == 0
    then (0, next)
    else if ltb now next
    then (next - now, next + interval)
    else (0, now + interval)

-- joinPath
unfoldable pub join_path : Text → Text → Text
join_path prefix path =
    let front = trim_suffix_slash prefix in
    let rest = trim_prefix (b'/' ∷ []) path in if is_empty front then rest else front ++ b'/' ∷ rest
  where
    trim_suffix_slash : Text → Text
    trim_suffix_slash [] = []
    trim_suffix_slash (c ∷ s) =
        let tail = trim_suffix_slash s in if is_empty s && (c == b'/') then [] else c ∷ tail

-- mapRef of Prefix: the ref that the inner provider gets; Raw is what Ref.String gives for it.
unfoldable pub prefixed : (Values → Text) → Text → Ref → Ref
unfolding join_path
prefixed encode prefix ref =
    let out = record ref { path = join_path prefix ref.path } in
    record out { raw = render encode out }
