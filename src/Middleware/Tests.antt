-- ===== src/Middleware/Tests.antt =====
-- The theorems on wrapped providers at concrete providers.
use mamori.Prelude.{ℕ, List, str_eq, ◌≡◌, arith, refl, [], ◌∷◌, codes}
use mamori.Errors.{Sentinel, sentinel, Result, ok, err, is}
use mamori.Ref.{Ref}
use mamori.Value.{Value}
use mamori.Resolve.Tests.{ref_of, value_of}
use mamori.Middleware.{failover, failover_loop, cached}
use mamori.Middleware.Laws.{Answered, failover-not_found}
use mamori.Middleware.Spacing.{granted, soonest, IsSpaced, granted-soonest}
use mamori.Middleware.Caching.{entries_after, fetched, cached-entries_after}

-- The primary is down, and the replica knows no such value.
abbrev down : Ref → Result Value
down ref = err (sentinel Sentinel.unavailable)

abbrev absent : Ref → Result Value
absent ref = err (sentinel Sentinel.not_found)

failover-not_found_example :
    Answered (ref_of (codes "env")) (sentinel Sentinel.not_found) (down ∷ absent ∷ [])
unfolding failover failover_loop is
failover-not_found_example =
    failover-not_found down (absent ∷ []) (ref_of (codes "env")) (sentinel Sentinel.not_found) refl
      refl

-- At 7 a value is taken; at 20 it has expired and another is taken; at 25 that one is given.
abbrev calls : List (ℕ × Ref × Result Value)
calls =
    (20, ref_of (codes "env"), ok (value_of (codes "y")))
    ∷ (7, ref_of (codes "env"), ok (value_of (codes "x")))
    ∷ []

cached-entries_after_example :
    (cached 10 down 25 (ref_of (codes "env")) (entries_after 10 calls)).0
    ≡ ok (value_of (codes "y"))
unfolding fetched str_eq
cached-entries_after_example = cached-entries_after 10 calls down 25 (ref_of (codes "env"))

-- Three calls at once at 5, and one at 50.
abbrev burst : List ℕ
burst = 50 ∷ 5 ∷ 5 ∷ 5 ∷ []

granted-soonest_example :
    ((granted 10 burst).times ≡ soonest 10 burst) × IsSpaced 10 (granted 10 burst).times
granted-soonest_example = granted-soonest 10 burst (omega arith)
