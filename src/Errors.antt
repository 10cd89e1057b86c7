-- ===== src/Errors.antt =====
-- errors.go: the sentinels, the error types with their Unwrap, errors.Is as the program uses it, and
-- the kinds. The texts of messages are not modelled.
pub mod Tests
pub mod Laws
use mamori.Prelude.{
  ℕ, ◌≡◌, refl, ◌⊎◌, inl, inr, Bool, true, false, ◌||◌, Option, none, some, List, [], ◌∷◌, Text,
  ◌==◌, if◌then◌else◌,
}

-- The error values that the program compares with errors.Is.
pub data Sentinel : Type 0 where
  not_found permission_denied unauthenticated unavailable rate_limited invalid : Sentinel
  no_such_snapshot watcher_closed reentrant_call : Sentinel
  deadline_exceeded canceled forbidden : Sentinel

-- `wrap` and `wrap2` are fmt.Errorf with one and with two %w verbs; errors.Join of two is `wrap2`.
-- `opaque` is an error of a backend or a library that holds none of the sentinels.
pub data Error : Type 0 where
  sentinel : Sentinel → Error
  opaque : Text → Error
  wrap : Error → Error
  wrap2 : Error → Error → Error
  provider_error : Text → Text → Error → Error
  validation_error derive_error pre_apply_error : Error → Error
  stale_error : Text → Error → Error

pub data Result {ℓ} (A : Type ℓ) : Type ℓ where
  ok : A → Result A
  err : Error → Result A

pub Result-cases {ℓ} :
    {A : Type ℓ} (r : Result A) → ((a : A) × (r ≡ ok a)) ⊎ ((e : Error) × (r ≡ err e))
Result-cases (ok a) = inl (a, refl)
Result-cases (err e) = inr (e, refl)

infixl 5 ◌>>=◌
abbrev pub ◌>>=◌ {ℓ κ} : {A : Type ℓ} {B : Type κ} → Result A → (A → Result B) → Result B
ok a >>= f = f a
err e >>= f = err e

pub bind_same {ℓ κ} :
    {A : Type ℓ} {B : Type κ} (r : Result A) (f g : A → Result B)
    → ((a : A) → f a ≡ g a)
    → (r >>= f) ≡ (r >>= g)
bind_same (ok a) f g h = h a
bind_same (err e) f g h = refl

abbrev pub map_err {ℓ} : {A : Type ℓ} → (Error → Error) → Result A → Result A
map_err f (ok a) = ok a
map_err f (err e) = err (f e)

abbrev rank : Sentinel → ℕ
rank not_found = 0
rank permission_denied = 1
rank unauthenticated = 2
rank unavailable = 3
rank rate_limited = 4
rank invalid = 5
rank no_such_snapshot = 6
rank watcher_closed = 7
rank reentrant_call = 8
rank deadline_exceeded = 9
rank canceled = 10
rank forbidden = 11

abbrev pub same_sentinel : Sentinel → Sentinel → Bool
same_sentinel s t = rank s == rank t

-- errors.Is: the error itself, then what its Unwrap gives.
unfoldable pub is : Error → Sentinel → Bool
is (sentinel s) t = same_sentinel s t
is (opaque _) t = false
is (wrap e) t = is e t
is (wrap2 e f) t = is e t || is f t
is (provider_error _ _ e) t = is e t
is (validation_error e) t = is e t
is (derive_error e) t = is e t
is (pre_apply_error e) t = is e t
is (stale_error _ e) t = is e t

-- `blank` is the empty string, the kind of no error.
pub data Kind : Type 0 where
  not_found permission_denied unauthenticated unavailable rate_limited invalid unknown blank : Kind

abbrev pub same_kind : Kind → Kind → Bool
same_kind k l = kind_rank k == kind_rank l
  where
    kind_rank : Kind → ℕ
    kind_rank Kind.not_found = 0
    kind_rank Kind.permission_denied = 1
    kind_rank Kind.unauthenticated = 2
    kind_rank Kind.unavailable = 3
    kind_rank Kind.rate_limited = 4
    kind_rank Kind.invalid = 5
    kind_rank Kind.unknown = 6
    kind_rank Kind.blank = 7

abbrev pub kind_sentinels : List (Kind × Sentinel)
kind_sentinels =
    (Kind.not_found, Sentinel.not_found)
    ∷ (Kind.permission_denied, Sentinel.permission_denied)
    ∷ (Kind.unauthenticated, Sentinel.unauthenticated)
    ∷ (Kind.unavailable, Sentinel.unavailable)
    ∷ (Kind.rate_limited, Sentinel.rate_limited)
    ∷ (Kind.invalid, Sentinel.invalid)
    ∷ []

-- The loop of ErrorKind over the table, and what stands after it.
unfoldable pub first_kind : List (Kind × Sentinel) → Error → Kind
first_kind [] e = if is e deadline_exceeded then Kind.unavailable else Kind.unknown
first_kind ((k, s) ∷ rest) e = if is e s then k else first_kind rest e

unfoldable pub error_kind : Option Error → Kind
unfolding first_kind
error_kind none = Kind.blank
error_kind (some e) = first_kind kind_sentinels e

unfoldable pub first_sentinel : List (Kind × Sentinel) → Kind → Option Error
first_sentinel [] k = none
first_sentinel ((j, s) ∷ rest) k =
    if same_kind j k then some (sentinel s) else first_sentinel rest k

unfoldable pub sentinel_for : Kind → Option Error
unfolding first_sentinel
sentinel_for k = first_sentinel kind_sentinels k
