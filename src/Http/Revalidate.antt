-- ===== src/Http/Revalidate.antt =====
-- providers/httpcore/revalidate.go: a cache of responses that asks whether they still hold. The list of
-- entries, the last used first, stands for the map and the list of the source. `first` and `second`
-- say what Client.Do answers to the two requests that one Get may send; other Gets between the two are
-- not modelled.
mod Evict
pub mod Current
use mamori.Prelude.{
  ℕ, zero, suc, leb, ◌==◌, Bool, true, false, ◌&&◌, Option, none, some, List, [], ◌∷◌, Text,
  if◌then◌else◌, Map, get, put, remove, length, is_empty,
}
use mamori.Errors.{Error, Sentinel, sentinel, wrap, Result, ok, err}

-- Request, as far as Get changes it.
pub record HttpRequest : Type 0 where
  pub if_none_match : Text
  pub if_modified_since : Text

pub record HttpResponse : Type 0 where
  pub body : Text
  pub etag : Text
  pub last_modified : Text
  pub not_modified : Bool

pub record Entry : Type 0 where
  pub etag : Text
  pub last_modified : Text
  pub body : Text

abbrev pub Cache : Type 0
Cache = Map Entry

-- NewRevalidator, with DefaultRevalidatorEntries
unfoldable pub max_entries : ℕ → ℕ
max_entries n = if n == 0 then 512 else n

touched : Cache → Text → Option Entry → Cache
touched lru key none = lru
touched lru key (some e) = put lru key e

conditional : HttpRequest → Option Entry → HttpRequest
conditional r none = r
conditional r (some e) = record {
  if_none_match = if is_empty r.if_none_match then e.etag else r.if_none_match;
  if_modified_since = if is_empty r.if_modified_since then e.last_modified else r.if_modified_since;
}

drop_last : Cache → Cache
drop_last [] = []
drop_last (x ∷ []) = []
drop_last (x ∷ y ∷ lru) = x ∷ drop_last (y ∷ lru)

-- The loop at the end of store, on fuel: a round removes an entry.
unfoldable pub evict : ℕ → ℕ → Cache → Cache
unfolding drop_last
evict zero max lru = lru
evict (suc fuel) max lru =
    let rest = evict fuel max (drop_last lru) in if leb (length lru) max then lru else rest

unfoldable pub store : ℕ → Text → HttpResponse → Cache → Cache
unfolding evict
store max key rsp lru =
    if is_empty rsp.etag && is_empty rsp.last_modified
    then remove lru key
    else let kept =
        put lru key
          (record { etag = rsp.etag; last_modified = rsp.last_modified; body = rsp.body }) in
      evict (length kept) max kept

-- The second request carries no validators.
retried : ℕ → Text → Cache → Result HttpResponse → Result HttpResponse × Cache
unfolding store
retried max key lru (err e) = (err e, remove lru key)
retried max key lru (ok rsp) =
    if rsp.not_modified
    then (err (wrap (sentinel Sentinel.unavailable)), remove lru key)
    else (ok rsp, store max key rsp lru)

still_valid :
    ℕ
    → Text
    → (HttpRequest → Result HttpResponse)
    → HttpResponse
    → Cache
    → Option Entry
    → Result HttpResponse × Cache
unfolding retried
still_valid max key second rsp lru (some e) = (
  ok (record rsp { body = e.body; etag = e.etag; last_modified = e.last_modified }),
  put lru key e,
)
still_valid max key second rsp lru none =
    retried max key lru (second (record { if_none_match = []; if_modified_since = [] }))

answered :
    ℕ
    → Text
    → (HttpRequest → Result HttpResponse)
    → Cache
    → Result HttpResponse
    → Result HttpResponse × Cache
unfolding still_valid store
answered max key second lru (err e) = (err e, remove lru key)
answered max key second lru (ok rsp) =
    if rsp.not_modified
    then still_valid max key second rsp lru (get lru key)
    else (ok rsp, store max key rsp lru)

-- Revalidator.Get
unfoldable pub revalidated :
    ℕ
    → (HttpRequest → Result HttpResponse)
    → (HttpRequest → Result HttpResponse)
    → Text
    → HttpRequest
    → Cache
    → Result HttpResponse × Cache
unfolding touched conditional answered
revalidated max first second key r lru =
    answered max key second (touched lru key (get lru key)) (first (conditional r (get lru key)))
