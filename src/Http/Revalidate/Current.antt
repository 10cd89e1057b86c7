-- ===== src/Http/Revalidate/Current.antt =====
-- providers/httpcore/revalidate.go: the bodies that Get returns beside those of the backend.
use mamori.Prelude.{
  ℕ, ◌≤◌, ◌≡◌, refl, sym, ◌∙◌, subst, ◌⊎◌, inl, inr, Bool, true, false, ◌&&◌, Option, none, some,
  List, [], ◌∷◌, Text, if◌then◌else◌, get, put, get-put, str_eq_refl, length, is_empty, All,
  All-remove, All-get, length-remove, length-remove_found, Bool-cases, arith,
}
use mamori.Errors.{Result, ok}
use mamori.Http.Revalidate.{
  HttpRequest, HttpResponse, Entry, Cache, touched, conditional, store, still_valid, answered,
  revalidated,
}
use mamori.Http.Revalidate.Evict.{length-evict, All-evict}

-- A Get while its key has some body.
pub record GetStep : Type 0 where
  pub key : Text
  pub body : Text
  pub first : HttpRequest → Result HttpResponse
  pub second : HttpRequest → Result HttpResponse

-- What validators stand for: the body that a key has under them.
module _ (content : Text → Text → Text → Text) where
  abbrev IsFaithful : Text × Entry → Type 0
  IsFaithful (key, e) = e.body ≡ content key e.etag e.last_modified

  -- A cache of at most so many entries, none with another's body.
  abbrev IsSound : ℕ → Cache → Type 0
  IsSound max lru = (length lru ≤ max) × All IsFaithful lru

  -- A backend while the key has a body: it answers with the body under validators of that body, or
  -- with 304 to validators of that body.
  abbrev pub Answers : Text → (HttpRequest → Result HttpResponse) → Text → Type 0
  Answers key backend body =
      (r : HttpRequest)
      → (rsp : HttpResponse) × (backend r ≡ ok rsp)
        × (((rsp.not_modified ≡ false)
              × (rsp.body ≡ body)
              × (content key rsp.etag rsp.last_modified ≡ body))
            ⊎ ((rsp.not_modified ≡ true)
                × ((is_empty r.if_none_match && is_empty r.if_modified_since) ≡ false)
                × (content key r.if_none_match r.if_modified_since ≡ body)))

  abbrev pub IsCurrent : ℕ → Text → Result HttpResponse × Cache → Type 0
  IsCurrent max body out =
      (rsp : HttpResponse) × (out.0 ≡ ok rsp) × (rsp.body ≡ body) × (length out.1 ≤ max)

  store-IsSound :
      (max : ℕ) (key : Text) (rsp : HttpResponse) (lru : Cache)
      → IsSound max lru
      → rsp.body ≡ content key rsp.etag rsp.last_modified
      → IsSound max (store max key rsp lru)
  unfolding store put
  store-IsSound max key rsp lru (few, h) same =
      let e : Entry = record {
        etag = rsp.etag;
        last_modified = rsp.last_modified;
        body = rsp.body;
      } in
      let kept = put lru key e in
      elim (Bool-cases (is_empty rsp.etag && is_empty rsp.last_modified)) [
        | inl bare ↦
            rw bare (omega (arith, few, length-remove lru key), All-remove IsFaithful lru key h)
        | inr valid ↦ rw valid (
          length-evict (length kept) max kept (omega arith),
          All-evict IsFaithful (length kept) max kept (same, All-remove IsFaithful lru key h),
        )
      ]

  put-IsSound :
      (max : ℕ) (key : Text) (e : Entry) (lru : Cache)
      → IsSound max lru
      → get lru key ≡ some e
      → IsSound max (put lru key e)
  unfolding put
  put-IsSound max key e lru (few, h) found = (
    omega (arith, few, length-remove_found lru key e found),
    (All-get IsFaithful lru key e h found, All-remove IsFaithful lru key h),
  )

  -- What a Get leaves: the current body, and a sound cache.
  abbrev Serves : ℕ → Text → Result HttpResponse × Cache → Type 0
  Serves max body out =
      (rsp : HttpResponse) × (out.0 ≡ ok rsp) × (rsp.body ≡ body) × IsSound max out.1

  abbrev chosen :
      ℕ
      → Text
      → (HttpRequest → Result HttpResponse)
      → Cache
      → HttpResponse
      → Bool
      → Result HttpResponse × Cache
  chosen max key second lru rsp b =
      if b
      then still_valid max key second rsp lru (get lru key)
      else (ok rsp, store max key rsp lru)

  fresh_body :
      (max : ℕ) (key body : Text) (second : HttpRequest → Result HttpResponse) (lru : Cache)
      (got : Result HttpResponse) (rsp : HttpResponse)
      → IsSound max lru
      → got ≡ ok rsp
      → rsp.not_modified ≡ false
      → rsp.body ≡ body
      → content key rsp.etag rsp.last_modified ≡ body
      → Serves max body (answered max key second lru got)
  unfolding answered
  fresh_body max key body second lru got rsp sound answer new here valid =
      subst (λ g. Serves max body (answered max key second lru g)) (sym answer)
        (subst (λ b. Serves max body (chosen max key second lru rsp b)) (sym new)
          (rsp, refl, here, store-IsSound max key rsp lru sound (here ∙ sym valid)))

  same_body :
      (max : ℕ) (key body : Text) (second : HttpRequest → Result HttpResponse) (lru : Cache)
      (got : Result HttpResponse) (rsp : HttpResponse) (e : Entry)
      → IsSound max lru
      → get lru key ≡ some e
      → got ≡ ok rsp
      → rsp.not_modified ≡ true
      → content key e.etag e.last_modified ≡ body
      → Serves max body (answered max key second lru got)
  unfolding answered still_valid
  same_body max key body second lru got rsp e sound found answer old valid =
      let stored : e.body ≡ content key e.etag e.last_modified =
        All-get IsFaithful lru key e sound.1 found in
      subst (λ g. Serves max body (answered max key second lru g)) (sym answer)
        (subst (λ b. Serves max body (chosen max key second lru rsp b)) (sym old)
          (subst (λ o. Serves max body (still_valid max key second rsp lru o)) (sym found)
            (
              record rsp { body = e.body; etag = e.etag; last_modified = e.last_modified },
              refl,
              stored ∙ valid,
              put-IsSound max key e lru sound found,
            )))

  touched-IsSound :
      (max : ℕ) (key : Text) (lru : Cache) (o : Option Entry)
      → IsSound max lru
      → get lru key ≡ o
      → IsSound max (touched lru key o)
  unfolding touched
  touched-IsSound max key lru none sound here = sound
  touched-IsSound max key lru (some e) sound here = put-IsSound max key e lru sound here

  plain : HttpRequest
  plain = record { if_none_match = []; if_modified_since = [] }

  get-touched : (key : Text) (lru : Cache) (e : Entry) → get (touched lru key (some e)) key ≡ some e
  unfolding touched
  get-touched key lru e = get-put lru key key e ∙ rw (str_eq_refl key) refl

  revalidated_by :
      (max : ℕ) (key body : Text) (first second : HttpRequest → Result HttpResponse) (lru : Cache)
      (o : Option Entry)
      → Answers key first body
      → IsSound max lru
      → get lru key ≡ o
      → Serves max body (answered max key second (touched lru key o) (first (conditional plain o)))
  unfolding plain conditional
  revalidated_by max key body first second lru o honest sound here =
      let (rsp, answer, either) = honest (conditional plain o) in
      elim either [
        | inl (new, now, valid) ↦
            fresh_body max key body second (touched lru key o) _ rsp
              (touched-IsSound max key lru o sound here) answer new now valid
        | inr (old, asked, valid) ↦ confirmed o rsp here answer old asked valid
      ]
    where
      confirmed :
          (o : Option Entry) (rsp : HttpResponse)
          → get lru key ≡ o
          → first (conditional plain o) ≡ ok rsp
          → rsp.not_modified ≡ true
          → (is_empty (conditional plain o).if_none_match
              && is_empty (conditional plain o).if_modified_since)
            ≡ false
          → content key (conditional plain o).if_none_match (conditional plain o).if_modified_since
            ≡ body
          → Serves max body
              (answered max key second (touched lru key o) (first (conditional plain o)))
      confirmed none rsp here answer old asked valid = absurd (ground (arith, asked))
      confirmed (some e) rsp here answer old asked valid =
          same_body max key body second (touched lru key (some e)) _ rsp e
            (touched-IsSound max key lru (some e) sound here) (get-touched key lru e) answer old
            valid

  abbrev pub get_at : ℕ → GetStep → Cache → Result HttpResponse × Cache
  get_at max s lru =
      revalidated max s.first s.second s.key (record { if_none_match = []; if_modified_since = [] })
        lru

  -- Each Get of a run returns the body that its key has by then, within the limit of the cache.
  abbrev pub AllCurrent : ℕ → List GetStep → Cache → Type 0
  AllCurrent max [] lru = Unit
  AllCurrent max (s ∷ steps) lru =
      IsCurrent max s.body (get_at max s lru) × AllCurrent max steps (get_at max s lru).1

  get_at-Serves :
      (max : ℕ) (s : GetStep) (lru : Cache)
      → Answers s.key s.first s.body
      → IsSound max lru
      → Serves max s.body (get_at max s lru)
  unfolding revalidated plain
  get_at-Serves max s lru honest sound =
      revalidated_by max s.key s.body s.first s.second lru (get lru s.key) honest sound refl

  steps-AllCurrent :
      (max : ℕ) (steps : List GetStep) (lru : Cache)
      → All (λ (s : GetStep). Answers s.key s.first s.body) steps
      → IsSound max lru
      → AllCurrent max steps lru
  steps-AllCurrent max [] lru honest sound = tt
  steps-AllCurrent max (s ∷ steps) lru (answers, honest) sound =
      let (rsp, returned, now, small) = get_at-Serves max s lru answers sound in
      ((rsp, returned, now, small.0), steps-AllCurrent max steps (get_at max s lru).1 honest small)

  -- Any Gets of any keys, whose bodies change in between, from an empty cache on: with a backend that
  -- answers 304 only to validators of the body that it has, each Get succeeds with the body that its
  -- key has by then, and the cache never holds more entries than its limit.
  pub revalidated-AllCurrent :
      (max : ℕ) (steps : List GetStep)
      → All (λ (s : GetStep). Answers s.key s.first s.body) steps
      → AllCurrent max steps []
  revalidated-AllCurrent max steps honest = steps-AllCurrent max steps [] honest (omega arith, tt)
