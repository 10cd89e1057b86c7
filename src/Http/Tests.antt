-- ===== src/Http/Tests.antt =====
-- The cache of responses at a concrete backend, whose validators are the bodies themselves.
use mamori.Prelude.{
  ◌≡◌, refl, inl, inr, Bool, true, false, List, [], ◌∷◌, Text, codes, str_eq, str_eq_iff, is_empty,
  Bool-cases, All, ap,
}
use mamori.Errors.{Result, ok}
use mamori.Http.Revalidate.{HttpRequest, HttpResponse}
use mamori.Http.Revalidate.Current.{Answers, GetStep, AllCurrent, revalidated-AllCurrent}

abbrev body_of : Text → Text → Text → Text
body_of key etag last_modified = etag

abbrev reply : Text → Bool → HttpResponse
reply body true = record { body = []; etag = []; last_modified = []; not_modified = true }
reply body false = record { body = body; etag = body; last_modified = []; not_modified = false }

abbrev backend : Text → HttpRequest → Result HttpResponse
backend body r = ok (reply body (str_eq r.if_none_match body))

abbrev first_body : Text
first_body = codes "one"

abbrev later_body : Text
later_body = codes "two"

backend-Answers :
    (body key : Text) → is_empty body ≡ false → Answers body_of key (backend body) body
backend-Answers body key full r = elim (Bool-cases (str_eq r.if_none_match body)) [
  | inl same ↦
      let asked : r.if_none_match ≡ body = (str_eq_iff r.if_none_match body).0 same in
      (reply body true, ap (λ b. ok (reply body b)) same, inr (refl, rw (asked, full) refl, asked))
  | inr other ↦ (reply body false, ap (λ b. ok (reply body b)) other, inl (refl, refl, refl))
]

abbrev step_of : Text → GetStep
step_of body = record { key = codes "k"; body = body; first = backend body; second = backend body }

abbrev three_gets : List (GetStep)
three_gets = step_of first_body ∷ step_of first_body ∷ step_of later_body ∷ []

three_gets-Answers : All (λ (s : GetStep). Answers body_of s.key s.first s.body) three_gets
three_gets-Answers = (
  backend-Answers first_body (codes "k") refl,
  (backend-Answers first_body (codes "k") refl, (backend-Answers later_body (codes "k") refl, tt)),
)

revalidated-AllCurrent_example : AllCurrent body_of 2 three_gets []
revalidated-AllCurrent_example = revalidated-AllCurrent body_of 2 three_gets three_gets-Answers
