-- ===== src/Ref/Redact.antt =====
-- status.go: Ref.Redacted, the form of a ref that leaves the process in reports, logs and errors.
pub mod Secrecy
use mamori.Prelude.{
  ℕ, ◌+◌, Bool, true, false, ◌&&◌, ◌||◌, Option, none, some, List, [], ◌∷◌, ◌++◌, map, Text, codes,
  ltb, leb, ◌==◌, if◌then◌else◌, is_empty, get, member,
}
use mamori.Strings.Url.{Values, query_escape}
use mamori.Ref.{Ref, render, colon_slashes}

abbrev pub sensitive_opt_keys : List Text
sensitive_opt_keys =
    codes "token"
    ∷ codes "password"
    ∷ codes "secret"
    ∷ codes "key"
    ∷ codes "apikey"
    ∷ codes "api_key"
    ∷ codes "sas"
    ∷ codes "credential"
    ∷ codes "client_secret"
    ∷ codes "secret_access_key"
    ∷ codes "access_key"
    ∷ codes "private_key"
    ∷ codes "secret_key"
    ∷ codes "pwd"
    ∷ codes "passwd"
    ∷ []

-- strings.ToLower on ASCII.
to_lower : Text → Text
to_lower s = map (λ c. if leb 65 c && leb c 90 then c + 32 else c) s

-- secret.Redacted
abbrev pub redacted_mark : Text
redacted_mark = codes "[REDACTED]"

unfoldable pub is_sensitive : Text → Bool
unfolding to_lower member
is_sensitive k = member sensitive_opt_keys (to_lower k)

-- sort.Strings, by insertion.
text_leb : Text → Text → Bool
text_leb [] t = true
text_leb (c ∷ s) [] = false
text_leb (c ∷ s) (d ∷ t) = ltb c d || ((c == d) && text_leb s t)

insert_sorted : Text → List Text → List Text
insert_sorted k [] = k ∷ []
insert_sorted k (j ∷ js) =
    let rest = insert_sorted k js in if text_leb k j then k ∷ j ∷ js else j ∷ rest

unfoldable pub sort_strings : List Text → List Text
unfolding text_leb insert_sorted
sort_strings [] = []
sort_strings (k ∷ ks) = insert_sorted k (sort_strings ks)

keys_of : Values → List Text
keys_of [] = []
keys_of ((k, vs) ∷ m) = k ∷ keys_of m

-- The inner loop over ref.Opts[k], with what the builder holds.
redact_values : Text → List Text → Text → Text
redact_values k [] b = b
redact_values k (v ∷ vs) b = redact_values k vs (
    b
    ++ ((if is_empty b then [] else b'&' ∷ [])
        ++ (query_escape k ++ b'=' ∷ (if is_sensitive k then redacted_mark else query_escape v))))

values_at : Option (List Text) → List Text
values_at none = []
values_at (some vs) = vs

redact_keys : Values → List Text → Text → Text
unfolding redact_values values_at
redact_keys m [] b = b
redact_keys m (k ∷ ks) b = redact_keys m ks (redact_values k (values_at (get m k)) b)

assemble : Ref → Text → Text
assemble r b =
    r.scheme
    ++ (colon_slashes
        ++ (r.path
            ++ ((if is_empty r.key then [] else b'#' ∷ r.key)
                ++ (if is_empty b then [] else b'?' ∷ b))))

-- With no options there is no query to encode, so the encoder that Ref.String takes is not used.
unfoldable pub redacted : Ref → Text
unfolding redact_keys keys_of assemble
redacted r =
    if is_empty r.opts
    then render (λ m. []) r
    else assemble r (redact_keys r.opts (sort_strings (keys_of r.opts)) [])
