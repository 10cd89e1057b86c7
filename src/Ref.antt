-- ===== src/Ref.antt =====
-- ref.go: the reference to a value in a provider and the parser of one ref. The chains of refs are
-- in Ref/Chain, ${VAR} expansion (refvars.go) in Ref/Vars, redaction (status.go) in Ref/Redact.
pub mod Parse
pub mod Chain
pub mod Vars
pub mod Redact
pub mod Tests
use mamori.Prelude.{
  ℕ, Bool, true, false, Option, none, some, List, [], ◌∷◌, ◌++◌, Text, codes, if◌then◌else◌,
  is_empty, get,
}
use mamori.Errors.{Error, opaque, wrap, Result, ok, err, ◌>>=◌}
use mamori.Strings.{trim_space, cut, trim_prefix}
use mamori.Strings.Url.{Values, parse_query, query_escape}

pub record Ref : Type 0 where
  pub scheme : Text
  pub path : Text
  pub key : Text
  pub opts : Values
  pub raw : Text

-- url.Values.Get
first_value : Option (List Text) → Text
first_value (some (v ∷ vs)) = v
first_value _ = []

-- Ref.Opt
unfoldable pub opt : Ref → Text → Text
unfolding first_value
opt r name = first_value (get r.opts name)

abbrev pub colon_slashes : Text
colon_slashes = codes "://"

-- Ref.String, the query as `Opts.Encode()` gives it: an argument, used when there are options.
unfoldable pub render : (Values → Text) → Ref → Text
render encode r =
    if is_empty r.raw
    then r.scheme
      ++ (colon_slashes
          ++ (r.path
              ++ ((if is_empty r.key then [] else b'#' ∷ r.key)
                  ++ (if is_empty r.opts then [] else b'?' ∷ encode r.opts))))
    else r.raw

abbrev pub parse_error : Error
parse_error = opaque (codes "source ref")

-- Split off the query, which is last in the grammar.
parse_rest : Option Text → Result Values
parse_rest none = ok []
parse_rest (some q) = elim (parse_query q) [ none ↦ err (wrap parse_error) | some m ↦ ok m ]

or_empty : Option Text → Text
or_empty none = []
or_empty (some t) = t

build : Text → Text → Text → Values → Ref
build scheme tag rest opts =
    let (path, key) = cut b'#' rest in
    record { scheme = scheme; path = path; key = or_empty key; opts = opts; raw = tag }

after_scheme : Text → Text → Option Text → Result Ref
after_scheme tag scheme none = err parse_error
after_scheme tag scheme (some remainder) =
    let (rest, query) = cut b'?' (trim_prefix (codes "//") remainder) in
    if is_empty scheme
    then err parse_error
    else do opts ← parse_rest query; ok (build scheme tag rest opts)

-- The body of ParseRef behind strings.TrimSpace.
parse_trimmed : Text → Result Ref
parse_trimmed tag =
    let (scheme, remainder) = cut b':' tag in
    if is_empty tag then err parse_error else after_scheme tag scheme remainder

unfoldable pub parse_ref : Text → Result Ref
unfolding parse_trimmed after_scheme parse_rest build or_empty
parse_ref tag = parse_trimmed (trim_space tag)
