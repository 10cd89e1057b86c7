-- ===== src/Server/Bindings.antt =====
-- server/bindings.go, server/policy.go: the bindings that a server answers, and who may ask for which.
-- The bind files are read by `load`, path.Match is `glob_match` (none for a malformed pattern).
use mamori.Prelude.{
  Bool, true, false, not, ◌&&◌, Option, none, some, List, [], ◌∷◌, ◌++◌, Text, codes, if◌then◌else◌,
  str_eq, Map, get, put, map, leb, ◌+◌,
}
use mamori.Errors.{Error, Sentinel, sentinel, opaque, wrap, Result, ok, err, ◌>>=◌}
use mamori.Ref.{Ref, parse_ref}

-- mamori.Identity; its attributes are read by no code of the server.
pub record Identity : Type 0 where
  pub subject : Text

pub record Binding : Type 0 where
  pub name : Text
  pub ref : Ref

pub record RawBinding : Type 0 where
  pub name : Text
  pub ref : Text

-- strings.ToLower on ASCII.
lower : Text → Text
lower s = map (λ c. if leb b'A' c && leb c b'Z' then c + 32 else c) s

-- ref.Opts.Has
has_opt : Ref → Text → Bool
has_opt r name = elim (get r.opts name) [ none ↦ false | some _ ↦ true ]

-- The checks of one binding behind ParseRef.
admitted : Bool → Bool → Ref → Result Ref
unfolding lower has_opt
admitted allow_exec allow_chaining parsed =
    let ref = record parsed { scheme = lower parsed.scheme } in
    if str_eq ref.scheme (codes "exec") && not allow_exec
    then err (opaque (codes "exec"))
    else if str_eq ref.scheme (codes "mamori") && not allow_chaining
    then err (opaque (codes "chaining"))
    else if has_opt ref (codes "decode")
    then err (opaque (codes "decode"))
    else ok ref

-- The loop of resolveBindings over all raw bindings, with the map built so far.
unfoldable pub bind_all : Bool → Bool → List RawBinding → Map Binding → Result (Map Binding)
unfolding admitted
bind_all allow_exec allow_chaining [] out = ok out
bind_all allow_exec allow_chaining (rb ∷ all) out = elim (get out rb.name) [
  | some _ ↦ err (opaque (codes "duplicate"))
  | none ↦ elim (parse_ref rb.ref) [
    | err e ↦ err (wrap e)
    | ok parsed ↦ elim (admitted allow_exec allow_chaining parsed) [
      | err e ↦ err e
      | ok ref ↦
          bind_all allow_exec allow_chaining all
            (put out rb.name (record { name = rb.name; ref = ref }))
    ]
  ]
]

-- The bindings of the bind files, behind those given directly.
unfoldable pub load_all : (Text → Result (List RawBinding)) → List Text → Result (List RawBinding)
load_all load [] = ok []
load_all load (f ∷ files) = do fb ← load f; rest ← load_all load files; ok (fb ++ rest)

unfoldable pub resolve_bindings :
    (Text → Result (List RawBinding))
    → List RawBinding
    → List Text
    → Bool
    → Bool
    → Result (Map Binding)
unfolding bind_all load_all
resolve_bindings load direct files allow_exec allow_chaining = do
  loaded ← load_all load files
  bind_all allow_exec allow_chaining (direct ++ loaded) []

-- Policy.Allow; ErrDenied is ErrPermissionDenied.
abbrev pub Policy : Type 0
Policy = Identity → Text → Option Error

abbrev pub err_denied : Error
err_denied = sentinel Sentinel.permission_denied

unfoldable pub allow_all : Policy
allow_all id name = none

-- The loop of PrefixPolicy over the globs of one subject.
unfoldable pub any_glob : (Text → Text → Option Bool) → List Text → Text → Option Error
any_glob glob_match [] name = some err_denied
any_glob glob_match (g ∷ globs) name = elim (glob_match g name) [
  | some true ↦ none
  | some false ↦ any_glob glob_match globs name
  | none ↦ any_glob glob_match globs name
]

unfoldable pub prefix_policy : (Text → Text → Option Bool) → Map (List Text) → Policy
unfolding any_glob
prefix_policy glob_match rules id name = elim (get rules id.subject) [
  | none ↦ some err_denied
  | some globs ↦ any_glob glob_match globs name
]
