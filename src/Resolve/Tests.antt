-- ===== src/Resolve/Tests.antt =====
-- The theorems on resolution at a concrete chain: env:A is absent, file:a has a value.
use mamori.Prelude.{
  ◌≡◌, ◌≢◌, ◌⊎◌, ◌↔◌, refl, true, false, List, [], ◌∷◌, ◌++◌, none, Text, codes, All, str_eq, get,
}
use mamori.Errors.{Sentinel, sentinel, ok, err, is, ◌>>=◌}
use mamori.Ref.{Ref, opt}
use mamori.Value.{Value, FieldSpec, OnFailPolicy, default_value}
use mamori.Decode.{run_steps, apply_decode, parse_decode_pipeline}
use mamori.Decode.Tests.{test_codecs}
use mamori.Resolve.{
  Provider, Sources, Resolved, zero_value, provider, resolve_ref, resolve_chain, chain_loop,
  resolve_one, apply_default, tag_error,
}
use mamori.Resolve.Chain.{
  Missing, resolve_chain-precedence, resolve_chain-Missing, resolve_one-absent,
}

abbrev pub ref_of : Text → Ref
ref_of scheme = record { scheme = scheme; path = codes "a"; key = []; opts = []; raw = [] }

abbrev pub value_of : Text → Value
value_of b = record { bytes = b; version = b; sensitive = false; not_after = 0; metadata = [] }

abbrev pub absent_provider : Provider
absent_provider = record { resolve = λ r. err (sentinel Sentinel.not_found); batch = none }

abbrev pub file_provider : Provider
file_provider = record { resolve = λ r. ok (value_of (codes "x")); batch = none }

abbrev pub two_providers : Sources
two_providers = record {
  providers = (codes "env", absent_provider) ∷ (codes "file", file_provider) ∷ [];
  registry = [];
  codecs = test_codecs;
}

env-Missing : Missing two_providers (ref_of (codes "env"))
unfolding resolve_ref provider is get str_eq
env-Missing = (_, refl, refl)

resolve_chain-precedence_example :
    resolve_chain two_providers ((ref_of (codes "env") ∷ []) ++ ref_of (codes "file") ∷ [])
    ≡ (do v ← resolve_ref two_providers (ref_of (codes "file")); ok (v, 1))
unfolding resolve_ref provider apply_decode parse_decode_pipeline opt get str_eq run_steps
resolve_chain-precedence_example =
    resolve_chain-precedence two_providers (ref_of (codes "env") ∷ []) (ref_of (codes "file")) []
      (env-Missing, tt) refl

resolve_chain-Missing_example :
    ((resolve_chain two_providers (ref_of (codes "env") ∷ []) ≡ err (sentinel Sentinel.not_found))
      × (is (sentinel Sentinel.not_found) Sentinel.not_found ≡ true))
    ↔ ((sentinel Sentinel.not_found
          ≡ tag_error (ref_of (codes "env")) (sentinel Sentinel.not_found))
        × All (Missing two_providers) (ref_of (codes "env") ∷ []))
resolve_chain-Missing_example =
    resolve_chain-Missing two_providers (ref_of (codes "env") ∷ []) (sentinel Sentinel.not_found)

abbrev pub spec_of : List Ref → FieldSpec
spec_of refs = record {
  path = codes "db.url";
  refs = refs;
  default_text = codes "d";
  has_default = true;
  flatten = [];
  optional = false;
  index = 0 ∷ [];
  type_name = codes "string";
  sensitive = false;
  on_fail = OnFailPolicy.keep_last;
}

abbrev unresolved : Resolved
unresolved = record {
  spec = spec_of (ref_of (codes "env") ∷ []);
  value = zero_value;
  found = false;
  set = false;
}

abbrev defaulted : Resolved
defaulted = record unresolved { value = default_value unresolved.spec; set = true }

keep_last-use_default : OnFailPolicy.keep_last ≢ OnFailPolicy.use_default
keep_last-use_default h = cc

resolve_one-absent_example :
    All (Missing two_providers) unresolved.spec.refs × ((true ≡ true) ⊎ (false ≡ true))
unfolding resolve_one resolve_chain chain_loop resolve_ref provider is apply_default get str_eq
resolve_one-absent_example =
    resolve_one-absent two_providers unresolved defaulted keep_last-use_default refl refl
