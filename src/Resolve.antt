-- ===== src/Resolve.antt =====
-- resolve.go: one-shot resolution of refs, chains and fields, and Options.provider of reconcile.go.
-- The tracer, the meter and the log get no part in the result and are not modelled.
pub mod Tests
pub mod Chain
pub mod OneShot
use mamori.Prelude.{
  ℕ, zero, suc, Bool, true, false, not, ◌&&◌, Option, none, some, List, [], ◌∷◌, ◌++◌, Text, codes,
  str_eq, if◌then◌else◌, is_empty, Map, get, map,
}
use mamori.Errors.{
  Error, Sentinel, sentinel, provider_error, opaque, Result, ok, err, is, ◌>>=◌, map_err,
}
use mamori.Ref.{Ref}
use mamori.Ref.Redact.{redacted}
use mamori.Value.{Value, FieldSpec, OnFailPolicy, default_value, mark_sensitive, first_ref}
use mamori.Decode.{Codecs, apply_decode}

-- A provider as one call finds it: what Resolve answers, and ResolveBatch if it has one.
pub record Provider : Type 0 where
  pub resolve : Ref → Result Value
  pub batch : Option (List Ref → Result (Map Value))

-- What resolution reads of the options: the call's providers, the registry and the decoders.
pub record Sources : Type 0 where
  pub providers : Map Provider
  pub registry : Map Provider
  pub codecs : Codecs

-- options.provider: the call's own providers come first.
unfoldable pub provider : Sources → Text → Option Provider
provider o scheme = elim (get o.providers scheme) [ some p ↦ some p | none ↦ get o.registry scheme ]

abbrev pub tag_error : Ref → Error → Error
tag_error ref e = provider_error ref.scheme (redacted ref) e

unfoldable pub resolve_ref : Sources → Ref → Result Value
resolve_ref o ref = elim (provider o ref.scheme) [
  | none ↦ err (tag_error ref (sentinel Sentinel.invalid))
  | some p ↦ map_err (tag_error ref) (do val ← p.resolve ref; apply_decode o.codecs ref val)
]

-- The loop of resolveChain from position `i` on; `first` is refs[0].
unfoldable pub chain_loop : Sources → Ref → List Ref → ℕ → Result (Value × ℕ)
chain_loop o first [] i = err (tag_error first (sentinel Sentinel.not_found))
chain_loop o first (ref ∷ refs) i =
    let rest = chain_loop o first refs (suc i) in
    elim (resolve_ref o ref) [
      | ok val ↦ ok (val, i)
      | err e ↦ if is e Sentinel.not_found then rest else err e
    ]

unfoldable pub resolve_chain : Sources → List Ref → Result (Value × ℕ)
resolve_chain o refs = chain_loop o (first_ref refs) refs 0

-- resolved
pub record Resolved : Type 0 where
  pub spec : FieldSpec
  pub value : Value
  pub found : Bool
  pub set : Bool

abbrev pub zero_value : Value
zero_value = record { bytes = []; version = []; sensitive = false; not_after = 0; metadata = [] }

abbrev pub unresolved : FieldSpec → Resolved
unresolved spec = record { spec = spec; value = zero_value; found = false; set = false }

unfoldable pub set_resolved : Resolved → Value → Resolved
set_resolved r val = record r { value = mark_sensitive r.spec val; found = true; set = true }

unfoldable pub apply_default : Resolved → Result Resolved
apply_default r =
    if r.spec.has_default
    then ok (record r { value = default_value r.spec; found = false; set = true })
    else if r.spec.optional
    then ok (record r { found = false; set = false })
    else err (tag_error (first_ref r.spec.refs) (sentinel Sentinel.not_found))

pub on_fail_default : OnFailPolicy → Resolved → Error → Result Resolved
on_fail_default OnFailPolicy.use_default r e =
    ok (record r { value = default_value r.spec; found = false; set = true })
on_fail_default OnFailPolicy.keep_last r e = err e
on_fail_default OnFailPolicy.fail r e = err e

unfoldable pub apply_on_fail : Resolved → Error → Result Resolved
unfolding on_fail_default
apply_on_fail r terminal = on_fail_default r.spec.on_fail r terminal

unfoldable pub resolve_one : Sources → Resolved → Result Resolved
resolve_one o r = elim (resolve_chain o r.spec.refs) [
  | ok (val, i) ↦ ok (set_resolved r val)
  | err e ↦ if is e Sentinel.not_found then apply_default r else apply_on_fail r e
]

-- One field of resolveBatchScheme, with the answer of the batch.
unfoldable pub finish_batch : Sources → Text → Map Value → Resolved → Result Resolved
finish_batch o scheme got r =
    let ref = first_ref r.spec.refs in
    elim (get got ref.raw) [
      | none ↦ apply_default r
      | some val ↦ elim (apply_decode o.codecs ref val) [
        | ok dec ↦ ok (set_resolved r dec)
        | err e ↦ apply_on_fail r (provider_error scheme (redacted ref) e)
      ]
    ]

-- `for _, i := range idxs` over the fields that `here` selects; the others stay as they are, and
-- the first error ends the loop.
unfoldable pub resolve_where :
    (Resolved → Bool) → (Resolved → Result Resolved) → List Resolved → Result (List Resolved)
resolve_where here f [] = ok []
resolve_where here f (r ∷ rs) = do
  r' ← if here r then f r else ok r
  rs' ← resolve_where here f rs
  ok (r' ∷ rs')

-- A field with one ref is grouped by its scheme; any other is resolved by its chain.
unfoldable pub is_single : FieldSpec → Bool
is_single spec = elim spec.refs [ [] ↦ false | r ∷ rs ↦ is_empty rs ]

unfoldable pub in_scheme : Text → Resolved → Bool
unfolding is_single
in_scheme scheme r = is_single r.spec && str_eq (first_ref r.spec.refs).scheme scheme

unfoldable pub select : (Resolved → Bool) → List Resolved → List Resolved
select here [] = []
select here (r ∷ rs) = let rest = select here rs in if here r then r ∷ rest else rest

-- One turn of the loop over byScheme.
unfoldable pub resolve_scheme : Sources → Text → List Resolved → Result (List Resolved)
resolve_scheme o scheme out = elim (provider o scheme) [
  | none ↦ err (opaque (codes "no provider registered"))
  | some p ↦ elim p.batch [
    | none ↦ resolve_where (in_scheme scheme) (resolve_one o) out
    | some batch ↦
        elim (batch
          (map (λ (r : Resolved). first_ref r.spec.refs) (select (in_scheme scheme) out))) [
            | err e ↦ err (provider_error scheme (codes "batch") e)
            | ok got ↦ resolve_where (in_scheme scheme) (finish_batch o scheme got) out
          ]
  ]
]

unfoldable pub resolve_schemes : Sources → List Text → List Resolved → Result (List Resolved)
resolve_schemes o [] out = ok out
resolve_schemes o (s ∷ ss) out = do out' ← resolve_scheme o s out; resolve_schemes o ss out'

-- resolveAll. Go ranges over the map byScheme in any order: `order` lists its keys in that order.
unfoldable pub resolve_all : Sources → List Text → List FieldSpec → Result (List Resolved)
resolve_all o order specs = do
  out ← resolve_schemes o order (map unresolved specs)
  resolve_where (λ r. not (is_single r.spec)) (resolve_one o) out
