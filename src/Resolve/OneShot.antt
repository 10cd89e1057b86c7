-- ===== src/Resolve/OneShot.antt =====
-- resolveref.go: Resolve of a ref string, without a struct. Options, but for the sources and the
-- variables, play no part in it.
pub mod Agreement
use mamori.Prelude.{Option, none, some, List, [], ◌∷◌, Text, if◌then◌else◌}
use mamori.Errors.{Error, Sentinel, sentinel, wrap, is, Result, ok, err, ◌>>=◌}
use mamori.Ref.{Ref}
use mamori.Ref.Chain.{parse_refs}
use mamori.Ref.Vars.{Vars, expand_ref_vars}
use mamori.Value.{Value, first_ref}
use mamori.Resolve.{Provider, Sources, provider, tag_error, resolve_ref}

-- unknownSchemeError, which unwraps to ErrInvalid.
abbrev unknown_scheme : Error
unknown_scheme = wrap (sentinel Sentinel.invalid)

known : {A : Type 0} → Option Provider → Result A → Result A
known none got = err unknown_scheme
known (some p) got = got

-- What the loop does with the answer of a ref, `rest` being what it gives behind it.
walked : Result Value → Result Value → Result Value
walked (ok val) rest = ok val
walked (err e) rest = if is e Sentinel.not_found then rest else err e

-- The loop of Resolve over the refs that are left; `first` is refs[0].
unfoldable pub ref_loop : Sources → Ref → List Ref → Result Value
unfolding known walked
ref_loop o first [] = err (tag_error first (sentinel Sentinel.not_found))
ref_loop o first (r ∷ refs) =
    let rest = ref_loop o first refs in known (provider o r.scheme) (walked (resolve_ref o r) rest)

resolve_parsed : Sources → List Ref → Result Value
unfolding ref_loop
resolve_parsed o refs = ref_loop o (first_ref refs) refs

-- Resolve; `ctx_err` is the error of the context, if it has ended.
unfoldable pub resolve_text : Option Error → Vars → Sources → Text → Result Value
unfolding resolve_parsed
resolve_text (some e) vars o ref = err e
resolve_text none vars o ref = do
  expanded ← expand_ref_vars ref vars
  refs ← parse_refs expanded
  resolve_parsed o refs
