-- ===== src/Ref/Tests.antt =====
-- The theorems on refs at concrete tags.
use mamori.Prelude.{
  ℕ, ◌≡◌, ◌≢◌, ◌⊎◌, inl, inr, refl, Bool, true, false, not, ◌&&◌, ◌++◌, ◌==◌, Bool-cases, List, [],
  ◌∷◌, Text, codes, str_eq, remove, arith,
}
use mamori.Errors.{ok}
use mamori.Strings.{join}
use mamori.Strings.Url.{Values, parse_query}
use mamori.Ref.{Ref, render, parse_ref}
use mamori.Ref.Parse.{IsPlain, parse_ref-render}
use mamori.Ref.Chain.{split_chain, scheme_start}
use mamori.Ref.Chain.Starts.{IsStart, IsStart-scheme_start, scheme_start-IsStart}
use mamori.Ref.Chain.Split.{NoCut, IsChain, split_chain-join, join-split_chain, comma}
use mamori.Ref.Vars.{expand_ref_vars}
use mamori.Ref.Vars.Template.{Segment, lit, var, HasNames, spell, meaning, expand_ref_vars-spell}
use mamori.Ref.Redact.{redacted, is_sensitive}
use mamori.Ref.Redact.Secrecy.{SameOpts, redacted-SameOpts}

abbrev vault_ref : Ref
vault_ref = record {
  scheme = codes "vault";
  path = codes "kv/app";
  key = codes "password";
  opts = (codes "poll", codes "5s" ∷ []) ∷ [];
  raw = [];
}

abbrev encode_poll : Values → Text
encode_poll m = codes "poll=5s"

vault_ref-IsPlain : IsPlain vault_ref
vault_ref-IsPlain = record {
  has_scheme = refl;
  scheme = ground arith;
  path_hash = ground arith;
  path_query = ground arith;
  key_query = ground arith;
  no_raw = refl;
}

parse_ref-render_example :
    parse_ref (render encode_poll vault_ref)
    ≡ ok (record vault_ref { raw = render encode_poll vault_ref })
unfolding render parse_query remove
parse_ref-render_example = parse_ref-render encode_poll vault_ref vault_ref-IsPlain refl refl refl

abbrev chain_tail : List Text
chain_tail = codes " file:/etc/a?x=1,2" ∷ []

-- NoCut, tested.
abbrev is_whole : Text → Text → Bool
is_whole [] rest = true
is_whole (c ∷ s) rest = not ((c == b',') && scheme_start (s ++ rest)) && is_whole s rest

is_whole-NoCut : (s rest : Text) → is_whole s rest ≡ true → NoCut s rest
is_whole-NoCut [] rest h = tt
is_whole-NoCut (c ∷ s) rest h =
    let here : ((c == b',') && scheme_start (s ++ rest)) ≡ false = ground (arith, h) in
    (comma_inside c (s ++ rest) here, is_whole-NoCut s rest (ground (arith, h)))
  where
    comma_inside :
        (c : ℕ) (s : Text) → ((c == b',') && scheme_start s) ≡ false → (c ≢ b',') ⊎ (¬ IsStart s)
    comma_inside c s h = elim (Bool-cases (c == b',')) [
      | inl comma ↦ inr (λ start.
          let found = scheme_start-IsStart s start in absurd (ground (arith, h, comma, found)))
      | inr other ↦ inl (λ same. absurd (ground (arith, other, same)))
    ]

chain_tail-IsChain : IsChain (codes "env:A" ∷ chain_tail)
unfolding join scheme_start
chain_tail-IsChain = (
  is_whole-NoCut (codes "env:A") (b',' ∷ join comma chain_tail) refl,
  IsStart-scheme_start (join comma chain_tail) refl,
  is_whole-NoCut (codes " file:/etc/a?x=1,2") [] refl,
)

split_chain-join_example :
    split_chain (join comma (codes "env:A" ∷ chain_tail)) ≡ codes "env:A" ∷ chain_tail
split_chain-join_example = split_chain-join (codes "env:A") chain_tail chain_tail-IsChain

join-split_chain_example :
    join comma (split_chain (codes "env:A,B,file:x")) ≡ codes "env:A,B,file:x"
join-split_chain_example = join-split_chain (codes "env:A,B,file:x")

abbrev template : List Segment
template = lit (codes "file:/etc/") ∷ var (codes "ENV") ∷ lit (codes "/a$") ∷ []

template-HasNames : HasNames template
template-HasNames = ground arith

expand_ref_vars-spell_example :
    expand_ref_vars (spell template) ((codes "ENV", codes "prod") ∷ [])
    ≡ meaning ((codes "ENV", codes "prod") ∷ []) template
expand_ref_vars-spell_example =
    expand_ref_vars-spell template ((codes "ENV", codes "prod") ∷ []) template-HasNames

abbrev token_ref : Ref
token_ref = record vault_ref { opts = (codes "token", codes "secret" ∷ []) ∷ [] }

abbrev other_opts : Values
other_opts = (codes "token", codes "other" ∷ []) ∷ []

token_ref-SameOpts : SameOpts token_ref.opts other_opts
unfolding is_sensitive str_eq
token_ref-SameOpts = (refl, refl, tt)

redacted-SameOpts_example :
    redacted token_ref ≡ redacted (record token_ref { opts = other_opts; raw = codes "vault:x" })
redacted-SameOpts_example =
    redacted-SameOpts token_ref other_opts (codes "vault:x") refl token_ref-SameOpts
