-- ===== src/Ref/Parse.antt =====
-- ref.go: ParseRef after Ref.String.
use mamori.Prelude.{
  ◌≡◌, refl, sym, ap, ◌∙◌, true, false, none, some, [], ◌∷◌, ◌++◌, Text, codes, if◌then◌else◌,
  arith, append_assoc, append-nil, is_empty, Bool-cases, inl, inr, All-append,
}
use mamori.Errors.{ok}
use mamori.Strings.{cut, trim_space}
use mamori.Strings.Laws.{
  Lacks, cut-Lacks, cut-none, trim_prefix-append, first_ok, last_ok, trim_space_id,
}
use mamori.Strings.Url.{Values, parse_query}
use mamori.Ref.{Ref, render, parse_ref, parse_trimmed, after_scheme, build, or_empty, parse_rest}

-- A ref whose parts hold none of the delimiters behind them.
pub record IsPlain (r : Ref) : Type 0 where
  pub has_scheme : is_empty r.scheme ≡ false
  pub scheme : Lacks b':' r.scheme
  pub path_hash : Lacks b'#' r.path
  pub path_query : Lacks b'?' r.path
  pub key_query : Lacks b'?' r.key
  pub no_raw : r.raw ≡ []

abbrev hash_key : Text → Text
hash_key k = if is_empty k then [] else b'#' ∷ k

abbrev question : (Values → Text) → Values → Text
question encode m = if is_empty m then [] else b'?' ∷ encode m

hash_key-Lacks : (k : Text) → Lacks b'?' k → Lacks b'?' (hash_key k)
hash_key-Lacks [] h = tt
hash_key-Lacks (c ∷ k) h = (omega arith, h)

build_lem :
    (scheme tag path key : Text) (m : Values)
    → Lacks b'#' path
    → build scheme tag (path ++ hash_key key) m
      ≡ record { scheme = scheme; path = path; key = key; opts = m; raw = tag }
unfolding build or_empty
build_lem scheme tag path [] m h = rw (append-nil, cut-none b'#' path h)
build_lem scheme tag path (c ∷ key) m h = rw (cut-Lacks b'#' path (c ∷ key) h)

is_empty-nil : (m : Values) → is_empty m ≡ true → m ≡ []
is_empty-nil [] h = refl
is_empty-nil (x ∷ m) h = cc

parse_rest-none : parse_rest none ≡ ok []
unfolding parse_rest
parse_rest-none = refl

parse_rest-some : (q : Text) {m : Values} → parse_query q ≡ some m → parse_rest (some q) ≡ ok m
unfolding parse_rest
parse_rest-some q h = ground arith

unfold_parse : (tag : Text) → trim_space tag ≡ tag → parse_ref tag ≡ parse_trimmed tag
unfolding parse_ref
unfold_parse tag h = ap parse_trimmed h

module _ (encode : Values → Text) (r : Ref) (plain : IsPlain r) where
  body : Text
  body = r.path ++ (hash_key r.key ++ question encode r.opts)

  body-split :
      (parse_query (encode r.opts) ≡ some r.opts)
      → (tag : Text)
      → after_scheme tag r.scheme (some (codes "//" ++ body)) ≡ ok (record r { raw = tag })
  unfolding after_scheme body
  body-split q tag = elim (Bool-cases (is_empty r.opts)) [
    | inl none_given ↦
        rw
          (
            none_given,
            trim_prefix-append (codes "//"),
            append-nil,
            cut-none b'?' (r.path ++ hash_key r.key) front,
            plain.has_scheme,
            parse_rest-none,
            build_lem r.scheme tag r.path r.key [] plain.path_hash,
          )
          (ap (λ (m : Values). ok (record r { opts = m; raw = tag }))
            (sym (is_empty-nil r.opts none_given)))
    | inr given ↦ rw (
      given,
      trim_prefix-append (codes "//"),
      ← append_assoc r.path,
      cut-Lacks b'?' (r.path ++ hash_key r.key) (encode r.opts) front,
      plain.has_scheme,
      parse_rest-some _ q,
      build_lem r.scheme tag r.path r.key r.opts plain.path_hash,
    )
  ]
    where
      front : Lacks b'?' (r.path ++ hash_key r.key)
      front =
          All-append _ r.path (hash_key r.key) plain.path_query
            (hash_key-Lacks r.key plain.key_query)

  render-body : render encode r ≡ r.scheme ++ b':' ∷ (codes "//" ++ body)
  unfolding render body
  render-body = rw plain.no_raw

  nonempty : (s t : Text) → is_empty s ≡ false → is_empty (s ++ t) ≡ false
  nonempty [] t h = cc
  nonempty (c ∷ s) t h = refl

  -- ParseRef reads back every field of a ref from its canonical form scheme://path#key?options, and
  -- keeps the form as Raw. The scheme, the path and the key hold none of the delimiters that end
  -- them, the form has no blank at its ends, and the encoding of the options is one that
  -- url.ParseQuery reads back.
  pub parse_ref-render :
      (parse_query (encode r.opts) ≡ some r.opts)
      → first_ok (render encode r) ≡ true
      → last_ok (render encode r) ≡ true
      → parse_ref (render encode r) ≡ ok (record r { raw = render encode r })
  unfolding parse_trimmed
  parse_ref-render q f l =
      let tag = render encode r in
      let filled : is_empty tag ≡ false = rw render-body (nonempty r.scheme _ plain.has_scheme) in
      let halves : cut b':' tag ≡ (r.scheme, some (codes "//" ++ body)) =
        rw render-body (cut-Lacks b':' r.scheme (codes "//" ++ body) plain.scheme) in
      unfold_parse tag (trim_space_id tag f l) ∙ rw (filled, halves) (body-split q tag)
