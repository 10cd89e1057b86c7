-- ===== src/Cli/SourceTag.antt =====
-- cmd/mamori/internal/sourcetag/sourcetag.go beside ref.go: the two that split a tag into its refs.
use mamori.Prelude.{
  ℕ, ◌≡◌, refl, Bool, true, false, not, ◌&&◌, inl, inr, List, [], ◌∷◌, ◌++◌, Text, ◌==◌, Bool-cases,
  arith,
}
use mamori.Ref.Chain.{split_chain, split_loop, scheme_start, scheme_head, is_blank}
use mamori.Cli.{split_tag, tag_loop}

abbrev starts_blank : Text → Bool
starts_blank [] = false
starts_blank (c ∷ s) = is_blank c

-- No blank behind a comma.
pub is_compact : Text → Bool
is_compact [] = true
is_compact (c ∷ s) = not ((c == b',') && starts_blank s) && is_compact s

scheme_start-head : (s : Text) → starts_blank s ≡ false → scheme_start s ≡ scheme_head s
unfolding scheme_start
scheme_start-head [] h = refl
scheme_start-head (c ∷ s) h = rw h refl

cuts_same :
    (c : ℕ) (s : Text)
    → ((c == b',') && starts_blank s) ≡ false
    → ((c == b',') && scheme_start s) ≡ ((c == b',') && scheme_head s)
cuts_same c s h = elim (Bool-cases (c == b',')) [
  | inr other ↦ rw other refl
  | inl comma ↦
      let tight : starts_blank s ≡ false = rw comma at h in rw comma (scheme_start-head s tight)
]

tag_loop-split_loop :
    (s cur : Text) (parts : List Text)
    → is_compact s ≡ true
    → tag_loop s cur parts ≡ split_loop s cur parts
unfolding tag_loop split_loop is_compact
tag_loop-split_loop [] cur parts h = refl
tag_loop-split_loop (c ∷ s) cur parts h =
    let here : ((c == b',') && starts_blank s) ≡ false = ground (arith, h) in
    let rest : is_compact s ≡ true = ground (arith, h) in
    rw
      (
        cuts_same c s here,
        tag_loop-split_loop s [] (parts ++ cur ∷ []) rest,
        tag_loop-split_loop s (cur ++ c ∷ []) parts rest,
      )
      refl

-- On a tag with no blank behind a comma, the command line tool and the library see the same refs in
-- the same order.
pub split_tag-split_chain : (tag : Text) → is_compact tag ≡ true → split_tag tag ≡ split_chain tag
unfolding split_tag split_chain
split_tag-split_chain tag h = tag_loop-split_loop tag [] [] h
