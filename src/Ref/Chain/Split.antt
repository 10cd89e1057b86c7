-- ===== src/Ref/Chain/Split.antt =====
-- ref.go: splitChain against joining the refs of a chain with commas.
use mamori.Prelude.{
  ℕ, ◌≡◌, ◌≢◌, ◌⊎◌, refl, sym, ap, ◌∙◌, true, false, ◌&&◌, List, [], ◌∷◌, ◌++◌, Text, ◌==◌, arith,
  append_assoc, append-nil, Bool-cases, inl, inr,
}
use mamori.Strings.{join}
use mamori.Ref.Chain.Starts.{IsStart, IsStart-scheme_start, scheme_start-IsStart}
use mamori.Ref.Chain.{scheme_start, split_loop, split_chain}

abbrev pub comma : Text
comma = b',' ∷ []

-- Every comma of the text is inside a ref: behind it the text does not go on with a scheme. `rest` is
-- what stands behind the text.
abbrev pub NoCut : Text → Text → Type 0
NoCut [] rest = Unit
NoCut (c ∷ s) rest = ((c ≢ b',') ⊎ (¬ IsStart (s ++ rest))) × NoCut s rest

-- The parts of a chain as a human writes it: every part after a comma begins with a scheme, and no
-- comma of a part is followed by one.
abbrev pub IsChain : List Text → Type 0
IsChain [] = Unit
IsChain (p ∷ []) = NoCut p []
IsChain (p ∷ q ∷ ps) =
    NoCut p (b',' ∷ join comma (q ∷ ps)) × IsStart (join comma (q ∷ ps)) × IsChain (q ∷ ps)

goes_on : (c : ℕ) (s : Text) → (c ≢ b',') ⊎ (¬ IsStart s) → ((c == b',') && scheme_start s) ≡ false
goes_on c s (inl other) = elim (Bool-cases (c == b',')) [
  | inl comma ↦ absurd (other (ground (arith, comma)))
  | inr no_comma ↦ rw no_comma refl
]
goes_on c s (inr no_start) = elim (Bool-cases (scheme_start s)) [
  | inl start ↦ absurd (no_start (IsStart-scheme_start s start))
  | inr inside ↦ ground (arith, inside)
]

split_loop-NoCut :
    (p rest cur : Text) (parts : List Text)
    → NoCut p rest
    → split_loop (p ++ rest) cur parts ≡ split_loop rest (cur ++ p) parts
unfolding split_loop
split_loop-NoCut [] rest cur parts h = rw append-nil
split_loop-NoCut (c ∷ p) rest cur parts (here, h) =
    rw (goes_on c (p ++ rest) here)
      (split_loop-NoCut p rest (cur ++ c ∷ []) parts h ∙ rw append_assoc)

split_loop_cut :
    (rest cur : Text) (parts : List Text)
    → scheme_start rest ≡ true
    → split_loop (b',' ∷ rest) cur parts ≡ split_loop rest [] (parts ++ cur ∷ [])
unfolding split_loop
split_loop_cut rest cur parts h = rw h

split_loop-join :
    (p : Text) (ps parts : List Text)
    → IsChain (p ∷ ps)
    → split_loop (join comma (p ∷ ps)) [] parts ≡ parts ++ p ∷ ps
unfolding join
split_loop-join p [] parts h =
    ap (λ (t : Text). split_loop t [] parts) (sym (append-nil p))
    ∙ split_loop-NoCut p [] [] parts h
    ∙ unfold split_loop in refl
split_loop-join p (q ∷ ps) parts (whole, starts, h) =
    split_loop-NoCut p (b',' ∷ join comma (q ∷ ps)) [] parts whole
    ∙ split_loop_cut (join comma (q ∷ ps)) p parts
        (scheme_start-IsStart (join comma (q ∷ ps)) starts)
    ∙ split_loop-join q ps (parts ++ p ∷ []) h
    ∙ append_assoc parts (p ∷ []) (q ∷ ps)

-- splitChain undoes the joining of a chain with commas, for every chain in which each part after
-- the first begins with blanks, if any, and then a scheme and its colon, and after no comma inside a
-- part does the text go on in that way.
pub split_chain-join :
    (p : Text) (ps : List Text) → IsChain (p ∷ ps) → split_chain (join comma (p ∷ ps)) ≡ p ∷ ps
unfolding split_chain
split_chain-join p ps h = split_loop-join p ps [] h

-- What the loop has still to read, spelled behind what it has: nothing is lost or reordered.
join_snoc :
    (parts : List Text) (cur c : Text)
    → join comma (parts ++ (cur ++ c) ∷ []) ≡ join comma (parts ++ cur ∷ []) ++ c
unfolding join
join_snoc [] cur c = refl
join_snoc (p ∷ []) cur c = rw (append_assoc, append_assoc)
join_snoc (p ∷ q ∷ ps) cur c = rw (join_snoc (q ∷ ps) cur c, append_assoc, append_assoc)

join_open :
    (parts : List Text) (cur : Text)
    → join comma ((parts ++ cur ∷ []) ++ [] ∷ []) ≡ join comma (parts ++ cur ∷ []) ++ comma
unfolding join
join_open [] cur = refl
join_open (p ∷ []) cur = rw (append_assoc, append_assoc)
join_open (p ∷ q ∷ ps) cur = rw (join_open (q ∷ ps) cur, append_assoc, append_assoc)

join-split_loop :
    (s cur : Text) (parts : List Text)
    → join comma (split_loop s cur parts) ≡ join comma (parts ++ cur ∷ []) ++ s
unfolding split_loop
join-split_loop [] cur parts = rw append-nil
join-split_loop (c ∷ s) cur parts = elim (Bool-cases ((c == b',') && scheme_start s)) [
  | inl cuts ↦ rw cuts (
      join-split_loop s [] (parts ++ cur ∷ [])
      ∙ rw (join_open parts cur, append_assoc, is_comma cuts))
  | inr goes_on ↦
      rw goes_on
        (join-split_loop s (cur ++ c ∷ []) parts ∙ rw (join_snoc parts cur (c ∷ []), append_assoc))
]
  where
    is_comma : ((c == b',') && scheme_start s) ≡ true → c ≡ b','
    is_comma h = ground arith

-- No byte of a tag is lost, added or moved by splitChain: for every tag the parts, joined with
-- commas, are the tag.
pub join-split_chain : (tag : Text) → join comma (split_chain tag) ≡ tag
unfolding split_chain
join-split_chain tag = join-split_loop tag [] [] ∙ unfold join in refl
