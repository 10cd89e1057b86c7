-- ===== src/Engine/Sources.antt =====
-- reconciler.go: the state of each position of a chain, and the winner that the reconciler
-- recomputes from it (recordSourceUpdate, recomputeWinner, seedChainSources).
pub mod Precedence
use mamori.Prelude.{
  ℕ, zero, suc, Bool, true, false, Option, none, some, List, [], ◌∷◌, Text, if◌then◌else◌,
  get_elem?, set, replicate, length,
}
use mamori.Errors.{Error, Sentinel, sentinel, Result, ok, err, is, ◌>>=◌}
use mamori.Ref.{Ref}
use mamori.Value.{Value, FieldSpec, mark_sensitive, first_ref}
use mamori.Decode.{Codecs, apply_decode}
use mamori.Resolve.{Sources, Provider, provider, zero_value}
use mamori.Engine.State.{SrcState, Update}

abbrev pub unseen : SrcState
unseen = record { seen = false; value = zero_value; error = none }

abbrev pub seen_error : Error → SrcState
seen_error e = record { seen = true; value = zero_value; error = some e }

abbrev pub seen_value : Value → SrcState
seen_value v = record { seen = true; value = v; error = none }

pub ref_at : List Ref → ℕ → Ref
ref_at [] pos = first_ref []
ref_at (r ∷ rs) zero = r
ref_at (r ∷ rs) (suc pos) = ref_at rs pos

-- What one update makes of its position.
unfoldable pub source_state : Codecs → FieldSpec → Ref → Update → SrcState
source_state c spec ref up = elim up.error [
  | some e ↦ seen_error e
  | none ↦ elim (apply_decode c ref up.value) [
    | err e ↦ seen_error e
    | ok dec ↦ seen_value (mark_sensitive spec dec)
  ]
]

row : List (List SrcState) → ℕ → List SrcState
row [] i = []
row (r ∷ rs) zero = r
row (r ∷ rs) (suc i) = row rs i

-- e.sources[specIdx]
unfoldable pub states_of : List (List SrcState) → ℕ → List SrcState
unfolding row
states_of sources i = row sources i

-- recordSourceUpdate
unfoldable pub record_source_update :
    Codecs → FieldSpec → ℕ → ℕ → Update → List (List SrcState) → List (List SrcState)
unfolding source_state states_of ref_at
record_source_update c spec idx pos up sources =
    set sources idx
      (set (states_of sources idx) pos (source_state c spec (ref_at spec.refs pos) up))

-- The answer of recomputeWinner: a value and its position, or an error with the position that
-- failed, none for the position -1.
pub data Winner : Type 0 where
  won : Value → ℕ → Winner
  lost : Option ℕ → Error → Winner

-- The loop of recomputeWinner from position `i` on; `none` where it falls through.
unfoldable pub winner_loop : List SrcState → ℕ → Option Winner
winner_loop [] i = none
winner_loop (st ∷ sts) i =
    let rest = winner_loop sts (suc i) in
    if st.seen
    then elim st.error [
      | some e ↦ if is e Sentinel.not_found then rest else some (lost (some i) e)
      | none ↦ some (won st.value i)
    ]
    else rest

-- Behind the loop: a chain of one keeps the error of its ref, any other is "not found".
only_error : List SrcState → Winner
only_error (st ∷ []) = elim st.error [
  | some e ↦ lost (some 0) e
  | none ↦ lost none (sentinel Sentinel.not_found)
]
only_error _ = lost none (sentinel Sentinel.not_found)

unfoldable pub recompute_winner : List SrcState → Winner
unfolding winner_loop only_error
recompute_winner states = elim (winner_loop states 0) [ some w ↦ w | none ↦ only_error states ]

-- One resolve of seedChainSources, decoded.
unfoldable pub probe : Sources → Provider → Ref → Result Value
probe o p ref = do val ← p.resolve ref; apply_decode o.codecs ref val

-- seedChainSources; the positions behind the one that decides stay unseen.
unfoldable pub seed_chain_sources : Sources → FieldSpec → List Ref → List SrcState
seed_chain_sources o spec [] = []
seed_chain_sources o spec (ref ∷ refs) =
    let stop = replicate (length refs) unseen in
    let go_on = seed_chain_sources o spec refs in
    elim (provider o ref.scheme) [
      | none ↦ seen_error (sentinel Sentinel.invalid) ∷ stop
      | some p ↦ elim (probe o p ref) [
        | ok val ↦ seen_value (mark_sensitive spec val) ∷ stop
        | err e ↦ if is e Sentinel.not_found then seen_error e ∷ go_on else seen_error e ∷ stop
      ]
    ]

-- The positions that a fresh walk saw replace the ones of a refresh; the others keep their state.
unfoldable pub overlay : List SrcState → List SrcState → List SrcState
overlay [] old = old
overlay (f ∷ fs) [] = []
overlay (f ∷ fs) (s ∷ ss) = (if f.seen then f else s) ∷ overlay fs ss
