-- ===== src/Cli/Diff.antt =====
-- cmd/mamori/diffmodel.go: what a diff says of the chain of a field.
pub mod Complete
use mamori.Prelude.{
  ℕ, suc, ◌==◌, Bool, true, false, Option, none, some, List, [], ◌∷◌, ◌++◌, Text, if◌then◌else◌,
  Map, get,
}
use mamori.Cli.{keys, add_unseen}

pub data ChangeKind : Type 0 where
  change_added change_removed change_moved : ChangeKind

-- RefChange; a position of -1 is none.
pub record RefChange : Type 0 where
  pub kind : ChangeKind
  pub ref : Text
  pub base_pos : Option ℕ
  pub head_pos : Option ℕ

-- The loop of firstIndexOf, from position `i` on.
index_loop : List Text → ℕ → Map ℕ → Map ℕ
index_loop [] i out = out
index_loop (r ∷ chain) i out =
    let rest = index_loop chain (suc i) out in
    let first = index_loop chain (suc i) ((r, i) ∷ out) in
    elim (get out r) [ some j ↦ rest | none ↦ first ]

unfoldable pub first_index_of : List Text → Map ℕ
unfolding index_loop
first_index_of chain = index_loop chain 0 []

-- The switch of diffChain: the change of a ref, if there is one.
change_of : Text → Option ℕ → Option ℕ → Option RefChange
change_of r none none = none
change_of r (some b) none =
    some (record { kind = change_removed; ref = r; base_pos = some b; head_pos = none })
change_of r none (some h) =
    some (record { kind = change_added; ref = r; base_pos = none; head_pos = some h })
change_of r (some b) (some h) =
    if b == h
    then none
    else some (record { kind = change_moved; ref = r; base_pos = some b; head_pos = some h })

with_change : Option RefChange → List RefChange → List RefChange
with_change none changes = changes
with_change (some c) changes = c ∷ changes

-- The loop of diffChain over the refs.
changes_loop : Map ℕ → Map ℕ → List Text → List RefChange
unfolding change_of with_change
changes_loop base head [] = []
changes_loop base head (r ∷ refs) =
    with_change (change_of r (get base r) (get head r)) (changes_loop base head refs)

unfoldable pub diff_chain : (List Text → List Text) → List Text → List Text → List RefChange
unfolding changes_loop add_unseen
diff_chain sort base head =
    let base_pos = first_index_of base in
    let head_pos = first_index_of head in
    changes_loop base_pos head_pos (sort (add_unseen (keys base_pos ++ keys head_pos) []))
