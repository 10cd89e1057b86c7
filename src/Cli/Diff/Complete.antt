-- ===== src/Cli/Diff/Complete.antt =====
-- cmd/mamori/diffmodel.go: a chain diff that is empty.
use mamori.Prelude.{
  ℕ, ◌≡◌, refl, sym, ap, ◌∙◌, subst, ◌==◌, ==_iff, Bool, true, false, ◌||◌, inl, inr, Option, none,
  some, List, [], ◌∷◌, ◌++◌, Text, Map, get, member, str_eq, str_eq_iff, is_empty, Bool-cases,
  Option-cases, arith,
}
use mamori.Cli.{keys, add_unseen}
use mamori.Cli.Surface.{member-append}
use mamori.Cli.Privilege.{member-add_unseen, or_true}
use mamori.Cli.Diff.{RefChange, first_index_of, change_of, with_change, changes_loop, diff_chain}

no_change :
    (r : Text) (b h : Option ℕ) (changes : List RefChange)
    → is_empty (with_change (change_of r b h) changes) ≡ true
    → b ≡ h
unfolding with_change change_of
no_change r none none changes e = refl
no_change r (some i) none changes e = absurd (ground (arith, e))
no_change r none (some j) changes e = absurd (ground (arith, e))
no_change r (some i) (some j) changes e = elim (Bool-cases (i == j)) [
  | inl same ↦ ap some ((==_iff i j).0 same)
  | inr moved ↦ let full : ◌≡◌ {A = Bool} false true = rw moved at e in absurd (ground arith)
]

no_later_change :
    (r : Text) (b h : Option ℕ) (changes : List RefChange)
    → is_empty (with_change (change_of r b h) changes) ≡ true
    → is_empty changes ≡ true
unfolding with_change change_of
no_later_change r none none changes e = e
no_later_change r (some i) none changes e = absurd (ground (arith, e))
no_later_change r none (some j) changes e = absurd (ground (arith, e))
no_later_change r (some i) (some j) changes e = elim (Bool-cases (i == j)) [
  | inl same ↦ rw same at e
  | inr moved ↦ let full : ◌≡◌ {A = Bool} false true = rw moved at e in absurd (ground arith)
]

changes_loop_none :
    (base head : Map ℕ) (refs : List Text) (r : Text)
    → is_empty (changes_loop base head refs) ≡ true
    → member refs r ≡ true
    → get base r ≡ get head r
unfolding changes_loop member
changes_loop_none base head [] r e listed = absurd (ground (arith, listed))
changes_loop_none base head (s ∷ refs) r e listed = elim (Bool-cases (str_eq s r)) [
  | inl same ↦
      subst (λ q. get base q ≡ get head q) ((str_eq_iff s r).0 same)
        (no_change s (get base s) (get head s) _ e)
  | inr other ↦
      changes_loop_none base head refs r (no_later_change s (get base s) (get head s) _ e)
        (rw other at listed)
]

found_key :
    {V : Type 0} (m : Map V) (k : Text) (v : V) → get m k ≡ some v → member (keys m) k ≡ true
unfolding get member
found_key [] k v h = absurd (ground (arith, h))
found_key ((s, w) ∷ m) k v h = elim (Bool-cases (str_eq s k)) [
  | inl same ↦ rw same refl
  | inr other ↦ rw other (found_key m k v (rw other at h))
]

-- A chain diff that reports no change: every ref that one of the chains holds stands first at the same
-- place in both.
pub diff_chain-first_index_of :
    (sort : List Text → List Text)
    → ((l : List Text) (x : Text) → member (sort l) x ≡ member l x)
    → (base head : List Text) (r : Text) → is_empty (diff_chain sort base head) ≡ true
    → get (first_index_of base) r ≡ get (first_index_of head) r
unfolding diff_chain member
diff_chain-first_index_of sort sort_member base head r e =
    let b = first_index_of base in
    let h = first_index_of head in
    let all_keys = add_unseen (keys b ++ keys h) [] in
    let same : member (keys b ++ keys h) r ≡ true → get b r ≡ get h r = λ listed.
      changes_loop_none b h (sort all_keys) r e
        (sort_member all_keys r ∙ member-add_unseen (keys b ++ keys h) [] r listed) in
    elim (Option-cases (get b r)) [
      | inr (i, there) ↦ same (
          member-append (keys b) (keys h) r
          ∙ ap (λ x. x || member (keys h) r) (found_key b r i there))
      | inl absent ↦ elim (Option-cases (get h r)) [
        | inr (j, here) ↦ same (
            member-append (keys b) (keys h) r
            ∙ ap (λ x. member (keys b) r || x) (found_key h r j here)
            ∙ or_true (member (keys b) r))
        | inl missing ↦ absent ∙ sym missing
      ]
    ]
