-- ===== src/Cli/Privilege.antt =====
-- cmd/mamori/diffmodel.go: the gate on the growth of a config surface.
use mamori.Prelude.{
  ◌≡◌, refl, sym, ap, ◌∙◌, subst, Bool, true, false, not, ◌||◌, inl, inr, Option, none, some, List,
  [], ◌∷◌, ◌++◌, Text, get, get_there, member, str_eq, str_eq_iff, is_empty, Bool-cases, arith,
}
use mamori.Cli.{
  StructInfo, PolicyRefs, bucket, add_structs, unrepeated, sorted_buckets, collect_policy_refs,
  missing_from, add_unseen, keys, union_schemes, gained, compute_privilege_delta, privilege_grew,
}
use mamori.Cli.Reads.{Reads}
use mamori.Cli.Reads.Surfaces.{surface_reads-Reads, Reads-surface_reads}
use mamori.Cli.Surface.{surface_reads, holds-add_structs, paths_of, member-append, or_false}

unrepeated-some :
    (p : Text) (l : List Text) (x : Text)
    → (str_eq p x || member (unrepeated (some p) l) x) ≡ (str_eq p x || member l x)
unfolding unrepeated member
unrepeated-some p [] x = refl
unrepeated-some p (v ∷ l) x = elim (Bool-cases (str_eq v p)) [
  | inl again ↦
      let same : v ≡ p = (str_eq_iff v p).0 again in
      rw again (
        ap (λ q. str_eq p x || member (unrepeated (some q) l) x) same
        ∙ unrepeated-some p l x
        ∙ twice (str_eq p x) (member l x)
        ∙ ap (λ q. str_eq p x || (str_eq q x || member l x)) (sym same))
  | inr new ↦ rw new (ap (λ b. str_eq p x || b) (unrepeated-some v l x))
]
  where
    twice : (a b : Bool) → (a || b) ≡ (a || (a || b))
    twice true b = refl
    twice false b = refl

member-unrepeated : (l : List Text) (x : Text) → member (unrepeated none l) x ≡ member l x
unfolding unrepeated member
member-unrepeated [] x = refl
member-unrepeated (v ∷ l) x = unrepeated-some v l x

member-missing_from :
    (want have : List Text) (p : Text)
    → is_empty (missing_from want have) ≡ true
    → member want p ≡ true
    → member have p ≡ true
unfolding missing_from member
member-missing_from [] have p none_missing wanted = absurd (ground (arith, wanted))
member-missing_from (w ∷ want) have p none_missing wanted = elim (Bool-cases (member have w)) [
  | inr absent ↦
      let full : ◌≡◌ {A = Bool} false true = rw absent at none_missing in absurd (ground arith)
  | inl there ↦ elim (Bool-cases (str_eq w p)) [
    | inl same ↦ subst (λ q. member have q ≡ true) ((str_eq_iff w p).0 same) there
    | inr other ↦ member-missing_from want have p (rw there at none_missing) (rw other at wanted)
  ]
]

pub or_true : (b : Bool) → (b || true) ≡ true
or_true true = refl
or_true false = refl

not-false : (b : Bool) → not b ≡ false → b ≡ true
not-false true h = refl
not-false false h = absurd (ground (arith, h))

pub member-add_unseen :
    (ks seen : List Text) (k : Text)
    → member ks k ≡ true
    → (member seen k || member (add_unseen ks seen) k) ≡ true
unfolding add_unseen member
member-add_unseen [] seen k h = absurd (ground (arith, h))
member-add_unseen (s ∷ ks) seen k h = elim (Bool-cases (str_eq s k)) [
  | inl same ↦
      let here : s ≡ k = (str_eq_iff s k).0 same in
      elim (Bool-cases (member seen s)) [
        | inl before ↦ rw (subst (λ q. member seen q ≡ true) here before) refl
        | inr unseen ↦ rw (unseen, same) (or_true (member seen k))
      ]
  | inr other ↦
      let later : member ks k ≡ true = rw other at h in
      elim (Bool-cases (member seen s)) [
        | inl before ↦ rw before (member-add_unseen ks seen k later)
        | inr unseen ↦
            let after = member-add_unseen ks (s ∷ seen) k later in
            rw (unseen, other) (rw other at after)
      ]
]

member-keys :
    (m : PolicyRefs) (k p : Text) → member (bucket m k) p ≡ true → member (keys m) k ≡ true
unfolding member get
member-keys [] k p h = absurd (ground (arith, h))
member-keys ((s, paths) ∷ m) k p h = elim (Bool-cases (str_eq s k)) [
  | inl same ↦ rw same refl
  | inr other ↦ rw other (
      member-keys m k p
        (subst (λ l. member l p ≡ true) (ap paths_of (get_there m s k paths other)) h))
]

gained_none :
    (schemes : List Text) (new old : PolicyRefs) (k : Text)
    → is_empty (gained schemes new old) ≡ true
    → member schemes k ≡ true
    → is_empty (missing_from (bucket new k) (bucket old k)) ≡ true
unfolding gained member
gained_none [] new old k h listed = absurd (ground (arith, listed))
gained_none (s ∷ schemes) new old k h listed =
    elim (Bool-cases (is_empty (missing_from (bucket new s) (bucket old s)))) [
      | inr some_missing ↦
          let full : ◌≡◌ {A = Bool} false true = rw some_missing at h in absurd (ground arith)
      | inl none_missing ↦ elim (Bool-cases (str_eq s k)) [
        | inl same ↦
            subst (λ q. is_empty (missing_from (bucket new q) (bucket old q)) ≡ true)
              ((str_eq_iff s k).0 same) none_missing
        | inr other ↦ gained_none schemes new old k (rw none_missing at h) (rw other at listed)
      ]
    ]

module _ (sort : List Text → List Text)
    (sort_member : (l : List Text) (x : Text) → member (sort l) x ≡ member l x) where
  abbrev sorted_entry : Option (List Text) → Option (List Text)
  sorted_entry none = none
  sorted_entry (some paths) = some (unrepeated none (sort paths))

  get-sorted_buckets :
      (m : PolicyRefs) (k : Text) → get (sorted_buckets sort m) k ≡ sorted_entry (get m k)
  unfolding sorted_buckets get
  get-sorted_buckets [] k = refl
  get-sorted_buckets ((s, paths) ∷ m) k = elim (Bool-cases (str_eq s k)) [
    | inl same ↦ rw same refl
    | inr other ↦ rw other (get-sorted_buckets m k)
  ]

  member-sorted_entry :
      (o : Option (List Text)) (p : Text)
      → member (paths_of (sorted_entry o)) p ≡ member (paths_of o) p
  member-sorted_entry none p = refl
  member-sorted_entry (some paths) p = member-unrepeated (sort paths) p ∙ sort_member paths p

  collected_reads :
      (structs : List StructInfo) (k p : Text)
      → member (bucket (collect_policy_refs sort structs) k) p ≡ surface_reads structs k p
  unfolding collect_policy_refs member get
  collected_reads structs k p =
      let m = add_structs structs [] in
      ap (λ o. member (paths_of o) p) (get-sorted_buckets m k)
      ∙ member-sorted_entry (get m k) p
      ∙ holds-add_structs k p structs []
      ∙ sym (or_false (surface_reads structs k p))

  listed_scheme :
      (a b : PolicyRefs) (k : Text)
      → member (keys b) k ≡ true
      → member (union_schemes sort a b) k ≡ true
  unfolding union_schemes member
  listed_scheme a b k h =
      sort_member (add_unseen (keys a ++ keys b) []) k
      ∙ member-add_unseen (keys a ++ keys b) [] k
          (member-append (keys a) (keys b) k ∙ rw h (or_true (member (keys a) k)))

  surface_reads_kept :
      (base head : List StructInfo) (scheme path : Text)
      → privilege_grew (compute_privilege_delta sort base head) ≡ false
      → surface_reads head scheme path ≡ true
      → surface_reads base scheme path ≡ true
  unfolding privilege_grew compute_privilege_delta
  surface_reads_kept base head scheme path no_growth read =
      let base_refs = collect_policy_refs sort base in
      let head_refs = collect_policy_refs sort head in
      let wanted : member (bucket head_refs scheme) path ≡ true =
        collected_reads head scheme path ∙ read in
      let listed =
        listed_scheme base_refs head_refs scheme (member-keys head_refs scheme path wanted) in
      let nothing : is_empty (gained (union_schemes sort base_refs head_refs) head_refs base_refs)
          ≡ true =
        not-false _ no_growth in
      sym (collected_reads base scheme path)
      ∙ member-missing_from (bucket head_refs scheme) (bucket base_refs scheme) path
          (gained_none (union_schemes sort base_refs head_refs) head_refs base_refs scheme nothing
            listed)
          wanted

  -- Two surfaces whose tags the tool has split into refs: if their diff does not report that privileges
  -- grew, then for every scheme and path that a ref of some source field of the new surface spells, at
  -- any place of its chain, a ref of some source field of the old surface spells that scheme and path
  -- too. Sorting keeps the members of a list.
  pub privilege_grew-Reads :
      (base head : List StructInfo) (scheme path : Text)
      → privilege_grew (compute_privilege_delta sort base head) ≡ false
      → Reads head scheme path
      → Reads base scheme path
  privilege_grew-Reads base head scheme path no_growth read = surface_reads-Reads base scheme path (
      surface_reads_kept base head scheme path no_growth
        (Reads-surface_reads head scheme path read))
