-- ===== src/Cli.antt =====
-- cmd/mamori: refs as the command line tool reads them from struct tags (internal/sourcetag), the
-- paths that a config surface reads (policy.go), and what one surface reads beyond another
-- (diffmodel.go). sort.Strings is a parameter.
pub mod SourceTag
pub mod Surface
pub mod Reads
pub mod Diff
pub mod Privilege
pub mod Tests
use mamori.Prelude.{
  ℕ, ◌==◌, Bool, true, false, not, ◌&&◌, ◌||◌, Option, none, some, List, [], ◌∷◌, ◌++◌, Text,
  if◌then◌else◌, Map, get, put, Set, member, str_eq, is_empty, map,
}
use mamori.Strings.{cut, trim_space, trim_prefix}
use mamori.Ref.Chain.{scheme_head}

-- The loop of sourcetag.SplitChain: `cur` is tag[start:i], `parts` the parts that it has appended.
unfoldable pub tag_loop : Text → Text → List Text → List Text
tag_loop [] cur parts = parts ++ cur ∷ []
tag_loop (c ∷ s) cur parts =
    let cut_here = tag_loop s [] (parts ++ cur ∷ []) in
    let go_on = tag_loop s (cur ++ c ∷ []) parts in
    if (c == b',') && scheme_head s then cut_here else go_on

unfoldable pub split_tag : Text → List Text
unfolding tag_loop
split_tag tag = tag_loop tag [] []

pub scheme_part : Text × Option Text → Option Text
scheme_part (s, none) = none
scheme_part (s, some rest) = if is_empty s then none else some s

-- sourcetag.SchemeOf
unfoldable pub scheme_of : Text → Option Text
unfolding scheme_part
scheme_of ref = scheme_part (cut b':' (trim_space ref))

-- strings.IndexAny(rest, "#?"), and what stands before it
pub before_marks : Text → Text
before_marks [] = []
before_marks (c ∷ s) =
    let rest = before_marks s in if (c == b'#') || (c == b'?') then [] else c ∷ rest

pub path_behind : Text → Option Text → Text
unfolding before_marks
path_behind ref none = []
path_behind ref (some scheme) =
    before_marks
      (trim_prefix (b'/' ∷ b'/' ∷ []) (trim_prefix (scheme ++ b':' ∷ []) (trim_space ref)))

-- refPath
unfoldable pub ref_path : Text → Text
unfolding path_behind scheme_of
ref_path ref = path_behind ref (scheme_of ref)

pub data FieldKind : Type 0 where
  kind_source kind_derived kind_validate : FieldKind

-- Field and StructInfo, as far as policies and their differences read them.
pub record Field : Type 0 where
  pub path : Text
  pub kind : FieldKind
  pub refs : List Text

pub record StructInfo : Type 0 where
  pub pkg : Text
  pub type_name : Text
  pub fields : List Field

abbrev pub PolicyRefs : Type 0
PolicyRefs = Map (List Text)

-- m[scheme], nil if there is none
abbrev pub bucket : PolicyRefs → Text → List Text
bucket m scheme = elim (get m scheme) [ none ↦ [] | some paths ↦ paths ]

add_ref : Option Text → Text → PolicyRefs → PolicyRefs
unfolding ref_path
add_ref none ref m = m
add_ref (some scheme) ref m = put m scheme (bucket m scheme ++ ref_path ref ∷ [])

-- The loops of collectPolicyRefs.
add_refs : List Text → PolicyRefs → PolicyRefs
unfolding add_ref scheme_of
add_refs [] m = m
add_refs (ref ∷ refs) m = add_refs refs (add_ref (scheme_of ref) ref m)

-- if f.Kind != KindSource { continue }
unfoldable pub granting_refs : FieldKind → List Text → List Text
granting_refs kind_source refs = refs
granting_refs kind_derived refs = []
granting_refs kind_validate refs = []

unfoldable pub add_fields : List Field → PolicyRefs → PolicyRefs
unfolding add_refs granting_refs
add_fields [] m = m
add_fields (f ∷ fields) m = add_fields fields (add_refs (granting_refs f.kind f.refs) m)

unfoldable pub add_structs : List StructInfo → PolicyRefs → PolicyRefs
unfolding add_fields
add_structs [] m = m
add_structs (s ∷ structs) m = add_structs structs (add_fields s.fields m)

-- The loop of sortedUniqueStrings, with the string before.
unrepeated : Option Text → List Text → List Text
unrepeated prev [] = []
unrepeated none (v ∷ l) = v ∷ unrepeated (some v) l
unrepeated (some p) (v ∷ l) =
    let rest = unrepeated (some v) l in if str_eq v p then rest else v ∷ rest

unfoldable pub missing_from : List Text → Set → List Text
missing_from [] have = []
missing_from (w ∷ want) have =
    let rest = missing_from want have in if member have w then rest else w ∷ rest

-- The loops of unionSchemes.
unfoldable pub add_unseen : List Text → Set → List Text
add_unseen [] seen = []
add_unseen (s ∷ schemes) seen =
    let others = add_unseen schemes seen in
    let after = add_unseen schemes (s ∷ seen) in if member seen s then others else s ∷ after

abbrev pub keys : {V : Type 0} → Map V → List Text
keys m = map (λ x. x.0) m

-- One side of computePrivilegeDelta: the schemes under which `new` reads what `old` does not.
gained : List Text → PolicyRefs → PolicyRefs → PolicyRefs
unfolding missing_from
gained [] new old = []
gained (scheme ∷ schemes) new old =
    let rest = gained schemes new old in
    let paths = missing_from (bucket new scheme) (bucket old scheme) in
    if is_empty paths then rest else (scheme, paths) ∷ rest

module _ (sort : List Text → List Text) where
  sorted_buckets : PolicyRefs → PolicyRefs
  unfolding unrepeated
  sorted_buckets [] = []
  sorted_buckets ((scheme, paths) ∷ m) = (scheme, unrepeated none (sort paths)) ∷ sorted_buckets m

  unfoldable pub collect_policy_refs : List StructInfo → PolicyRefs
  unfolding sorted_buckets add_structs
  collect_policy_refs structs = sorted_buckets (add_structs structs [])

  unfoldable pub union_schemes : PolicyRefs → PolicyRefs → List Text
  unfolding add_unseen
  union_schemes a b = sort (add_unseen (keys a ++ keys b) [])

  -- computePrivilegeDelta: what was added, and what was removed.
  unfoldable pub compute_privilege_delta :
      List StructInfo → List StructInfo → PolicyRefs × PolicyRefs
  unfolding gained
  compute_privilege_delta base head =
      let base_refs = collect_policy_refs base in
      let head_refs = collect_policy_refs head in
      let schemes = union_schemes base_refs head_refs in
      (gained schemes head_refs base_refs, gained schemes base_refs head_refs)

unfoldable pub privilege_grew : PolicyRefs × PolicyRefs → Bool
privilege_grew (added, removed) = not (is_empty added)
