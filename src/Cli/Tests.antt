-- ===== src/Cli/Tests.antt =====
-- The gate at a concrete surface, and the two splitters at tags.
use mamori.Prelude.{
  ◌≡◌, arith, inl, refl, false, List, [], ◌∷◌, Text, codes, member, put, get, remove, str_eq,
}
use mamori.Strings.{cut, trim_space, trim_prefix}
use mamori.Ref.Chain.{split_chain, scheme_start, scheme_head}
use mamori.Cli.{
  kind_source, StructInfo, split_tag, compute_privilege_delta, privilege_grew, union_schemes,
  collect_policy_refs,
}
use mamori.Cli.Reads.{Reads, Spells}
use mamori.Cli.Privilege.{privilege_grew-Reads}

-- A blank behind the comma: one ref for the command line tool, two for the library.
abbrev spaced : Text
spaced = codes "env:A, aws-sm://b"

split_tag-spaced : split_tag spaced ≡ spaced ∷ []
unfolding split_tag scheme_head
split_tag-spaced = refl

split_chain-spaced : split_chain spaced ≡ codes "env:A" ∷ codes " aws-sm://b" ∷ []
unfolding split_chain scheme_start
split_chain-spaced = refl

abbrev surface : List Text → List StructInfo
surface refs =
    record {
      pkg = codes "p";
      type_name = codes "T";
      fields = record { path = codes "A"; kind = kind_source; refs = refs } ∷ [];
    }
    ∷ []

abbrev plain_sort : List Text → List Text
plain_sort l = l

member-plain_sort : (l : List Text) (x : Text) → member (plain_sort l) x ≡ member l x
member-plain_sort l x = refl

abbrev base : List StructInfo
base = surface (codes "aws-sm://db/x#user" ∷ codes "aws-sm://api" ∷ [])

abbrev head : List StructInfo
head = surface (codes "aws-sm://db/x#password" ∷ [])

not_grown : privilege_grew (compute_privilege_delta plain_sort base head) ≡ false
unfolding privilege_grew compute_privilege_delta union_schemes collect_policy_refs cut trim_space
    put member get str_eq trim_prefix remove
not_grown = refl

-- The new ref, spelled: "aws-sm", "//", "db/x", and the key.
db_is_read : Reads head (codes "aws-sm") (codes "db/x")
unfolding trim_space
db_is_read = inl (inl (refl, inl spells_db))
  where
    spells_db : Spells (codes "aws-sm") (codes "db/x") (codes "aws-sm://db/x#password")
    spells_db = (
      codes "//",
      codes "#password",
      refl,
      refl,
      ground arith,
      inl refl,
      ground arith,
      ground arith,
      inl refl,
    )

privilege_grew-Reads_example : Reads base (codes "aws-sm") (codes "db/x")
privilege_grew-Reads_example =
    privilege_grew-Reads plain_sort member-plain_sort base head (codes "aws-sm") (codes "db/x")
      not_grown db_is_read
