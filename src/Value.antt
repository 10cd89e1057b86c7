-- ===== src/Value.antt =====
-- value.go, and the field descriptor of decode.go with its onfail policy. A time.Time is a number of
-- nanoseconds, and 0 is the zero time.
use mamori.Prelude.{
  ℕ, Bool, true, not, List, [], ◌∷◌, Text, codes, str_eq, if◌then◌else◌, is_empty, Map, ◌||◌, ◌==◌,
}
use mamori.Ref.{Ref}

abbrev pub Time : Type 0
Time = ℕ

abbrev pub is_zero_time : Time → Bool
is_zero_time t = t == 0

pub record Value : Type 0 where
  pub bytes : Text
  pub version : Text
  pub sensitive : Bool
  pub not_after : Time
  pub metadata : Map Text

-- Value.changed
unfoldable pub changed : Value → Value → Bool
changed v o =
    if not (is_empty v.version) || not (is_empty o.version)
    then not (str_eq v.version o.version)
    else not (str_eq v.bytes o.bytes)

pub data OnFailPolicy : Type 0 where
  keep_last use_default fail : OnFailPolicy

-- fieldSpec; `type_name` is what the fingerprint reads of its reflect.Type.
pub record FieldSpec : Type 0 where
  pub path : Text
  pub refs : List Ref
  pub default_text : Text
  pub has_default : Bool
  pub flatten : Text
  pub optional : Bool
  pub index : List ℕ
  pub type_name : Text
  pub sensitive : Bool
  pub on_fail : OnFailPolicy

-- defaultValueVersion
abbrev pub default_value_version : Text
default_value_version = codes "default"

-- Value{Bytes: []byte(spec.Default), Sensitive: spec.Sensitive, Version: defaultValueVersion}
abbrev pub default_value : FieldSpec → Value
default_value spec = record {
  bytes = spec.default_text;
  version = default_value_version;
  sensitive = spec.sensitive;
  not_after = 0;
  metadata = [];
}

-- val.Sensitive = true, if the field is a secret.
abbrev pub mark_sensitive : FieldSpec → Value → Value
mark_sensitive spec v = if spec.sensitive then record v { sensitive = true } else v

-- refs[0]. A spec has a ref: ParseRefs gives one at least.
abbrev pub first_ref : List Ref → Ref
first_ref [] = record { scheme = []; path = []; key = []; opts = []; raw = [] }
first_ref (r ∷ rs) = r
