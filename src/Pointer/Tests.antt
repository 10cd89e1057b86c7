-- ===== src/Pointer/Tests.antt =====
-- Pointers at a concrete document: a reader of a language with one object and one string.
use mamori.Prelude.{◌≡◌, none, some, [], ◌∷◌, Text, codes, if◌then◌else◌, str_eq}
use mamori.Errors.{ok, ◌>>=◌}
use mamori.Pointer.{JsonReader, select_key, unquote_json}
use mamori.Pointer.RoundTrip.{pointer, follow, select_key-pointer}

abbrev doc : Text
doc = codes "{..}"

abbrev reader : JsonReader
reader = record {
  read_object = λ t. if str_eq t doc then some ((codes "a/b~c", codes "\"v\"") ∷ []) else none;
  read_array = λ t. none;
  read_string = λ t. if str_eq t (codes "\"v\"") then some (codes "v") else none;
}

select_key-pointer_example :
    select_key reader doc (pointer (codes "a/b~c" ∷ []))
    ≡ (do node ← follow reader doc (codes "a/b~c" ∷ []); ok (unquote_json reader node))
select_key-pointer_example = select_key-pointer reader doc (codes "a/b~c") []
