-- ===== src/Decode/Tests.antt =====
-- The theorems on ?decode= at concrete values, with decoders that stand for the standard library's.
use mamori.Prelude.{
  ◌+◌, ltb, take, ◌≡◌, refl, true, [], ◌∷◌, Text, codes, length, str_eq, get, if◌then◌else◌,
  is_empty,
}
use mamori.Errors.{Sentinel, sentinel, wrap, opaque, Result, ok, err, is}
use mamori.Strings.{trim_space, split}
use mamori.Ref.{Ref, opt}
use mamori.Value.{Value}
use mamori.Decode.{
  Codecs, gunzip, max_gzip_decoded, apply_decode, decode_failed, parse_decode_pipeline,
  decode_coding, run_steps,
}
use mamori.Decode.Laws.{gunzip_whole, apply_decode-invalid}

-- A reader that refuses an empty text.
abbrev read_text : Text → Result Text
read_text b = if is_empty b then err (opaque (codes "illegal")) else ok b

abbrev pub test_codecs : Codecs
test_codecs = record {
  base64 = read_text;
  base64url = read_text;
  hex = read_text;
  gzip_read = λ n b. ok (take n (codes "ab"));
}

abbrev hex_ref : Ref
hex_ref = record {
  scheme = codes "env";
  path = codes "A";
  key = [];
  opts = (codes "decode", codes "hex" ∷ []) ∷ [];
  raw = codes "env:A?decode=hex";
}

abbrev given : Text → Value
given b = record { bytes = b; version = codes "v1"; sensitive = true; not_after = 0; metadata = [] }

-- The stream of every gzip text here.
abbrev stream : Text
stream = codes "ab"

reads_stream :
    test_codecs.gzip_read (max_gzip_decoded + 1) (codes "z")
    ≡ ok (take (max_gzip_decoded + 1) stream)
reads_stream = refl

gunzip_whole_example : gunzip test_codecs (codes "z") ≡ (
    if ltb max_gzip_decoded (length stream)
    then err (wrap (sentinel Sentinel.invalid))
    else ok stream)
gunzip_whole_example = gunzip_whole test_codecs (codes "z") stream reads_stream

apply_decode-invalid_example : is (decode_failed (opaque (codes "illegal"))) Sentinel.invalid ≡ true
unfolding apply_decode parse_decode_pipeline decode_coding opt run_steps str_eq trim_space split get
apply_decode-invalid_example =
    apply_decode-invalid test_codecs hex_ref (given []) (decode_failed (opaque (codes "illegal")))
      refl
