-- ===== src/Decode.antt =====
-- decodeopt.go: the ?decode= pipeline. The base64, hex and gzip readers are the standard library's
-- and enter as the record `Codecs`.
pub mod Tests
pub mod Laws
use mamori.Prelude.{
  ℕ, ◌+◌, ◌*◌, ◌^◌, Bool, true, false, Option, none, some, List, [], ◌∷◌, Text, codes, str_eq, ltb,
  if◌then◌else◌, is_empty, length,
}
use mamori.Errors.{Error, Sentinel, sentinel, wrap, wrap2, Result, ok, err, is, ◌>>=◌}
use mamori.Strings.{trim_space, split}
use mamori.Ref.{Ref, opt}
use mamori.Value.{Value}

-- `gzip_read n b` is io.ReadAll of io.LimitReader(zr, n) over the gzip stream b.
pub record Codecs : Type 0 where
  pub base64 : Text → Result Text
  pub base64url : Text → Result Text
  pub hex : Text → Result Text
  pub gzip_read : ℕ → Text → Result Text

abbrev pub max_gzip_decoded : ℕ
max_gzip_decoded = 16 * 2 ^ 20

module _ (c : Codecs) where
  unfoldable pub gunzip : Text → Result Text
  gunzip b = do
    out ← c.gzip_read (max_gzip_decoded + 1) b
    if ltb max_gzip_decoded (length out) then err (wrap (sentinel Sentinel.invalid)) else ok out

  -- decodeCodings
  unfoldable pub decode_coding : Text → Option (Text → Result Text)
  unfolding str_eq
  decode_coding name =
      if str_eq name (codes "base64")
      then some (λ b. c.base64 (trim_space b))
      else if str_eq name (codes "base64url")
      then some (λ b. c.base64url (trim_space b))
      else if str_eq name (codes "hex")
      then some (λ b. c.hex (trim_space b))
      else if str_eq name (codes "gzip")
      then some gunzip
      else if str_eq name (codes "trim")
      then some (λ b. ok (trim_space b))
      else none

  -- The loop of parseDecodePipeline over the parts of the option.
  unfoldable pub parse_steps : List Text → Result (List (Text → Result Text))
  parse_steps [] = ok []
  parse_steps (p ∷ ps) = elim (decode_coding (trim_space p)) [
    | none ↦ err (wrap (sentinel Sentinel.invalid))
    | some fn ↦ do fns ← parse_steps ps; ok (fn ∷ fns)
  ]

  unfoldable pub parse_decode_pipeline : Text → Result (List (Text → Result Text))
  unfolding parse_steps
  parse_decode_pipeline spec = if is_empty spec then ok [] else parse_steps (split b',' spec)

-- A failure that is not classified yet is wrapped beside ErrInvalid.
abbrev pub decode_failed : Error → Error
decode_failed e = if is e Sentinel.invalid then wrap e else wrap2 (sentinel Sentinel.invalid) e

unfoldable pub run_steps : List (Text → Result Text) → Text → Result Text
run_steps [] b = ok b
run_steps (fn ∷ fns) b = elim (fn b) [ ok d ↦ run_steps fns d | err e ↦ err (decode_failed e) ]

module _ (c : Codecs) where
  unfoldable pub apply_decode : Ref → Value → Result Value
  apply_decode ref v = elim (parse_decode_pipeline c (opt ref (codes "decode"))) [
    | err e ↦ err (wrap e)
    | ok steps ↦ do b ← run_steps steps v.bytes; ok (record v { bytes = b })
  ]
