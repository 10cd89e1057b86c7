-- ===== src/Decode/Laws.antt =====
-- decodeopt.go: what gunzip gives, and how a decode pipeline fails.
use mamori.Prelude.{
  ℕ, zero, suc, ◌+◌, ◌≡◌, ◌≤◌, refl, false, ap, take, ltb, if◌then◌else◌, true, List, [], ◌∷◌, Text,
  codes, length, is_empty, arith, Bool-cases, inl, inr,
}
use mamori.Errors.{Error, Sentinel, sentinel, wrap, Result, ok, err, is, Result-cases, ◌>>=◌}
use mamori.Strings.{split}
use mamori.Ref.{Ref, opt}
use mamori.Value.{Value}
use mamori.Decode.{
  Codecs, gunzip, max_gzip_decoded, parse_steps, parse_decode_pipeline, run_steps, apply_decode,
  decode_failed,
}

take_all : {A : Type 0} (n : ℕ) (xs : List A) → length xs ≤ n → take n xs ≡ xs
take_all zero [] h = refl
take_all zero (x ∷ xs) h = absurd (omega (arith, h))
take_all (suc n) [] h = refl
take_all (suc n) (x ∷ xs) h = ap (λ l. x ∷ l) (take_all n xs (omega (arith, h)))

length-take_full : {A : Type 0} (n : ℕ) (xs : List A) → n ≤ length xs → length (take n xs) ≡ n
length-take_full zero xs h = refl
length-take_full (suc n) [] h = absurd (omega (arith, h))
length-take_full (suc n) (x ∷ xs) h = ap suc (length-take_full n xs (omega (arith, h)))

long_taken :
    (n : ℕ) (text : Text) → ltb n (length text) ≡ true → ltb n (length (take (n + 1) text)) ≡ true
long_taken n text h =
    let read : length (take (n + 1) text) ≡ n + 1 =
      length-take_full (n + 1) text (ground (arith, h)) in
    ground (arith, read)

short_taken : (n : ℕ) (text : Text) → ltb n (length text) ≡ false → take (n + 1) text ≡ text
short_taken n text h = take_all (n + 1) text (ground (arith, h))

-- gunzip asks its reader for 16 MiB and one byte, and the reader gives that many first bytes of the text
-- that the stream expands to, or all of a shorter text: then a text of up to 16 MiB comes back whole,
-- and a longer one is an ErrInvalid, never a text that is cut short.
pub gunzip_whole :
    (c : Codecs) (b text : Text)
    → c.gzip_read (max_gzip_decoded + 1) b ≡ ok (take (max_gzip_decoded + 1) text)
    → gunzip c b ≡ (
        if ltb max_gzip_decoded (length text)
        then err (wrap (sentinel Sentinel.invalid))
        else ok text)
unfolding gunzip
gunzip_whole c b text reads = elim (Bool-cases (ltb max_gzip_decoded (length text))) [
  | inl long ↦ rw (reads, long_taken max_gzip_decoded text long, long) refl
  | inr short ↦ rw (reads, short_taken max_gzip_decoded text short, short) refl
]

decode_failed-invalid : (e : Error) → is (decode_failed e) Sentinel.invalid ≡ true
unfolding is
decode_failed-invalid e = ground arith

parse_steps-invalid :
    (c : Codecs) (ps : List Text) (e : Error)
    → parse_steps c ps ≡ err e
    → is e Sentinel.invalid ≡ true
unfolding parse_steps is
parse_steps-invalid c [] e h = cc
parse_steps-invalid c (p ∷ ps) e h = ground (arith, parse_steps-invalid c ps e)

run_steps-invalid :
    (fns : List (Text → Result Text)) (b : Text) (e : Error)
    → run_steps fns b ≡ err e
    → is e Sentinel.invalid ≡ true
unfolding run_steps
run_steps-invalid [] b e h = cc
run_steps-invalid (fn ∷ fns) b e h = elim (Result-cases (fn b)) [
  | inl (d, good) ↦ run_steps-invalid fns d e (rw (good, run_steps) at h)
  | inr (f, bad) ↦ ground (arith, decode_failed-invalid f)
]

pipeline-invalid :
    (c : Codecs) (spec : Text) (e : Error)
    → parse_decode_pipeline c spec ≡ err e
    → is e Sentinel.invalid ≡ true
unfolding parse_decode_pipeline
pipeline-invalid c spec e h = elim (Bool-cases (is_empty spec)) [
  | inl none_given ↦ let h' : ok [] ≡ err e = rw none_given at h in cc
  | inr given ↦ parse_steps-invalid c (split b',' spec) e (rw given at h)
]

-- Every failure of a decode pipeline is an ErrInvalid: a coding that is unknown, and an error of any
-- decoder at any step, whatever that error is.
pub apply_decode-invalid :
    (c : Codecs) (ref : Ref) (v : Value) (e : Error)
    → apply_decode c ref v ≡ err e
    → is e Sentinel.invalid ≡ true
unfolding apply_decode is
apply_decode-invalid c ref v e h =
    elim (Result-cases (parse_decode_pipeline c (opt ref (codes "decode")))) [
      | inl (steps, good) ↦
          let decoded : (do b ← run_steps steps v.bytes; ok (record v { bytes = b })) ≡ err e =
            rw (good, apply_decode) at h in
          ground (arith, run_steps-invalid steps v.bytes e)
      | inr (f, bad) ↦
          let refused : err (wrap f) ≡ err e = rw (bad, apply_decode) at h in
          ground (arith, pipeline-invalid c (opt ref (codes "decode")) f bad)
    ]
