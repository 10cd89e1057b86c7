-- ===== src/Sse/Limits.antt =====
-- providers/httpcore/sse.go: the limits of the decoder and the end of a read.
use mamori.Prelude.{
  ℕ, zero, suc, ◌+◌, ◌≤◌, ◌<◌, ◌≡◌, refl, ap, true, false, inl, inr, Option, some, List, [], ◌∷◌,
  ◌++◌, Text, codes, if◌then◌else◌, length, length-append, ltb, All, Bool-cases, arith, str_eq,
  ◌==◌,
}
use mamori.Sse.{
  SseEvent, SseConfig, SseEnd, ScanEnd, Partial, LineRead, NextRead, got, ended, goes_on,
  event_read, fails, read_line, read_field, after_line, next_loop, next, read_all, read_on,
  collected, no_field, frame_too_long,
}

module _ (max_frame : ℕ) where
  -- No data beyond the limit, in what a line leaves and in what it ends.
  IsSmall : LineRead → Type 0
  IsSmall (goes_on p) = length p.payload ≤ max_frame
  IsSmall (event_read ev) = length ev.payload ≤ max_frame
  IsSmall (fails e) = Unit

  read_data-IsSmall :
      (p : Partial) (value : Text)
      → length p.payload ≤ max_frame
      → IsSmall (
          if ltb max_frame
            (length p.payload + (if p.have_data then length value + 1 else length value))
          then fails frame_too_long
          else goes_on (record p {
            payload = (if p.have_data then p.payload ++ b'\n' ∷ [] else p.payload) ++ value;
            have_field = true;
            have_data = true;
          }))
  unfolding IsSmall
  read_data-IsSmall p value h = elim (Bool-cases p.have_data) [
    | inl again ↦ elim (Bool-cases (ltb max_frame (length p.payload + (length value + 1)))) [
      | inl over ↦ rw (again, over) tt
      | inr under ↦
          rw (again, under)
            (omega (
              arith,
              under_le under,
              length-append (p.payload ++ b'\n' ∷ []) value,
              length-append p.payload (b'\n' ∷ []),
            ))
    ]
    | inr first ↦ elim (Bool-cases (ltb max_frame (length p.payload + length value))) [
      | inl over ↦ rw (first, over) tt
      | inr under ↦ rw (first, under) (omega (arith, under_le under, length-append p.payload value))
    ]
  ]
    where
      under_le : {n : ℕ} → ltb max_frame n ≡ false → n ≤ max_frame
      under_le h = ground arith

  read_field-IsSmall :
      (p : Partial) (field value : Text)
      → length p.payload ≤ max_frame
      → IsSmall (read_field max_frame p field value)
  unfolding read_field IsSmall
  read_field-IsSmall p field value h = elim (Bool-cases (str_eq field (codes "event"))) [
    | inl event ↦ rw event h
    | inr other ↦ elim (Bool-cases (str_eq field (codes "data"))) [
      | inl more ↦ rw (other, more) (read_data-IsSmall p value h)
      | inr unknown ↦ rw (other, unknown) h
    ]
  ]

  read_line-IsSmall :
      (p : Partial) (line : Text)
      → length p.payload ≤ max_frame
      → IsSmall (read_line max_frame p line)
  unfolding read_line IsSmall
  read_line-IsSmall p [] h = elim (Bool-cases p.have_field) [
    | inl whole ↦ rw whole h
    | inr nothing ↦ rw nothing h
  ]
  read_line-IsSmall p (c ∷ line) h = elim (Bool-cases (c == b':')) [
    | inl comment ↦ rw comment h
    | inr field ↦ rw field (read_field-IsSmall p _ _ h)
  ]

  -- What Next gives of so many lines.
  IsBounded : ℕ → NextRead → Type 0
  IsBounded lines (got ev rest) = (length ev.payload ≤ max_frame) × (length rest < lines)
  IsBounded lines (ended e) = Unit

  IsBounded-suc : (n : ℕ) (r : NextRead) → IsBounded n r → IsBounded (suc n) r
  unfolding IsBounded
  IsBounded-suc n (got ev rest) (small, fewer) = (small, omega (arith, fewer))
  IsBounded-suc n (ended e) h = tt

  after_line-IsBounded :
      (r : LineRead) (behind : Partial → NextRead) (lines : List Text)
      → ((p : Partial) → length p.payload ≤ max_frame → IsBounded (length lines) (behind p))
      → IsSmall r
      → IsBounded (suc (length lines)) (after_line r behind lines)
  unfolding after_line IsBounded IsSmall
  after_line-IsBounded (goes_on p) behind lines rest h =
      IsBounded-suc (length lines) (behind p) (rest p h)
  after_line-IsBounded (event_read ev) behind lines rest h = (h, omega arith)
  after_line-IsBounded (fails e) behind lines rest h = tt

module _ (cfg : SseConfig) (scan_err : ScanEnd) where
  next_loop-IsBounded :
      (lines : List Text) (p : Partial)
      → length p.payload ≤ cfg.max_frame
      → IsBounded cfg.max_frame (length lines) (next_loop cfg scan_err lines p)
  unfolding next_loop IsBounded
  next_loop-IsBounded [] p h = tt
  next_loop-IsBounded (line ∷ lines) p h = elim (Bool-cases (ltb cfg.max_line (length line))) [
    | inl long ↦ rw long tt
    | inr short ↦ rw short (
        after_line-IsBounded cfg.max_frame (read_line cfg.max_frame p line)
          (next_loop cfg scan_err lines) lines (next_loop-IsBounded lines)
          (read_line-IsSmall cfg.max_frame p line h))
  ]

  abbrev pub Reads : Option (List SseEvent × SseEnd) → Type 0
  Reads out =
      (events : List SseEvent) × (e : SseEnd) × (out ≡ some (events, e))
      × All (λ ev. length ev.payload ≤ cfg.max_frame) events

  read_on-Reads :
      (r : NextRead) (fuel n : ℕ)
      → IsBounded cfg.max_frame n r
      → n ≤ fuel
      → ((rest : List Text) → length rest < fuel → Reads (read_all fuel cfg scan_err rest))
      → Reads (read_on r (read_all fuel cfg scan_err))
  unfolding read_on collected IsBounded
  read_on-Reads (ended e) fuel n b h others = ([], e, refl, tt)
  read_on-Reads (got ev rest) fuel n (small, fewer) h others =
      let (events, e, same, all_small) = others rest (omega (arith, fewer, h)) in
      (ev ∷ events, e, ap (collected ev) same, (small, all_small))

  -- A reader gets to the end of every stream, whatever its lines are: with more fuel than lines the
  -- read gives some events and the end, and no event carries more data than the limit on a frame.
  pub read_all-Reads :
      (fuel : ℕ) (lines : List Text)
      → length lines < fuel
      → Reads (read_all fuel cfg scan_err lines)
  unfolding read_all next
  read_all-Reads zero lines h = absurd (omega (arith, h))
  read_all-Reads (suc fuel) lines h =
      read_on-Reads (next cfg scan_err lines) fuel (length lines)
        (next_loop-IsBounded lines no_field (omega arith)) (omega (arith, h)) (read_all-Reads fuel)
