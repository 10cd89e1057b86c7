-- ===== src/Sse/RoundTrip.antt =====
-- providers/httpcore/sse.go against server/wire.go: the frames of a watch, written and read.
use mamori.Prelude.{
  ℕ, zero, suc, ◌+◌, ◌≤◌, ◌<◌, ◌≡◌, refl, ap, ◌∙◌, true, false, some, List, [], ◌∷◌, ◌++◌, Text,
  codes, length, ltb, All, arith, str_eq,
}
use mamori.Strings.{cut, trim_prefix, strip}
use mamori.Server.Wire.{ValueBody, Frame}
use mamori.Sse.{
  SseEvent, SseConfig, eof, ScanEnd, at_end, Partial, got, goes_on, read_line, read_field,
  value_text, after_line, scan_end, next_loop, next, read_all, read_on, collected, frame_lines,
  no_field,
}

line_fits :
    (cfg : SseConfig) (scan_err : ScanEnd) (line : Text) (lines : List Text) (p : Partial)
    → length line ≤ cfg.max_line
    → next_loop cfg scan_err (line ∷ lines) p
      ≡ after_line (read_line cfg.max_frame p line) (next_loop cfg scan_err lines) lines
unfolding next_loop
line_fits cfg scan_err line lines p h =
    let fits : ltb cfg.max_line (length line) ≡ false = ground arith in rw fits refl

read_line_event :
    (max_frame : ℕ) (p : Partial) (name : Text)
    → read_line max_frame p (codes "event: " ++ name)
      ≡ goes_on (record p { name = name; have_field = true })
unfolding read_line cut trim_prefix strip read_field value_text str_eq
read_line_event max_frame p name = refl

read_line_data :
    (max_frame : ℕ) (p : Partial) (payload : Text)
    → p.have_data ≡ false
    → p.payload ≡ []
    → length payload ≤ max_frame
    → read_line max_frame p (codes "data: " ++ payload)
      ≡ goes_on (record p { payload = payload; have_field = true; have_data = true })
unfolding read_line cut trim_prefix strip read_field value_text str_eq
read_line_data max_frame p payload first empty fits =
    let small : ltb max_frame (0 + length payload) ≡ false = ground arith in
    rw (first, empty, small) refl

module _ (marshal : ValueBody → Text) where
  -- What a client is to read of a frame.
  abbrev pub event_of : Frame → List SseEvent
  event_of (Frame.update body) = record { name = codes "update"; payload = marshal body } ∷ []
  event_of (Frame.error body) = record { name = codes "error"; payload = marshal body } ∷ []
  event_of Frame.heartbeat = []

  abbrev pub events_of : List Frame → List SseEvent
  events_of [] = []
  events_of (f ∷ frames) = event_of f ++ events_of frames

  abbrev pub stream_lines : List Frame → List Text
  stream_lines [] = []
  stream_lines (f ∷ frames) = frame_lines marshal f ++ stream_lines frames

  abbrev payload_of : Frame → Text
  payload_of (Frame.update body) = marshal body
  payload_of (Frame.error body) = marshal body
  payload_of Frame.heartbeat = []

  -- The data line and the data of a frame are within the limits.
  abbrev pub Fits : SseConfig → Frame → Type 0
  Fits cfg f = (length (payload_of f) + 6 ≤ cfg.max_line) × (length (payload_of f) ≤ cfg.max_frame)

module _ (cfg : SseConfig) (scan_err : ScanEnd) (wide : 13 ≤ cfg.max_line) where
  next-event :
      (name payload : Text) (rest : List Text)
      → length (codes "event: " ++ name) ≤ cfg.max_line
      → length payload + 6 ≤ cfg.max_line
      → length payload ≤ cfg.max_frame
      → next cfg scan_err ((codes "event: " ++ name) ∷ (codes "data: " ++ payload) ∷ [] ∷ rest)
        ≡ got (record { name = name; payload = payload }) rest
  unfolding next after_line read_line
  next-event name payload rest short line frame =
      let blank : Text = [] in
      let named : Partial = record no_field { name = name; have_field = true } in
      let full : Partial = record named { payload = payload; have_data = true } in
      let behind = next_loop cfg scan_err in
      let data_line : Text = codes "data: " ++ payload in
      let data_fits : length data_line ≤ cfg.max_line = omega arith in
      let blank_fits : length blank ≤ cfg.max_line = omega arith in
      line_fits cfg scan_err (codes "event: " ++ name) (data_line ∷ [] ∷ rest) no_field short
      ∙ ap (λ x. after_line x (behind (data_line ∷ [] ∷ rest)) (data_line ∷ [] ∷ rest))
          (read_line_event cfg.max_frame no_field name)
      ∙ line_fits cfg scan_err data_line ([] ∷ rest) named data_fits
      ∙ ap (λ x. after_line x (behind ([] ∷ rest)) ([] ∷ rest))
          (read_line_data cfg.max_frame named payload refl refl frame)
      ∙ line_fits cfg scan_err [] rest full blank_fits

  next-heartbeat :
      (rest : List Text)
      → next cfg scan_err (codes ": heartbeat" ∷ [] ∷ rest) ≡ next cfg scan_err rest
  unfolding next after_line read_line
  next-heartbeat rest =
      let beat : Text = codes ": heartbeat" in
      let blank : Text = [] in
      let beat_fits : length beat ≤ cfg.max_line = omega arith in
      let blank_fits : length blank ≤ cfg.max_line = omega arith in
      line_fits cfg scan_err beat ([] ∷ rest) no_field beat_fits
      ∙ line_fits cfg scan_err [] rest no_field blank_fits

-- A server writes any frames to a watch stream, updates, errors and heartbeats: a reader of the stream
-- gets the updates and the errors, each once, in order and with the very data, and then the end of the
-- stream, if each frame is within the limits of the decoder.
pub read_all-frame_lines :
    (marshal : ValueBody → Text) (cfg : SseConfig) (frames : List Frame) (fuel : ℕ)
    → 13 ≤ cfg.max_line
    → All (Fits marshal cfg) frames
    → length frames < fuel
    → read_all fuel cfg at_end (stream_lines marshal frames) ≡ some (events_of marshal frames, eof)
unfolding read_all read_on collected frame_lines next next_loop scan_end
read_all-frame_lines marshal cfg frames zero wide fit h = absurd (omega (arith, h))
read_all-frame_lines marshal cfg [] (suc fuel) wide fit h = refl
read_all-frame_lines marshal cfg (Frame.update body ∷ frames) (suc fuel) wide ((line, frame), fit)
      h =
    let short : length (codes "event: update") ≤ cfg.max_line = omega (arith, wide) in
    ap (λ x. read_on x (read_all fuel cfg at_end))
      (next-event cfg at_end wide (codes "update") (marshal body) (stream_lines marshal frames)
        short line frame)
    ∙ ap (collected _) (read_all-frame_lines marshal cfg frames fuel wide fit (omega (arith, h)))
read_all-frame_lines marshal cfg (Frame.error body ∷ frames) (suc fuel) wide ((line, frame), fit)
      h =
    let short : length (codes "event: error") ≤ cfg.max_line = omega (arith, wide) in
    ap (λ x. read_on x (read_all fuel cfg at_end))
      (next-event cfg at_end wide (codes "error") (marshal body) (stream_lines marshal frames) short
        line frame)
    ∙ ap (collected _) (read_all-frame_lines marshal cfg frames fuel wide fit (omega (arith, h)))
read_all-frame_lines marshal cfg (Frame.heartbeat ∷ frames) (suc fuel) wide (_, fit) h =
    ap (λ x. read_on x (read_all fuel cfg at_end))
      (next-heartbeat cfg at_end wide (stream_lines marshal frames))
    ∙ read_all-frame_lines marshal cfg frames (suc fuel) wide fit (omega (arith, h))
