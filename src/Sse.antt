-- ===== src/Sse.antt =====
-- providers/httpcore/sse.go: the decoder of a server-sent event stream, and server/wire.go: what writes
-- one. bufio.Scanner is a parameter: the lines that it gives, and how it ended.
pub mod RoundTrip
pub mod Limits
pub mod Tests
use mamori.Prelude.{
  ℕ, zero, suc, ◌+◌, ◌==◌, ltb, Bool, true, false, Option, none, some, List, [], ◌∷◌, ◌++◌, Text,
  codes, if◌then◌else◌, length, str_eq,
}
use mamori.Errors.{Error}
use mamori.Strings.{cut, trim_prefix}
use mamori.Server.Wire.{ValueBody, Frame}

pub record SseEvent : Type 0 where
  pub name : Text
  pub payload : Text

pub record SseConfig : Type 0 where
  pub max_line : ℕ
  pub max_frame : ℕ

-- NewSSEDecoder, for limits that are not negative; and the default of both.
abbrev pub default_sse_max : ℕ
default_sse_max = 1048576

unfoldable pub with_defaults : SseConfig → SseConfig
with_defaults cfg = record {
  max_line = if cfg.max_line == 0 then default_sse_max else cfg.max_line;
  max_frame = if cfg.max_frame == 0 then default_sse_max else cfg.max_frame;
}

pub data SseEnd : Type 0 where
  line_too_long frame_too_long eof : SseEnd
  scan_failed : Error → SseEnd

-- How the scanner ended: with no error, with bufio.ErrTooLong, or with another.
pub data ScanEnd : Type 0 where
  at_end too_long : ScanEnd
  broken : Error → ScanEnd

-- The variables of Next.
pub record Partial : Type 0 where
  pub name : Text
  pub payload : Text
  pub have_field : Bool
  pub have_data : Bool

abbrev pub no_field : Partial
no_field = record { name = []; payload = []; have_field = false; have_data = false }

pub data LineRead : Type 0 where
  goes_on : Partial → LineRead
  event_read : SseEvent → LineRead
  fails : SseEnd → LineRead

value_text : Option Text → Text
value_text none = []
value_text (some value) = value

read_field : ℕ → Partial → Text → Text → LineRead
read_field max_frame p field value =
    if str_eq field (codes "event")
    then goes_on (record p { name = value; have_field = true })
    else if str_eq field (codes "data")
    then if ltb max_frame
        (length p.payload + (if p.have_data then length value + 1 else length value))
      then fails frame_too_long
      else goes_on (record p {
        payload = (if p.have_data then p.payload ++ b'\n' ∷ [] else p.payload) ++ value;
        have_field = true;
        have_data = true;
      })
    else goes_on p

-- The switch of Next on a line within the limit.
read_line : ℕ → Partial → Text → LineRead
unfolding read_field value_text
read_line max_frame p [] =
    if p.have_field then event_read (record { name = p.name; payload = p.payload }) else goes_on p
read_line max_frame p (c ∷ line) =
    if c == b':'
    then goes_on p
    else let parts = cut b':' (c ∷ line) in
      read_field max_frame p parts.0 (trim_prefix (b' ' ∷ []) (value_text parts.1))

-- What Next gives: an event with the lines behind it, or the end.
pub data NextRead : Type 0 where
  got : SseEvent → List Text → NextRead
  ended : SseEnd → NextRead

after_line : LineRead → (Partial → NextRead) → List Text → NextRead
after_line (goes_on p) next lines = next p
after_line (event_read ev) next lines = got ev lines
after_line (fails e) next lines = ended e

scan_end : ScanEnd → SseEnd
scan_end at_end = eof
scan_end too_long = line_too_long
scan_end (broken e) = scan_failed e

-- The loop of Next.
unfoldable pub next_loop : SseConfig → ScanEnd → List Text → Partial → NextRead
unfolding read_line after_line scan_end
next_loop cfg scan_err [] p = ended (scan_end scan_err)
next_loop cfg scan_err (line ∷ lines) p =
    if ltb cfg.max_line (length line)
    then ended line_too_long
    else after_line (read_line cfg.max_frame p line) (next_loop cfg scan_err lines) lines

unfoldable pub next : SseConfig → ScanEnd → List Text → NextRead
unfolding next_loop
next cfg scan_err lines = next_loop cfg scan_err lines no_field

-- The loop of a reader over Next, on fuel: each event takes a line at least.
collected : SseEvent → Option (List SseEvent × SseEnd) → Option (List SseEvent × SseEnd)
collected ev none = none
collected ev (some (events, e)) = some (ev ∷ events, e)

read_on : NextRead → (List Text → Option (List SseEvent × SseEnd)) → Option (List SseEvent × SseEnd)
unfolding collected
read_on (ended e) others = some ([], e)
read_on (got ev rest) others = collected ev (others rest)

unfoldable pub read_all : ℕ → SseConfig → ScanEnd → List Text → Option (List SseEvent × SseEnd)
unfolding next read_on
read_all zero cfg scan_err lines = none
read_all (suc fuel) cfg scan_err lines =
    read_on (next cfg scan_err lines) (read_all fuel cfg scan_err)

-- writeSSEValue, writeSSEError and writeSSEHeartbeat: the lines of a frame; `marshal` is json.Marshal,
-- which writes no line break.
unfoldable pub frame_lines : (ValueBody → Text) → Frame → List Text
frame_lines marshal (Frame.update body) =
    codes "event: update" ∷ (codes "data: " ++ marshal body) ∷ [] ∷ []
frame_lines marshal (Frame.error body) =
    codes "event: error" ∷ (codes "data: " ++ marshal body) ∷ [] ∷ []
frame_lines marshal Frame.heartbeat = codes ": heartbeat" ∷ [] ∷ []
