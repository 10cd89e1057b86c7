-- ===== src/Sse/Tests.antt =====
-- The stream decoder at concrete inputs: a heartbeat between two frames, and lines of no meaning.
use mamori.Prelude.{◌≡◌, none, some, List, [], ◌∷◌, Text, codes, All, arith, false}
use mamori.Errors.{Kind}
use mamori.Server.Wire.{ValueBody, Frame}
use mamori.Sse.{SseConfig, ScanEnd, eof, read_all}
use mamori.Sse.RoundTrip.{events_of, stream_lines, Fits, read_all-frame_lines}
use mamori.Sse.Limits.{Reads, read_all-Reads}

abbrev small : SseConfig
small = record { max_line = 20; max_frame = 12 }

abbrev body : ValueBody
body = record {
  name = codes "db";
  bytes = codes "v";
  version = [];
  sensitive = false;
  not_after = none;
  metadata = [];
  kind = Kind.blank;
  error = none;
  resolved_at = none;
  stale = false;
}

abbrev marshal : ValueBody → Text
marshal b = b.name

abbrev frames : List Frame
frames = Frame.update body ∷ Frame.heartbeat ∷ Frame.error body ∷ []

frames_fit : All (Fits marshal small) frames
frames_fit =
    ((omega arith, omega arith), ((omega arith, omega arith), ((omega arith, omega arith), tt)))

read_all-frame_lines_example :
    read_all 4 small ScanEnd.at_end (stream_lines marshal frames)
    ≡ some (events_of marshal frames, eof)
read_all-frame_lines_example =
    read_all-frame_lines marshal small frames 4 (omega arith) frames_fit (omega arith)

abbrev odd_lines : List Text
odd_lines = codes "data: abc" ∷ codes "id: 7" ∷ codes "data" ∷ [] ∷ codes "data: 0123456789abc" ∷ []

read_all-Reads_example : Reads small ScanEnd.too_long (read_all 6 small ScanEnd.too_long odd_lines)
read_all-Reads_example = read_all-Reads small ScanEnd.too_long 6 odd_lines (omega arith)
