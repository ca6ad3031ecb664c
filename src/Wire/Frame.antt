-- ===== src/Wire/Frame.antt =====
-- server/internal/proudnet/frame.go: a frame is a marker, a length and a payload. ParseFrames' loop
-- carries the suffix `buf[offset:]` in place of the offset.
pub mod Step
pub mod Stream
pub mod RoundTrip
use fear_online_server.Prelude.{
  ℕ, zero, suc, ◌+◌, ◌*◌, ◌||◌, ltb, ◌==◌, if◌then◌else◌, List, [], ◌∷◌, ◌++◌, Option, none, some,
  length, take, drop, not,
}
use fear_online_server.Prelude.Int.{ℤ, pos, negsuc}
use fear_online_server.Wire.Bytes.{append_uint16, read_uint16}
use fear_online_server.Wire.Varint.{
  encode_var_int, Decoded, value, incomplete, too_long, decode_var_int,
}

abbrev pub marker_reliable : ℕ
marker_reliable = 0x5713

abbrev pub marker_unreliable : ℕ
marker_unreliable = 0x5813

abbrev pub max_frame_length : ℕ
max_frame_length = 1024 * 1024

pub record Frame : Type 0 where
  pub marker : ℕ
  pub payload : List ℕ

unfoldable pub encode_frame : ℕ → List ℕ → List ℕ
unfolding append_uint16
encode_frame marker payload =
    append_uint16 [] marker ++ (encode_var_int (pos (length payload)) ++ payload)

-- `stuck` is no error of the source: the loop ran out of its fuel.
pub data FrameError : Type 0 where
  unknown_marker : ℕ → FrameError
  var_int_too_long : FrameError
  invalid_length : ℤ → FrameError
  stuck : FrameError

-- One round of the loop: `break`, the next frame with what follows it, or an error.
pub data Round : Type 0 where
  wait : Round
  next : Frame → List ℕ → Round
  fail : FrameError → Round

frame_body : ℕ → List ℕ → ℤ → ℕ → Round
frame_body marker rest (negsuc m) n = fail (invalid_length (negsuc m))
frame_body marker rest (pos len) n =
    let payload_offset = 2 + n in
    let frame_end = payload_offset + len in
    if ltb max_frame_length len
    then fail (invalid_length (pos len))
    else if ltb (length rest) frame_end
    then wait
    else next (record { marker = marker; payload = take len (drop payload_offset rest) })
        (drop frame_end rest)

frame_length : ℕ → List ℕ → Decoded → Round
unfolding frame_body
frame_length marker rest incomplete = wait
frame_length marker rest too_long = fail var_int_too_long
frame_length marker rest (value len n) = frame_body marker rest len n

unfoldable pub frame_round : List ℕ → Round
unfolding frame_length read_uint16
frame_round rest =
    let marker = read_uint16 rest in
    if ltb (length rest) 3
    then wait
    else if marker == marker_reliable || marker == marker_unreliable
    then frame_length marker rest (decode_var_int rest 2)
    else fail (unknown_marker marker)

pub record Parsed : Type 0 where
  pub frames : List Frame
  pub remaining : List ℕ
  pub error : Option FrameError

-- The case on a round, with the rest of the loop for `next`.
abbrev continue : Round → List ℕ → List Frame → (List ℕ → List Frame → Parsed) → Parsed
continue wait rest frames loop = record { frames = frames; remaining = rest; error = none }
continue (fail e) rest frames loop = record { frames = frames; remaining = rest; error = some e }
continue (next f rest') rest frames loop = loop rest' (frames ++ (f ∷ []))

unfoldable pub parse_loop : ℕ → List ℕ → List Frame → Parsed
parse_loop zero rest frames = record { frames = frames; remaining = rest; error = some stuck }
parse_loop (suc fuel) rest frames = continue (frame_round rest) rest frames (parse_loop fuel)

-- Each frame takes three bytes at least.
unfoldable pub parse_frames : List ℕ → Parsed
unfolding parse_loop
parse_frames buf = parse_loop (suc (length buf)) buf []
