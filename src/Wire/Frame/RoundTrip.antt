-- ===== src/Wire/Frame/RoundTrip.antt =====
-- ParseFrames undoes EncodeFrame.
use fear_online_server.Prelude.{
  ℕ, suc, ◌+◌, ◌%◌, ◌/◌, ◌≤◌, ◌≡◌, refl, ap, ◌∙◌, ◌⊎◌, arith, List, [], ◌∷◌, ◌++◌, length, take,
  drop, length-append, append_assoc, take-length_append, drop-length_append, All,
}
use fear_online_server.Prelude.Int.{pos}
use fear_online_server.Wire.Bytes.{read_uint16}
use fear_online_server.Wire.Varint.{encode_var_int}
use fear_online_server.Wire.Varint.Encode.{encode_var_int_shape}
use fear_online_server.Wire.Varint.Decode.{decode-encode}
use fear_online_server.Wire.Frame.{
  Frame, marker_reliable, marker_unreliable, max_frame_length, encode_frame, next, frame_body,
  frame_length, frame_round, parse_loop, parse_frames,
}
use fear_online_server.Wire.Frame.Step.{frame_round_takes}
use fear_online_server.Wire.Frame.Stream.{
  behind, parse_loop_step, parse_loop_fuel, parse_loop-behind,
}

-- What the parser takes: one of the two markers, and a payload of at most 1 MB.
abbrev pub IsSendable : Frame → Type 0
IsSendable f =
    ((f.marker ≡ marker_reliable) ⊎ (f.marker ≡ marker_unreliable))
    × (length f.payload ≤ max_frame_length)

unfoldable pub encode_frames : List Frame → List ℕ
encode_frames [] = []
encode_frames (f ∷ fs) = encode_frame f.marker f.payload ++ encode_frames fs

-- The payload stands behind a head of `n + 2` bytes.
frame_body-encode :
    (marker : ℕ) (head payload rest : List ℕ) (n : ℕ)
    → length head ≡ 2 + n
    → length payload ≤ max_frame_length
    → frame_body marker (head ++ (payload ++ rest)) (pos (length payload)) n
      ≡ next (record { marker = marker; payload = payload }) rest
unfolding frame_body
frame_body-encode marker head payload rest n h fits = ground (
  arith,
  length-append head (payload ++ rest),
  length-append payload rest,
  behind_head,
  ap (take (length payload)) behind_head,
  take-length_append payload rest,
  behind_payload,
)
  where
    behind_head : drop (2 + n) (head ++ (payload ++ rest)) ≡ payload ++ rest
    behind_head = rw (← h) (drop-length_append head (payload ++ rest))

    behind_payload : drop (2 + n + length payload) (head ++ (payload ++ rest)) ≡ rest
    behind_payload =
        rw (← h, ← length-append head payload, ← append_assoc head payload rest)
          (drop-length_append (head ++ payload) rest)

-- The first round on an encoded frame gives the frame and leaves what follows it.
pub frame_round-encode :
    (f : Frame) (rest : List ℕ)
    → IsSendable f
    → frame_round (encode_frame f.marker f.payload ++ rest) ≡ next f rest
unfolding frame_round frame_length encode_frame read_uint16
frame_round-encode f rest (m, fits) = rw (append_assoc enc f.payload rest) (
    ground (
      arith,
      length-append enc (f.payload ++ rest),
      encode_var_int_shape (pos (length f.payload)),
      decode-encode (pos (length f.payload)) marker_bytes (f.payload ++ rest) (omega arith),
      frame_body-encode f.marker (marker_bytes ++ enc) f.payload rest (length enc) (omega arith)
          fits,
    ))
  where
    enc : List ℕ
    enc = encode_var_int (pos (length f.payload))

    marker_bytes : List ℕ
    marker_bytes = f.marker % 256 ∷ f.marker / 256 % 256 ∷ []

parse_frames_next :
    (f : Frame) (rest : List ℕ)
    → IsSendable f
    → parse_frames (encode_frame f.marker f.payload ++ rest) ≡ behind (f ∷ []) (parse_frames rest)
unfolding parse_frames
parse_frames_next f rest s =
    step
    ∙ parse_loop-behind (length buf) rest (f ∷ []) []
    ∙ ap (behind (f ∷ [])) (
        parse_loop_fuel (length buf) (suc (length rest)) rest []
          (omega (arith, frame_round_takes buf f rest (frame_round-encode f rest s))) (omega arith))
  where
    buf : List ℕ
    buf = encode_frame f.marker f.payload ++ rest

    step : parse_loop (suc (length buf)) buf [] ≡ parse_loop (length buf) rest (f ∷ [])
    step = parse_loop_step (length buf) buf [] (next f rest) (frame_round-encode f rest s)

-- ParseFrames reads back the frames that EncodeFrame wrote one after the other, and goes on with
-- the bytes behind them as it would alone. Each frame has one of the two markers and a payload of at
-- most 1 MB.
pub parse_frames-encode_frames :
    (fs : List Frame) (rest : List ℕ)
    → All IsSendable fs
    → parse_frames (encode_frames fs ++ rest) ≡ behind fs (parse_frames rest)
unfolding encode_frames
parse_frames-encode_frames [] rest h = refl
parse_frames-encode_frames (f ∷ fs) rest (s, h) =
    ap parse_frames (append_assoc (encode_frame f.marker f.payload) (encode_frames fs) rest)
    ∙ parse_frames_next f (encode_frames fs ++ rest) s
    ∙ ap (behind (f ∷ [])) (parse_frames-encode_frames fs rest h)
