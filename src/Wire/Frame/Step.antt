-- ===== src/Wire/Frame/Step.antt =====
-- One round of ParseFrames: what it takes, and that later bytes do not change its answer.
use mathlib.Core.Logic.{◌≢◌}
use native.Mathlib.Decide.{dec_lt}
use fear_online_server.Prelude.{
  ℕ, ◌+◌, ◌≤◌, ◌≡◌, refl, ap, arith, List, ◌++◌, length, drop, length-append, length-drop,
  take-append, drop-append,
}
use fear_online_server.Prelude.Int.{ℤ, pos, negsuc}
use fear_online_server.Wire.Bytes.{read_uint16, read_uint16-append}
use fear_online_server.Wire.Varint.{Decoded, value, incomplete, too_long, decode_var_int}
use fear_online_server.Wire.Varint.Decode.{decode_takes, decode-append}
use fear_online_server.Wire.Frame.{
  Frame, stuck, Round, wait, next, fail, frame_body, frame_length, frame_round,
}

frame_body_takes :
    (marker : ℕ) (rest : List ℕ) (len : ℤ) (n : ℕ) (f : Frame) (r : List ℕ)
    → 1 ≤ n
    → frame_body marker rest len n ≡ next f r
    → length r + 3 ≤ length rest
unfolding frame_body
frame_body_takes marker rest (negsuc m) n f r h e = absurd (cc)
frame_body_takes marker rest (pos len) n f r h e =
    ground (arith, length-drop (2 + n + len) rest, λ (q : drop (2 + n + len) rest ≡ r). ap length q)

frame_length_takes :
    (marker : ℕ) (rest : List ℕ) (d : Decoded) (f : Frame) (r : List ℕ)
    → decode_var_int rest 2 ≡ d
    → frame_length marker rest d ≡ next f r
    → length r + 3 ≤ length rest
unfolding frame_length
frame_length_takes marker rest incomplete f r q e = absurd (cc)
frame_length_takes marker rest too_long f r q e = absurd (cc)
frame_length_takes marker rest (value len n) f r q e =
    frame_body_takes marker rest len n f r (decode_takes rest 2 len n q).0 e

-- A frame that is parsed takes three bytes at least.
pub frame_round_takes :
    (rest : List ℕ) (f : Frame) (r : List ℕ)
    → frame_round rest ≡ next f r
    → length r + 3 ≤ length rest
unfolding frame_round
frame_round_takes rest f r e =
    ground (arith, frame_length_takes (read_uint16 rest) rest (decode_var_int rest 2) f r refl)

-- The answer of a round with more bytes behind the buffer.
abbrev pub extend : List ℕ → Round → Round
extend more wait = wait
extend more (next f r) = next f (r ++ more)
extend more (fail e) = fail e

frame_body-append :
    (marker : ℕ) (rest more : List ℕ) (len : ℤ) (n : ℕ)
    → 2 + n ≤ length rest
    → frame_body marker rest len n ≢ wait
    → frame_body marker (rest ++ more) len n ≡ extend more (frame_body marker rest len n)
unfolding frame_body
frame_body-append marker rest more (negsuc m) n h w = refl
frame_body-append marker rest more (pos len) n h w = ground (
  arith,
  length-append rest more,
  drop-append (2 + n) rest more h,
  drop-append (2 + n + len) rest more,
  length-drop (2 + n) rest,
  take-append len (drop (2 + n) rest) more,
)

frame_length-append :
    (marker : ℕ) (rest more : List ℕ) (d : Decoded)
    → decode_var_int rest 2 ≡ d
    → frame_length marker rest d ≢ wait
    → frame_length marker (rest ++ more) d ≡ extend more (frame_length marker rest d)
unfolding frame_length
frame_length-append marker rest more incomplete q w = refl
frame_length-append marker rest more too_long q w = refl
frame_length-append marker rest more (value len n) q w =
    frame_body-append marker rest more len n (decode_takes rest 2 len n q).2 w

frame_length-wait :
    (marker : ℕ) (rest : List ℕ) (d : Decoded) → frame_length marker rest d ≢ wait → d ≢ incomplete
unfolding frame_length
frame_length-wait marker rest d w q = w (ap (frame_length marker rest) q)

-- A round that does not wait gives the same answer when more bytes have arrived.
pub frame_round-append :
    (rest more : List ℕ)
    → frame_round rest ≢ wait
    → frame_round (rest ++ more) ≡ extend more (frame_round rest)
unfolding frame_round
frame_round-append rest more w = elim (dec_lt (length rest) 3) [
  | yes short ↦ absurd (w (ground arith))
  | no enough ↦ ground (
    arith,
    length-append rest more,
    read_uint16-append rest more,
    decode-append rest more 2,
    frame_length-wait (read_uint16 rest) rest (decode_var_int rest 2),
    frame_length-append (read_uint16 rest) rest more (decode_var_int rest 2) refl,
  )
]

frame_length-ne-stuck :
    (marker : ℕ) (rest : List ℕ) (d : Decoded) → frame_length marker rest d ≢ fail stuck
unfolding frame_length frame_body
frame_length-ne-stuck marker rest incomplete = λ e. cc
frame_length-ne-stuck marker rest too_long = λ e. cc
frame_length-ne-stuck marker rest (value (negsuc m) n) = λ e. cc
frame_length-ne-stuck marker rest (value (pos len) n) = ground arith

pub frame_round-ne-stuck : (rest : List ℕ) → frame_round rest ≢ fail stuck
unfolding frame_round
frame_round-ne-stuck rest =
    ground (arith, frame_length-ne-stuck (read_uint16 rest) rest (decode_var_int rest 2))
