-- ===== src/Wire/Varint/Decode.antt =====
-- What DecodeVarInt reads: it undoes EncodeVarInt, takes one to five bytes, and depends only on
-- those.
use mathlib.Core.Logic.{◌≢◌}
use mathlib.Core.Path.{ap₂}
use native.Mathlib.Decide.{dec_lt}
use native.Mathlib.Nat.{pow-suc}
use native.Mathlib.Numerals.{towards_suc}
use fear_online_server.Prelude.{
  ℕ, zero, suc, ◌+◌, ◌*◌, ◌/◌, ◌%◌, ◌^◌, ◌≤◌, ◌<◌, bit_and, bit_or, ◌≡◌, refl, ap, ◌∙◌, ◌⊎◌, inl,
  inr, arith, List, [], ◌∷◌, ◌++◌, length, drop, drop-append, drop-length_append, length-drop,
  length-append, append-nil,
}
use fear_online_server.Prelude.Bits.{and_0x7f, and_0x40, and_0x80, or_apart}
use fear_online_server.Prelude.Int.{
  ℤ, to_u32, to_u32_bound, from_bits32, from_bits32-to_u32, IsInt32,
}
use fear_online_server.Wire.Varint.{
  encode_var_int, Decoded, value, incomplete, too_long, decode_loop, decode_var_int,
}
use fear_online_server.Wire.Varint.Encode.{last_group, groups, encode-groups}

-- One round on the group `g`, which fits the word above the bits that are read.
accumulate :
    (g acc shift : ℕ)
    → g < 128
    → acc < 2 ^ shift
    → acc + g * 2 ^ shift < 2 ^ 32
    → bit_or acc (g * 2 ^ shift % 2 ^ 32) ≡ acc + g * 2 ^ shift
accumulate g acc shift hg ha fits =
    omega (arith, or_apart shift acc g ha, ap (bit_or acc) (small (g * 2 ^ shift) (omega arith)))
  where
    small : (n : ℕ) → n < 2 ^ 32 → n % 2 ^ 32 ≡ n
    small n h = omega arith

last_byte :
    (k w acc shift i : ℕ) (rest : List ℕ)
    → w < 64
    → acc < 2 ^ shift
    → acc + w * 2 ^ shift < 2 ^ 32
    → decode_loop (suc k) (w ∷ rest) acc shift i ≡ value (from_bits32 (acc + w * 2 ^ shift)) (i + 1)
unfolding decode_loop
last_byte k w acc shift i rest hw ha fits =
    rw (masked, accumulate w acc shift (omega arith) ha fits)
      (ground (arith, and_0x40 w, and_0x80 w))
  where
    masked : bit_and w 0x7f ≡ w
    masked = omega (arith, and_0x7f w)

inner_byte :
    (k g acc shift i : ℕ) (rest : List ℕ)
    → g < 128
    → acc < 2 ^ shift
    → acc + g * 2 ^ shift < 2 ^ 32
    → decode_loop (suc k) ((g + 128) ∷ rest) acc shift i
      ≡ decode_loop k rest (acc + g * 2 ^ shift) (shift + 7) (i + 1)
unfolding decode_loop
inner_byte k g acc shift i rest hg ha fits =
    rw (masked, accumulate g acc shift hg ha fits) (ground (arith, and_0x80 (g + 128)))
  where
    masked : bit_and (g + 128) 0x7f ≡ g
    masked = omega (arith, and_0x7f (g + 128))

shift_seven : (s : ℕ) → 2 ^ (s + 7) ≡ 128 * 2 ^ s
shift_seven s = simp towards_suc (omega arith)

-- The lowest group of `r` and the rest, both shifted by `s`.
split_group : (r s : ℕ) → r * 2 ^ s ≡ r % 128 * 2 ^ s + r / 128 * 2 ^ (s + 7)
split_group r s =
    omega (arith, ap (λ (t : ℕ). t * 2 ^ s) (whole r), ap (λ (t : ℕ). r / 128 * t) (shift_seven s))
  where
    whole : (r : ℕ) → r ≡ r % 128 + r / 128 * 128
    whole r = omega arith

group_bound : (g acc s : ℕ) → g < 128 → acc < 2 ^ s → acc + g * 2 ^ s < 2 ^ (s + 7)
group_bound g acc s hg ha = grind (arith, shift_seven s)

decode_loop-groups :
    (k r acc shift i : ℕ) (rest : List ℕ)
    → r < 16 * 128 ^ k
    → acc < 2 ^ shift
    → acc + r * 2 ^ shift < 2 ^ 32
    → decode_loop (suc k) (groups k r ++ rest) acc shift i
      ≡ value (from_bits32 (acc + r * 2 ^ shift)) (i + length (groups k r))
unfolding groups last_group
decode_loop-groups zero r acc shift i rest hr ha fits =
    ground (arith, last_byte 0 r acc shift i rest)
decode_loop-groups (suc k) r acc shift i rest hr ha fits = ground (
  arith,
  last_byte (suc k) r acc shift i rest,
  split_group r shift,
  group_bound (r % 128) acc shift,
  group_bound r acc shift,
  inner_byte (suc k) r acc shift i (0 ∷ rest),
  last_byte k 0 (acc + r * 2 ^ shift) (shift + 7) (i + 1) rest,
  inner_byte (suc k) (r % 128) acc shift i (groups k (r / 128) ++ rest),
  decode_loop-groups k (r / 128) (acc + r % 128 * 2 ^ shift) (shift + 7) (i + 1) rest
      (omega (arith, pow-suc 128 k)),
)

-- An int that does not fit 32 bits comes back as its low 32 bits.
pub decode-encode_bits :
    (v : ℤ) (front rest : List ℕ)
    → decode_var_int (front ++ (encode_var_int v ++ rest)) (length front)
      ≡ value (from_bits32 (to_u32 v)) (length (encode_var_int v))
unfolding decode_var_int
decode-encode_bits v front rest =
    rw (drop-length_append front (encode_var_int v ++ rest), encode-groups v)
      (decode_loop-groups 4 (to_u32 v) 0 0 0 rest (omega (arith, to_u32_bound v)) (omega arith)
          (omega (arith, to_u32_bound v))
        ∙ ap₂ value (ap from_bits32 (omega arith)) (omega arith))

-- DecodeVarInt, at the offset where EncodeVarInt's bytes begin, reads the int32 that was written and
-- counts those bytes, whatever stands before and behind them.
pub decode-encode :
    (v : ℤ) (front rest : List ℕ)
    → IsInt32 v
    → decode_var_int (front ++ (encode_var_int v ++ rest)) (length front)
      ≡ value v (length (encode_var_int v))
decode-encode v front rest h =
    decode-encode_bits v front rest
    ∙ ap (λ u. value u (length (encode_var_int v))) (from_bits32-to_u32 v h)

decode_loop-append :
    (k : ℕ) (buf more : List ℕ) (acc shift i : ℕ)
    → decode_loop k buf acc shift i ≢ incomplete
    → decode_loop k (buf ++ more) acc shift i ≡ decode_loop k buf acc shift i
unfolding decode_loop
decode_loop-append zero buf more acc shift i h = refl
decode_loop-append (suc k) [] more acc shift i h = absurd (h refl)
decode_loop-append (suc k) (b ∷ buf) more acc shift i h = ground (
  arith,
  decode_loop-append k buf more (bit_or acc (bit_and b 0x7f * 2 ^ shift % 2 ^ 32)) (shift + 7)
      (i + 1),
)

decode_loop_takes :
    (k : ℕ) (buf : List ℕ) (acc shift i : ℕ) (v : ℤ) (n : ℕ)
    → decode_loop k buf acc shift i ≡ value v n
    → (i < n) × (n ≤ i + k) × (n ≤ i + length buf)
unfolding decode_loop
decode_loop_takes zero buf acc shift i v n e = absurd (cc)
decode_loop_takes (suc k) [] acc shift i v n e = absurd (cc)
decode_loop_takes (suc k) (b ∷ buf) acc shift i v n e = ground (
  arith,
  decode_loop_takes k buf (bit_or acc (bit_and b 0x7f * 2 ^ shift % 2 ^ 32)) (shift + 7) (i + 1) v
      n,
)

-- A value takes one to five bytes, and they lie within the buffer.
pub decode_takes :
    (buf : List ℕ) (offset : ℕ) (v : ℤ) (n : ℕ)
    → decode_var_int buf offset ≡ value v n
    → (1 ≤ n) × (n ≤ 5) × (offset + n ≤ length buf)
unfolding decode_var_int
decode_takes buf offset v n e =
    omega (arith, decode_loop_takes 5 (drop offset buf) 0 0 0 v n e, length-drop offset buf)

past_end :
    (buf : List ℕ) (offset : ℕ) → length buf ≤ offset → decode_var_int buf offset ≡ incomplete
unfolding decode_var_int decode_loop
past_end [] zero h = refl
past_end [] (suc offset) h = refl
past_end (b ∷ buf) zero h = absurd (omega arith)
past_end (b ∷ buf) (suc offset) h = past_end buf offset (omega arith)

-- An answer other than ErrIncomplete is final: bytes that arrive later do not change it.
pub decode-append :
    (buf more : List ℕ) (offset : ℕ)
    → decode_var_int buf offset ≢ incomplete
    → decode_var_int (buf ++ more) offset ≡ decode_var_int buf offset
decode-append buf more offset h = elim (dec_lt offset (length buf)) [
  | yes inside ↦
      unfold decode_var_int in
      rw (drop-append offset buf more (omega arith))
        (decode_loop-append 5 (drop offset buf) more 0 0 0 (unfold decode_var_int in h))
  | no outside ↦ absurd (h (past_end buf offset (omega arith)))
]

Decoded-cases :
    (d : Decoded) → (d ≡ incomplete) ⊎ (d ≡ too_long) ⊎ ((v : ℤ) × (n : ℕ) × (d ≡ value v n))
Decoded-cases (value v n) = inr (inr (v, n, refl))
Decoded-cases incomplete = inl refl
Decoded-cases too_long = inr (inl refl)

-- DecodeVarInt answers ErrIncomplete on every proper prefix of what EncodeVarInt wrote.
pub decode_truncated :
    (v : ℤ) (x : ℕ) (front back : List ℕ)
    → encode_var_int v ≡ front ++ (x ∷ back)
    → decode_var_int front 0 ≡ incomplete
decode_truncated v x front back e = elim (Decoded-cases (decode_var_int front 0)) [
  | inl r ↦ r
  | inr (inl r) ↦ cc (r, whole, decode-append front (x ∷ back) 0 (λ q. cc))
  | inr (inr (u, n, r)) ↦ ground (
    arith,
    r,
    whole,
    decode-append front (x ∷ back) 0 (λ q. cc),
    decode_takes front 0 u n r,
    length-append front (x ∷ back),
    ap length e,
  )
]
  where
    whole :
        decode_var_int (front ++ (x ∷ back)) 0
        ≡ value (from_bits32 (to_u32 v)) (length (front ++ (x ∷ back)))
    whole = rw (append-nil, e) at (decode-encode_bits v [] [])
