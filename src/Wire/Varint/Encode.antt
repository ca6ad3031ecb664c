-- ===== src/Wire/Varint/Encode.antt =====
-- What EncodeVarInt writes, in plain arithmetic.
use mathlib.Core.WellFounded.{Acc}
use fear_online_server.Prelude.{
  ℕ, zero, suc, ◌+◌, ◌*◌, ◌/◌, ◌%◌, ◌^◌, ◌≤◌, ◌<◌, bit_and, bit_or, ◌≡◌, ltb, if◌then◌else◌, arith,
  List, [], ◌∷◌, ◌++◌, length, All, append_assoc,
}
use fear_online_server.Prelude.Bits.{and_0x7f, and_0x40, or_0x80}
use fear_online_server.Prelude.Int.{ℤ, to_u32, to_u32_bound}
use fear_online_server.Prelude.WellFounded.{lt_wf}
use fear_online_server.Wire.Varint.{IsByte, encode_last, encode_loop, encode_var_int}

-- The last group, for `r` below 128: from 64 on its bit 0x40 is set, and a zero group follows.
unfoldable pub last_group : ℕ → List ℕ
last_group r = if ltb r 64 then r ∷ [] else (r + 128) ∷ 0 ∷ []

-- The groups of `r`, lowest first, with at most `k` before the last.
unfoldable pub groups : ℕ → ℕ → List ℕ
groups zero r = last_group r
groups (suc k) r =
    let rest = groups k (r / 128) in if ltb r 128 then last_group r else (r % 128 + 128) ∷ rest

encode_last-groups : (r : ℕ) (out : List ℕ) → r < 128 → encode_last r out ≡ out ++ last_group r
unfolding encode_last last_group
encode_last-groups r out h = ground (
  arith,
  and_0x7f r,
  and_0x40 r (omega arith),
  or_0x80 r h,
  and_0x7f 0,
  append_assoc out ((r + 128) ∷ []) (0 ∷ []),
)

inner_group : (r : ℕ) → bit_or (bit_and r 0x7f) 0x80 ≡ r % 128 + 128
inner_group r = rw and_0x7f (or_0x80 (r % 128) (omega arith))

encode_loop-groups :
    (k r : ℕ) (w : Acc ◌<◌ r) (out : List ℕ)
    → r < 128 ^ suc k
    → encode_loop r w out ≡ out ++ groups k r
unfolding encode_loop groups
encode_loop-groups zero r (Acc.intro _ smaller) out h = ground (arith, encode_last-groups r out)
encode_loop-groups (suc k) r (Acc.intro _ smaller) out h =
    let head : List ℕ = (r % 128 + 128) ∷ [] in
    grind (
      arith,
      inner_group r,
      encode_last-groups r out,
      λ (w : Acc ◌<◌ (r / 128)). encode_loop-groups k (r / 128) w (out ++ head) (omega arith),
      append_assoc out head (groups k (r / 128)),
    )

pub encode-groups : (v : ℤ) → encode_var_int v ≡ groups 4 (to_u32 v)
unfolding encode_var_int
encode-groups v =
    encode_loop-groups 4 (to_u32 v) (lt_wf.apply (to_u32 v)) [] (omega (arith, to_u32_bound v))

groups_shape :
    (k r : ℕ)
    → r < 16 * 128 ^ k
    → All IsByte (groups k r) × (1 ≤ length (groups k r)) × (length (groups k r) ≤ k + 1)
unfolding groups last_group
groups_shape zero r h = ground arith
groups_shape (suc k) r h = ground (arith, groups_shape k (r / 128) (omega arith))

-- EncodeVarInt writes one to five bytes, whatever the value.
pub encode_var_int_shape :
    (v : ℤ)
    → All IsByte (encode_var_int v)
      × (1 ≤ length (encode_var_int v))
      × (length (encode_var_int v) ≤ 5)
encode_var_int_shape v =
    rw (encode-groups v) (groups_shape 4 (to_u32 v) (omega (arith, to_u32_bound v)))
