-- ===== src/Wire/Varint.antt =====
-- server/internal/proudnet/varint.go: signed integers in groups of seven bits. A byte slice is a
-- list of numbers, an int32 is its bits, and `buf[offset:]` is a suffix of the list.
pub mod Encode
pub mod Decode
use mathlib.Core.Logic.{dite}
use mathlib.Core.WellFounded.{Acc}
use native.Mathlib.Decide.{dec_lt}
use fear_online_server.Prelude.{
  ℕ, zero, suc, ◌+◌, ◌-◌, ◌*◌, ◌/◌, ◌%◌, ◌^◌, ◌<◌, bit_and, bit_or, ◌==◌, if◌then◌else◌, arith,
  List, [], ◌∷◌, ◌++◌, drop,
}
use fear_online_server.Prelude.Int.{ℤ, to_u32, from_bits32}
use fear_online_server.Prelude.WellFounded.{lt_wf}

abbrev pub IsByte : ℕ → Type 0
IsByte b = b < 256

-- What follows the loop: a last group that would read as a sign gets another one behind it.
encode_last : ℕ → List ℕ → List ℕ
encode_last remaining out =
    let extends = bit_and remaining 0x40 == 0 in
    let out' = if extends then out else out ++ (bit_or (bit_and remaining 0x7f) 0x80 ∷ []) in
    let remaining' = if extends then remaining else 0 in out' ++ (bit_and remaining' 0x7f ∷ [])

pub group_shrinks : (n : ℕ) → 0 < n / 128 → n / 128 < n
group_shrinks n h = omega arith

-- `for remaining>>7 != 0`.
encode_loop : (remaining : ℕ) → Acc ◌<◌ remaining → List ℕ → List ℕ
unfolding encode_last
encode_loop remaining (Acc.intro _ smaller) out =
    dite (dec_lt 0 (remaining / 128))
      (λ more.
        encode_loop (remaining / 128) (smaller _ (group_shrinks remaining more))
          (out ++ (bit_or (bit_and remaining 0x7f) 0x80 ∷ [])))
      (λ _. encode_last remaining out)

unfoldable pub encode_var_int : ℤ → List ℕ
unfolding encode_loop
encode_var_int value = encode_loop (to_u32 value) (lt_wf.apply (to_u32 value)) []

-- DecodeVarInt's results: a value with the count of bytes read, or one of its two errors.
pub data Decoded : Type 0 where
  value : ℤ → ℕ → Decoded
  incomplete : Decoded
  too_long : Decoded

-- `rounds` is what is left of `for i := 0; i < 5; i++`, and the list is `buf[offset+i:]`.
unfoldable pub decode_loop : (rounds : ℕ) (buf : List ℕ) (acc shift i : ℕ) → Decoded
decode_loop zero buf acc shift i = too_long
decode_loop (suc rounds) [] acc shift i = incomplete
decode_loop (suc rounds) (b ∷ rest) acc shift i =
    let acc' = bit_or acc (bit_and b 0x7f * 2 ^ shift % 2 ^ 32) in
    let more = decode_loop rounds rest acc' (shift + 7) (i + 1) in
    let signed = if bit_and b 0x40 == 0 then acc' else 2 ^ 32 - 1 - acc' in
    if bit_and b 0x80 == 0 then value (from_bits32 signed) (i + 1) else more

unfoldable pub decode_var_int : List ℕ → ℕ → Decoded
unfolding decode_loop
decode_var_int buf offset = decode_loop 5 (drop offset buf) 0 0 0
