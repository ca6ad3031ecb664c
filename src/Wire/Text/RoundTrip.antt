-- ===== src/Wire/Text/RoundTrip.antt =====
-- ReadProudString undoes WriteProudString on texts of Unicode characters.
use fear_online_server.Prelude.{
  ℕ, ◌+◌, ◌-◌, ◌*◌, ◌/◌, ◌%◌, ◌^◌, ◌≤◌, ◌<◌, ◌≡◌, refl, ap, ◌∙◌, ◌⊎◌, arith, List, [], ◌∷◌, ◌++◌,
  length, drop, length-append, append_assoc, drop-length_append, All, All-append,
}
use fear_online_server.Prelude.Int.{pos}
use fear_online_server.Wire.Varint.{encode_var_int, decode_var_int, value}
use fear_online_server.Wire.Varint.Decode.{decode-encode}
use fear_online_server.Wire.Read.{read}
use fear_online_server.Wire.Text.{
  encode_rune, utf16_encode, utf16_decode, unit_bytes, write_proud_string, read_units, text_body,
  read_proud_string,
}

-- The Unicode scalar values.
abbrev pub IsRune : ℕ → Type 0
IsRune r = (r < 0xD800) ⊎ ((0xE000 ≤ r) × (r < 0x110000))

abbrev IsUnit : ℕ → Type 0
IsUnit u = u < 2 ^ 16

decode-plain :
    (u : ℕ) (us : List ℕ)
    → (u < 0xD800) ⊎ (0xE000 ≤ u)
    → utf16_decode (u ∷ us) ≡ u ∷ utf16_decode us
unfolding utf16_decode
decode-plain u [] h = ground arith
decode-plain u (v ∷ us) h = ground arith

decode-pair :
    (k : ℕ) (us : List ℕ)
    → k < 0x100000
    → utf16_decode ((0xD800 + k / 1024) ∷ (0xDC00 + k % 1024) ∷ us)
      ≡ (0x10000 + k) ∷ utf16_decode us
unfolding utf16_decode
decode-pair k us h = ground arith

decode-encode_rune :
    (r : ℕ) (us : List ℕ) → IsRune r → utf16_decode (encode_rune r ++ us) ≡ r ∷ utf16_decode us
unfolding encode_rune
decode-encode_rune r us h = ground (arith, decode-plain r us, decode-pair (r - 0x10000) us)

-- utf16.Decode undoes utf16.Encode on Unicode characters.
pub utf16_decode-encode : (rs : List ℕ) → All IsRune rs → utf16_decode (utf16_encode rs) ≡ rs
unfolding utf16_encode
utf16_decode-encode [] h = unfold utf16_decode in refl
utf16_decode-encode (r ∷ rs) (h, hs) =
    decode-encode_rune r (utf16_encode rs) h ∙ ap (λ l. r ∷ l) (utf16_decode-encode rs hs)

encode_rune-IsUnit : (r : ℕ) → All IsUnit (encode_rune r)
unfolding encode_rune
encode_rune-IsUnit r = ground arith

utf16_encode-IsUnit : (rs : List ℕ) → All IsUnit (utf16_encode rs)
unfolding utf16_encode
utf16_encode-IsUnit [] = tt
utf16_encode-IsUnit (r ∷ rs) =
    All-append IsUnit (encode_rune r) (utf16_encode rs) (encode_rune-IsUnit r)
      (utf16_encode-IsUnit rs)

read_units-unit_bytes :
    (us rest : List ℕ) → All IsUnit us → read_units (length us) (unit_bytes us ++ rest) ≡ us
unfolding read_units unit_bytes
read_units-unit_bytes [] rest h = refl
read_units-unit_bytes (u ∷ us) rest (h, hs) = ground (arith, read_units-unit_bytes us rest hs)

length-unit_bytes : (us : List ℕ) → length (unit_bytes us) ≡ length us * 2
unfolding unit_bytes
length-unit_bytes [] = refl
length-unit_bytes (u ∷ us) = omega (arith, length-unit_bytes us)

text_body_lem :
    (front units rest : List ℕ) (offset n : ℕ)
    → All IsUnit units
    → length front ≡ offset + n
    → text_body (front ++ (unit_bytes units ++ rest)) offset (pos (length units)) n
      ≡ read (utf16_decode units) (length (front ++ unit_bytes units))
unfolding text_body
text_body_lem front units rest offset n h e = ground (
  arith,
  length-append front (unit_bytes units ++ rest),
  length-append front (unit_bytes units),
  length-append (unit_bytes units) rest,
  length-unit_bytes units,
  behind_front,
  ap (read_units (length units)) behind_front,
  read_units-unit_bytes units rest h,
)
  where
    behind_front :
        drop (offset + n) (front ++ (unit_bytes units ++ rest)) ≡ unit_bytes units ++ rest
    behind_front = rw (← e) (drop-length_append front (unit_bytes units ++ rest))

-- ReadProudString at len(dst) reads the text that WriteProudString appended to dst, and stops where
-- it ends, for a text of Unicode characters with fewer than 2^31 UTF-16 units.
pub read-write_proud_string :
    (dst text rest : List ℕ)
    → All IsRune text
    → length (utf16_encode text) < 2 ^ 31
    → read_proud_string (write_proud_string dst text ++ rest) (length dst)
      ≡ read text (length (write_proud_string dst text))
unfolding read_proud_string write_proud_string
read-write_proud_string dst text rest h small =
    rw (append_assoc (dst ++ enc) (unit_bytes units) rest, head)
      (text_body_lem (dst ++ enc) units rest (length dst) (length enc) (utf16_encode-IsUnit text)
          (length-append dst enc)
        ∙ ap (λ t. read t (length ((dst ++ enc) ++ unit_bytes units))) (utf16_decode-encode text h))
  where
    units : List ℕ
    units = utf16_encode text

    enc : List ℕ
    enc = encode_var_int (pos (length units))

    head :
        decode_var_int ((dst ++ enc) ++ (unit_bytes units ++ rest)) (length dst)
        ≡ value (pos (length units)) (length enc)
    head =
        ap (λ l. decode_var_int l (length dst)) (append_assoc dst enc (unit_bytes units ++ rest))
        ∙ decode-encode (pos (length units)) dst (unit_bytes units ++ rest) small
