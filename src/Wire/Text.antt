-- ===== src/Wire/Text.antt =====
-- server/internal/proudnet/string.go, and the parts of unicode/utf16 that it calls. A Go string
-- stands here as its runes, so `[]rune(value)` and `string(runes)` are the identity.
pub mod RoundTrip
use fear_online_server.Prelude.{
  ℕ, zero, suc, Bool, ◌+◌, ◌-◌, ◌*◌, ◌/◌, ◌%◌, ◌&&◌, ◌||◌, ltb, leb, if◌then◌else◌, List, [], ◌∷◌,
  ◌++◌, length, take, drop,
}
use fear_online_server.Prelude.Int.{ℤ, pos, negsuc}
use fear_online_server.Wire.Varint.{encode_var_int, decode_var_int}
use fear_online_server.Wire.Read.{Read, read, malformed, invalid_length, after_length}

abbrev replacement : ℕ
replacement = 0xFFFD

-- utf16.Encode: a rune of the basic plane is one unit, a higher one a surrogate pair, and what is no
-- character becomes U+FFFD.
encode_rune : ℕ → List ℕ
encode_rune r =
    if ltb r 0xD800 || (leb 0xE000 r && ltb r 0x10000)
    then r ∷ []
    else if leb 0x10000 r && leb r 0x10FFFF
    then (0xD800 + (r - 0x10000) / 1024) ∷ (0xDC00 + (r - 0x10000) % 1024) ∷ []
    else replacement ∷ []

unfoldable pub utf16_encode : List ℕ → List ℕ
unfolding encode_rune
utf16_encode [] = []
utf16_encode (r ∷ rs) = encode_rune r ++ utf16_encode rs

is_high_surrogate : ℕ → Bool
is_high_surrogate u = leb 0xD800 u && ltb u 0xDC00

is_low_surrogate : ℕ → Bool
is_low_surrogate u = leb 0xDC00 u && ltb u 0xE000

-- utf16.Decode: a pair of surrogates is one rune, and a lone surrogate becomes U+FFFD.
unfoldable pub utf16_decode : List ℕ → List ℕ
unfolding is_high_surrogate is_low_surrogate
utf16_decode [] = []
utf16_decode (u ∷ []) = (if is_high_surrogate u || is_low_surrogate u then replacement else u) ∷ []
utf16_decode (u ∷ v ∷ rest) =
    let paired = (u - 0xD800) * 1024 + (v - 0xDC00) + 0x10000 in
    let after_pair = utf16_decode rest in
    let after_unit = utf16_decode (v ∷ rest) in
    if is_high_surrogate u && is_low_surrogate v
    then paired ∷ after_pair
    else (if is_high_surrogate u || is_low_surrogate u then replacement else u) ∷ after_unit

-- `byte(unit), byte(unit>>8)` for each unit.
unfoldable pub unit_bytes : List ℕ → List ℕ
unit_bytes [] = []
unit_bytes (u ∷ us) = (u % 256) ∷ (u / 256 % 256) ∷ unit_bytes us

unfoldable pub write_proud_string : List ℕ → List ℕ → List ℕ
unfolding unit_bytes
write_proud_string dst text =
    let units = utf16_encode text in
    (dst ++ encode_var_int (pos (length units))) ++ unit_bytes units

-- The loop that fills `units`: two bytes each, low byte first.
unfoldable pub read_units : ℕ → List ℕ → List ℕ
read_units zero bytes = []
read_units (suc n) [] = []
read_units (suc n) (a ∷ []) = []
read_units (suc n) (a ∷ b ∷ bytes) = (a + 256 * b) ∷ read_units n bytes

text_body : List ℕ → ℕ → ℤ → ℕ → Read (List ℕ)
text_body buf offset (negsuc m) n = malformed invalid_length
text_body buf offset (pos char_len) n =
    let start = offset + n in
    let end = start + char_len * 2 in
    if ltb (length buf) end
    then malformed invalid_length
    else read (utf16_decode (read_units char_len (drop start buf))) end

unfoldable pub read_proud_string : List ℕ → ℕ → Read (List ℕ)
unfolding text_body utf16_decode read_units
read_proud_string buf offset = after_length (decode_var_int buf offset) (text_body buf offset)
