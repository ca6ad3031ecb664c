-- ===== src/Wire/Bytes.antt =====
-- server/internal/proudnet/payloads.go: little-endian words, and encoding/binary's readers of them.
use fear_online_server.Prelude.{
  ℕ, zero, suc, ◌+◌, ◌*◌, ◌/◌, ◌%◌, ◌^◌, ◌<◌, ◌≡◌, refl, arith, List, [], ◌∷◌, ◌++◌, All, length,
}
use fear_online_server.Wire.Varint.{IsByte}

-- `byte(v), byte(v>>8), …`: the lowest `n` bytes of a word.
abbrev pub le_bytes : ℕ → ℕ → List ℕ
le_bytes zero v = []
le_bytes (suc n) v = v % 256 ∷ le_bytes n (v / 256)

unfoldable pub append_uint16 : List ℕ → ℕ → List ℕ
append_uint16 dst v = dst ++ le_bytes 2 v

unfoldable pub append_uint32 : List ℕ → ℕ → List ℕ
append_uint32 dst v = dst ++ le_bytes 4 v

unfoldable pub append_uint64 : List ℕ → ℕ → List ℕ
append_uint64 dst v = dst ++ le_bytes 8 v

unfoldable pub uint64_le : ℕ → List ℕ
unfolding append_uint64
uint64_le v = append_uint64 [] v

-- The bytes of an int32 are those of its bit pattern.
unfoldable pub int32_le : ℕ → List ℕ
unfolding append_uint32
int32_le v = append_uint32 [] v

-- binary.LittleEndian.Uint16 and Uint32. Go panics on fewer bytes; each caller checks the length.
unfoldable pub read_uint16 : List ℕ → ℕ
read_uint16 (a ∷ b ∷ rest) = a + 256 * b
read_uint16 _ = 0

unfoldable pub read_uint32 : List ℕ → ℕ
read_uint32 (a ∷ b ∷ c ∷ d ∷ rest) = a + 256 * (b + 256 * (c + 256 * d))
read_uint32 _ = 0

pub read-uint16 :
    (v : ℕ) (rest : List ℕ) → v < 2 ^ 16 → read_uint16 (append_uint16 [] v ++ rest) ≡ v
unfolding read_uint16 append_uint16
read-uint16 v rest h = omega arith

pub read-uint32 :
    (v : ℕ) (rest : List ℕ) → v < 2 ^ 32 → read_uint32 (append_uint32 [] v ++ rest) ≡ v
unfolding read_uint32 append_uint32
read-uint32 v rest h = omega arith

pub read_uint16-append :
    (buf more : List ℕ) → 1 < length buf → read_uint16 (buf ++ more) ≡ read_uint16 buf
unfolding read_uint16
read_uint16-append [] more h = absurd (omega arith)
read_uint16-append (a ∷ []) more h = absurd (omega arith)
read_uint16-append (a ∷ b ∷ buf) more h = refl

pub le_bytes-IsByte : (n v : ℕ) → All IsByte (le_bytes n v)
le_bytes-IsByte zero v = tt
le_bytes-IsByte (suc n) v = (omega arith, le_bytes-IsByte n (v / 256))

pub length-le_bytes : (n v : ℕ) → length (le_bytes n v) ≡ n
length-le_bytes zero v = refl
length-le_bytes (suc n) v = omega (arith, length-le_bytes n (v / 256))
