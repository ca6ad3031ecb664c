-- ===== src/Wire/Read.antt =====
-- The results of the readers of string.go and handshake.go: a value with the offset just past it, or
-- an error. DecodeVarInt's errors are passed on.
use fear_online_server.Prelude.{ℕ}
use fear_online_server.Prelude.Int.{ℤ}
use fear_online_server.Wire.Varint.{Decoded, value, incomplete, too_long}

pub data ReadError : Type 0 where
  cut_short : ReadError
  var_int_too_long : ReadError
  invalid_length : ReadError

pub data Read {ℓ} (A : Type ℓ) : Type ℓ where
  read : A → ℕ → Read A
  malformed : ReadError → Read A

-- `length, n, err := DecodeVarInt(…); if err != nil { return …, err }` and the rest.
abbrev pub after_length {ℓ} : {A : Type ℓ} → Decoded → (ℤ → ℕ → Read A) → Read A
after_length incomplete k = malformed cut_short
after_length too_long k = malformed var_int_too_long
after_length (value v n) k = k v n
