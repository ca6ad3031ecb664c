-- ===== src/Wire/Rmi.antt =====
-- server/internal/proudnet/rmi.go: the envelopes of the application messages.
pub mod RoundTrip
use fear_online_server.Prelude.{
  ℕ, zero, suc, leb, ltb, ◌==◌, Bool, if◌then◌else◌, List, [], ◌∷◌, ◌++◌, length, drop, Option,
  none, some,
}
use fear_online_server.Wire.Bytes.{append_uint16, read_uint16}
use fear_online_server.Wire.Cipher.{BlockCipher, aes_ecb_encrypt, aes_ecb_decrypt}

abbrev pub envelope_encrypted : ℕ
envelope_encrypted = 0x26

abbrev pub envelope_plain : ℕ
envelope_plain = 0x01

abbrev context_app : ℕ
context_app = 0x01

abbrev pub internal_rmi_floor : ℕ
internal_rmi_floor = 0xFA00

pub record Message : Type 0 where
  pub id : ℕ
  pub body : List ℕ

unfoldable pub is_internal : Message → Bool
is_internal m = leb internal_rmi_floor m.id

pub data RmiError : Type 0 where
  not_encrypted : RmiError
  cipher_failed : RmiError
  too_short : RmiError

-- An RMI with the client's counter, or an error.
pub data Opened : Type 0 where
  opened : Message → ℕ → Opened
  refused : RmiError → Opened

read_plain : Option (List ℕ) → Opened
read_plain none = refused cipher_failed
read_plain (some plain) =
    if ltb (length plain) 5
    then refused too_short
    else opened (record { id = read_uint16 (drop 3 plain); body = drop 5 plain })
        (read_uint16 plain)

unfoldable pub decode_encrypted : BlockCipher → List ℕ → List ℕ → Opened
unfolding read_plain aes_ecb_decrypt read_uint16
decode_encrypted c session_key [] = refused not_encrypted
decode_encrypted c session_key (e ∷ rest) =
    if e == envelope_encrypted
    then read_plain (aes_ecb_decrypt c session_key rest)
    else refused not_encrypted

-- The plaintext of an encrypted envelope: count, context byte, id, parameters.
unfoldable pub rmi_plaintext : ℕ → Message → List ℕ
rmi_plaintext count msg =
    append_uint16 (append_uint16 [] count ++ (context_app ∷ [])) msg.id ++ msg.body

wrap : Option (List ℕ) → Option (List ℕ)
wrap none = none
wrap (some encrypted) = some (envelope_encrypted ∷ encrypted)

unfoldable pub encode_encrypted : BlockCipher → List ℕ → ℕ → Message → Option (List ℕ)
unfolding rmi_plaintext wrap aes_ecb_encrypt append_uint16
encode_encrypted c session_key count msg =
    wrap (aes_ecb_encrypt c session_key (rmi_plaintext count msg))

unfoldable pub decode_plain : List ℕ → Option Message
unfolding read_uint16
decode_plain [] = none
decode_plain (e ∷ rest) =
    if ltb (length (e ∷ rest)) 3
    then none
    else if e == envelope_plain
    then some (record { id = read_uint16 rest; body = drop 2 rest })
    else none

unfoldable pub encode_plain : Message → List ℕ
unfolding append_uint16
encode_plain msg = append_uint16 (envelope_plain ∷ []) msg.id ++ msg.body
