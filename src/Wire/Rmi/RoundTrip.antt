-- ===== src/Wire/Rmi/RoundTrip.antt =====
-- The envelopes of rmi.go are opened to what was put in them.
use fear_online_server.Prelude.{
  ℕ, ◌+◌, ◌-◌, ◌*◌, ◌/◌, ◌^◌, ◌<◌, ◌≡◌, ap, ◌∙◌, arith, true, List, ◌∷◌, ◌++◌, length, replicate,
  some,
}
use fear_online_server.Wire.Bytes.{append_uint16, read_uint16}
use fear_online_server.Wire.Cipher.{BlockCipher, IsBlockCipher, padded, aes_ecb_decrypt-encrypt}
use fear_online_server.Wire.Rmi.{
  Message, opened, read_plain, decode_encrypted, rmi_plaintext, wrap, encode_encrypted,
  decode_plain, encode_plain, envelope_encrypted,
}

-- A plaintext RMI comes back as it was sent.
pub decode-encode_plain : (m : Message) → m.id < 2 ^ 16 → decode_plain (encode_plain m) ≡ some m
unfolding decode_plain encode_plain
decode-encode_plain m h = ground arith

-- The zeros that fill the last block of a plaintext of `n` bytes.
abbrev pub padding : ℕ → ℕ
padding n = (n + 15) / 16 * 16 - n

read_plain-padded :
    (count : ℕ) (m : Message)
    → count < 2 ^ 16
    → m.id < 2 ^ 16
    → read_plain (some (padded (rmi_plaintext count m)))
      ≡ opened (record m { body = m.body ++ replicate (padding (5 + length m.body)) 0 }) count
unfolding read_plain padded rmi_plaintext append_uint16 read_uint16
read_plain-padded count m hc hm = ground arith

-- With a session key that the cipher accepts an encrypted RMI is opened to the same id and counter;
-- its body has the zero bytes behind it that fill the last block, fewer than 16.
pub decode-encode_encrypted :
    (c : BlockCipher) (key : List ℕ) (count : ℕ) (m : Message)
    → IsBlockCipher c
    → c.accepts key ≡ true
    → count < 2 ^ 16
    → m.id < 2 ^ 16
    → (payload : List ℕ) × (encode_encrypted c key count m ≡ some payload)
      × (decode_encrypted c key payload
          ≡ opened (record m { body = m.body ++ replicate (padding (5 + length m.body)) 0 }) count)
      × (padding (5 + length m.body) < 16)
decode-encode_encrypted c key count m h a hc hm =
    let (s, enc, dec) = aes_ecb_decrypt-encrypt c key (rmi_plaintext count m) h a in
    (
      envelope_encrypted ∷ s,
      unfold encode_encrypted in ap wrap enc,
      unfold decode_encrypted in ap read_plain dec ∙ read_plain-padded count m hc hm,
      omega arith,
    )
