-- ===== src/Wire/Handshake/Arrays.antt =====
-- ReadByteArray reads a length and that many bytes, so the set-up messages are read as they were
-- written.
use mathlib.Core.List.{reverse-reverse}
use fear_online_server.Prelude.{
  ℕ, ◌+◌, ◌%◌, ◌^◌, ◌<◌, ◌≡◌, ap, ◌∙◌, arith, true, ◌↔◌, List, [], ◌∷◌, ◌++◌, length, take, drop,
  reverse, length-append, append_assoc, take-length_append, drop-length_append, Option, none, some,
}
use fear_online_server.Prelude.Int.{pos}
use fear_online_server.Wire.Varint.{encode_var_int, decode_var_int, value}
use fear_online_server.Wire.Varint.Decode.{decode-encode}
use fear_online_server.Wire.Read.{read}
use fear_online_server.Wire.Cipher.{BlockCipher}
use fear_online_server.Wire.Handshake.{
  read_byte_array, Oaep, decrypt_session_key, established, parse_crypto_setup, check_key,
  setup_first, setup_second, connect, parse_client_connect,
}

-- A ProudNet byte array behind the bytes `dst`.
abbrev pub append_array : List ℕ → List ℕ → List ℕ
append_array dst bytes = (dst ++ encode_var_int (pos (length bytes))) ++ bytes

-- ReadByteArray at the end of `dst` reads the array that stands there and stops where it ends, for
-- an array of fewer than 2^31 bytes.
pub read_byte_array-append :
    (dst bytes rest : List ℕ)
    → length bytes < 2 ^ 31
    → read_byte_array (append_array dst bytes ++ rest) (length dst)
      ≡ read bytes (length (append_array dst bytes))
unfolding read_byte_array
read_byte_array-append dst bytes rest h = rw head (
    ground (
      arith,
      length-append (dst ++ enc) bytes,
      length-append (append_array dst bytes) rest,
      length-append dst enc,
      body,
      ap (take (length bytes)) body,
      take-length_append bytes rest,
    ))
  where
    enc : List ℕ
    enc = encode_var_int (pos (length bytes))

    head :
        decode_var_int (append_array dst bytes ++ rest) (length dst)
        ≡ value (pos (length bytes)) (length enc)
    head =
        ap (λ l. decode_var_int l (length dst))
          (append_assoc (dst ++ enc) bytes rest ∙ append_assoc dst enc (bytes ++ rest))
        ∙ decode-encode (pos (length bytes)) dst (bytes ++ rest) h

    body : drop (length dst + length enc) (append_array dst bytes ++ rest) ≡ bytes ++ rest
    body =
        rw (append_assoc (dst ++ enc) bytes rest, ← length-append dst enc)
          (drop-length_append (dst ++ enc) (bytes ++ rest))

-- parseClientConnect gives back the token and the 16-byte guid of a connect message, whatever
-- follows them, for a token of fewer than 2^31 bytes.
pub parse_client_connect_lem :
    (kind : ℕ) (token guid rest : List ℕ)
    → length token < 2 ^ 31
    → length guid ≡ 16
    → parse_client_connect (append_array (kind ∷ []) token ++ (guid ++ rest))
      ≡ connect (record { token = token; guid = guid })
unfolding parse_client_connect
parse_client_connect_lem kind token guid rest h g =
    rw (read_byte_array-append (kind ∷ []) token (guid ++ rest) h) (
      ground (
        arith,
        length-append front (guid ++ rest),
        length-append guid rest,
        behind,
        ap (take 16) behind,
        ap (λ n. take n (guid ++ rest)) g,
        take-length_append guid rest,
      ))
  where
    front : List ℕ
    front = append_array (kind ∷ []) token

    behind : drop (length front) (front ++ (guid ++ rest)) ≡ guid ++ rest
    behind = drop-length_append front (guid ++ rest)

-- The session key is found in either byte order of the ciphertext, where the reversed bytes do not
-- decrypt by themselves.
pub decrypt_session_key_reversed :
    (oaep : Oaep) (ciphertext key : List ℕ)
    → oaep ciphertext ≡ some key
    → oaep (reverse ciphertext) ≡ none
    → (decrypt_session_key oaep ciphertext ≡ some key)
      × (decrypt_session_key oaep (reverse ciphertext) ≡ some key)
unfolding decrypt_session_key
decrypt_session_key_reversed oaep ciphertext key h k = ground (arith, reverse-reverse ciphertext)

check_key_iff :
    (c : BlockCipher) (found : Option (List ℕ)) (proof key : List ℕ)
    → (check_key c found proof ≡ established key)
      ↔ ((found ≡ some key) × (c.accepts key ≡ true) × (length proof % 16 ≡ 0))
unfolding check_key
check_key_iff c none proof key = (λ e. absurd (cc), λ h. absurd (cc (h.0)))
check_key_iff c (some found) proof key = (λ e. ground arith, λ h. ground arith)

-- A crypto setup message that consists of a byte for its kind, two arrays of fewer than 2^31 bytes, each
-- behind its length as EncodeVarInt writes it, and any further bytes establishes a session exactly
-- when the first array decrypts to a key that the cipher accepts and the second is a whole number of
-- blocks; the session key is the decrypted one.
pub parse_crypto_setup_lem :
    (c : BlockCipher) (oaep : Oaep) (kind : ℕ) (rsa proof rest key : List ℕ)
    → length rsa < 2 ^ 31
    → length proof < 2 ^ 31
    → (parse_crypto_setup c oaep (append_array (append_array (kind ∷ []) rsa) proof ++ rest)
        ≡ established key)
      ↔ ((decrypt_session_key oaep rsa ≡ some key)
          × (c.accepts key ≡ true)
          × (length proof % 16 ≡ 0))
unfolding parse_crypto_setup
parse_crypto_setup_lem c oaep kind rsa proof rest key h k =
    rw run (check_key_iff c (decrypt_session_key oaep rsa) proof key)
  where
    front : List ℕ
    front = append_array (kind ∷ []) rsa

    first : read_byte_array (append_array front proof ++ rest) 1 ≡ read rsa (length front)
    first =
        ap (λ l. read_byte_array l 1)
          (append_assoc (front ++ encode_var_int (pos (length proof))) proof rest
            ∙ append_assoc front (encode_var_int (pos (length proof))) (proof ++ rest))
        ∙ read_byte_array-append (kind ∷ []) rsa
            (encode_var_int (pos (length proof)) ++ (proof ++ rest)) h

    run :
        parse_crypto_setup c oaep (append_array front proof ++ rest)
        ≡ check_key c (decrypt_session_key oaep rsa) proof
    run = rw (first, setup_first, read_byte_array-append front proof rest k, setup_second)
