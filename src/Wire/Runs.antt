-- ===== src/Wire/Runs.antt =====
-- The wire formats at concrete inputs.
use mathlib.Core.Logic.{◌≢◌}
use mathlib.Core.List.{reverse-reverse, reverse-cons}
use native.Mathlib.Decide.{dec_lt}
use fear_online_server.Prelude.{
  ℕ, ◌≤◌, ◌<◌, ◌≡◌, refl, ap, ◌∙◌, length-append, Bool, arith, true, ◌↔◌, List, [], ◌∷◌, ◌++◌, All,
  length, none, some, reverse, replicate,
}
use fear_online_server.Prelude.Int.{pos, negsuc}
use fear_online_server.Prelude.WellFounded.{lt_wf}
use fear_online_server.Wire.Varint.{IsByte, encode_var_int, decode_var_int, value, incomplete}
use fear_online_server.Wire.Varint.Encode.{encode_var_int_shape}
use fear_online_server.Wire.Varint.Decode.{decode-encode, decode_truncated}
use fear_online_server.Wire.Frame.{
  Frame, stuck, unknown_marker, marker_reliable, frame_round, parse_frames,
}
use fear_online_server.Wire.Frame.Stream.{
  behind, parse_frames-append, parse_frames-append_error, parse_frames-ne-stuck,
}
use fear_online_server.Wire.Frame.RoundTrip.{encode_frames, parse_frames-encode_frames}
use fear_online_server.Wire.Text.{utf16_encode, write_proud_string, read_proud_string}
use fear_online_server.Wire.Text.RoundTrip.{read-write_proud_string}
use fear_online_server.Wire.Read.{read}
use fear_online_server.Wire.Cipher.{BlockCipher, IsBlockCipher}
use fear_online_server.Wire.Rmi.{Message, opened, encode_encrypted, decode_encrypted}
use fear_online_server.Wire.Rmi.RoundTrip.{padding, decode-encode_encrypted}
use fear_online_server.Wire.Handshake.{
  established, decrypt_session_key, parse_crypto_setup, connect, parse_client_connect,
}
use fear_online_server.Wire.Handshake.Arrays.{
  append_array, parse_client_connect_lem, parse_crypto_setup_lem,
}

-- -1 takes five groups, the last of which has no sign bit.
encode_minus_one : encode_var_int (negsuc 0) ≡ 0xff ∷ 0xff ∷ 0xff ∷ 0xff ∷ 0x0f ∷ []
unfolding encode_var_int lt_wf dec_lt
encode_minus_one = refl

-- 64 would read as a sign, so a zero group follows.
encode_64 : encode_var_int (pos 64) ≡ 0xc0 ∷ 0x00 ∷ []
unfolding encode_var_int lt_wf dec_lt
encode_64 = refl

decode-encode_example :
    decode_var_int (7 ∷ (encode_var_int (negsuc 4) ++ (9 ∷ []))) 1
    ≡ value (negsuc 4) (length (encode_var_int (negsuc 4)))
decode-encode_example = decode-encode (negsuc 4) (7 ∷ []) (9 ∷ []) (omega arith)

encode_var_int_shape_example :
    All IsByte (encode_var_int (pos 300))
    × (1 ≤ length (encode_var_int (pos 300)))
    × (length (encode_var_int (pos 300)) ≤ 5)
encode_var_int_shape_example = encode_var_int_shape (pos 300)

decode_truncated_example : decode_var_int (0xc0 ∷ []) 0 ≡ incomplete
decode_truncated_example = decode_truncated (pos 64) 0 (0xc0 ∷ []) [] encode_64

abbrev ping : Frame
ping = record { marker = marker_reliable; payload = 0x1C ∷ [] }

parse_frames-encode_frames_example :
    parse_frames (encode_frames (ping ∷ ping ∷ []) ++ (0x13 ∷ []))
    ≡ behind (ping ∷ ping ∷ []) (parse_frames (0x13 ∷ []))
parse_frames-encode_frames_example =
    parse_frames-encode_frames (ping ∷ ping ∷ []) (0x13 ∷ []) (omega arith)

parse_half :
    parse_frames (0x13 ∷ 0x57 ∷ 0x01 ∷ [])
    ≡ record { frames = []; remaining = 0x13 ∷ 0x57 ∷ 0x01 ∷ []; error = none }
unfolding parse_frames frame_round decode_var_int
parse_half = refl

parse_frames-append_example :
    parse_frames ((0x13 ∷ 0x57 ∷ 0x01 ∷ []) ++ (0x1C ∷ []))
    ≡ behind
        (parse_frames (0x13 ∷ 0x57 ∷ 0x01 ∷ [])).frames
        (parse_frames ((parse_frames (0x13 ∷ 0x57 ∷ 0x01 ∷ [])).remaining ++ (0x1C ∷ [])))
parse_frames-append_example =
    parse_frames-append (0x13 ∷ 0x57 ∷ 0x01 ∷ []) (0x1C ∷ []) (ap (λ p. p.error) parse_half)

parse_unknown : (parse_frames (0 ∷ 0 ∷ 1 ∷ [])).error ≡ some (unknown_marker 0)
unfolding parse_frames frame_round decode_var_int
parse_unknown = refl

parse_frames-append_error_example : parse_frames (0 ∷ 0 ∷ 1 ∷ 9 ∷ []) ≡ record {
  frames = (parse_frames (0 ∷ 0 ∷ 1 ∷ [])).frames;
  remaining = (parse_frames (0 ∷ 0 ∷ 1 ∷ [])).remaining ++ (9 ∷ []);
  error = some (unknown_marker 0);
}
parse_frames-append_error_example =
    parse_frames-append_error (0 ∷ 0 ∷ 1 ∷ []) (9 ∷ []) (unknown_marker 0) parse_unknown

parse_frames-ne-stuck_example : (parse_frames (0x13 ∷ 0x57 ∷ 0xff ∷ [])).error ≢ some stuck
parse_frames-ne-stuck_example = parse_frames-ne-stuck (0x13 ∷ 0x57 ∷ 0xff ∷ [])

-- A character beyond the basic plane takes two units.
read-write_proud_string_example :
    read_proud_string (write_proud_string (1 ∷ []) (b'a' ∷ 0x1F600 ∷ []) ++ (5 ∷ [])) 1
    ≡ read (b'a' ∷ 0x1F600 ∷ []) (length (write_proud_string (1 ∷ []) (b'a' ∷ 0x1F600 ∷ [])))
unfolding utf16_encode
read-write_proud_string_example =
    read-write_proud_string (1 ∷ []) (b'a' ∷ 0x1F600 ∷ []) (5 ∷ []) (omega arith) (omega arith)

-- A block cipher with the laws, in place of AES: it reverses the block, whatever the key.
abbrev mirror : BlockCipher
mirror = record {
  accepts = λ key. true;
  encrypt = λ key b. reverse b;
  decrypt = λ key b. reverse b;
}

length-reverse : (b : List ℕ) → length (reverse b) ≡ length b
length-reverse [] = refl
length-reverse (x ∷ b) =
    omega
      (arith, ap length (reverse-cons x b), length-append (reverse b) (x ∷ []), length-reverse b)

mirror-IsBlockCipher : IsBlockCipher mirror
mirror-IsBlockCipher = record {
  encrypt_length = λ key b h. length-reverse b ∙ h;
  decrypt-encrypt = λ key b h. reverse-reverse b;
}

abbrev call : Message
call = record { id = 0x8CA1; body = 1 ∷ 2 ∷ [] }

decode-encode_encrypted_example :
    (payload : List ℕ) × (encode_encrypted mirror [] 7 call ≡ some payload)
    × (decode_encrypted mirror [] payload
        ≡ opened (record call { body = (1 ∷ 2 ∷ []) ++ replicate 9 0 }) 7)
    × (padding 7 < 16)
decode-encode_encrypted_example =
    decode-encode_encrypted mirror [] 7 call mirror-IsBlockCipher refl (omega arith) (omega arith)

parse_client_connect_lem_example :
    parse_client_connect (append_array (8 ∷ []) (1 ∷ 2 ∷ []) ++ (replicate 16 3 ++ []))
    ≡ connect (record { token = 1 ∷ 2 ∷ []; guid = replicate 16 3 })
parse_client_connect_lem_example =
    parse_client_connect_lem 8 (1 ∷ 2 ∷ []) (replicate 16 3) [] (omega arith) refl

parse_crypto_setup_lem_example :
    (parse_crypto_setup mirror some
        (append_array (append_array (6 ∷ []) (1 ∷ [])) (replicate 16 0) ++ [])
      ≡ established (1 ∷ []))
    ↔ ((decrypt_session_key some (1 ∷ []) ≡ some (1 ∷ []))
        × (◌≡◌ {A = Bool} true true)
        × (◌≡◌ {A = ℕ} 0 0))
parse_crypto_setup_lem_example =
    parse_crypto_setup_lem mirror some 6 (1 ∷ []) (replicate 16 0) [] (1 ∷ []) (omega arith)
      (omega arith)
