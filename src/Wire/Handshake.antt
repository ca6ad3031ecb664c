-- ===== src/Wire/Handshake.antt =====
-- server/internal/proudnet/handshake.go, connect.go and crypto.go's session key: the messages by
-- which a connection is set up. RSA-OAEP is crypto/rsa, a parameter.
pub mod Arrays
use fear_online_server.Prelude.{
  ℕ, zero, suc, ◌+◌, Bool, ◌&&◌, ◌||◌, false, ltb, leb, ◌==◌, if◌then◌else◌, List, [], ◌∷◌, ◌++◌,
  length, take, drop, reverse, Option, none, some,
}
use fear_online_server.Prelude.Int.{ℤ, pos, negsuc}
use fear_online_server.Wire.Bytes.{append_uint16, append_uint32, read_uint32}
use fear_online_server.Wire.Varint.{encode_var_int, decode_var_int}
use fear_online_server.Wire.Read.{Read, ReadError, read, malformed, invalid_length, after_length}
use fear_online_server.Wire.Frame.{Frame, marker_reliable}
use fear_online_server.Wire.Text.{write_proud_string}
use fear_online_server.Wire.Cipher.{BlockCipher, aes_ecb_decrypt}

array_body : List ℕ → ℕ → ℤ → ℕ → Read (List ℕ)
array_body buf offset (negsuc m) n = malformed invalid_length
array_body buf offset (pos len) n =
    let start = offset + n in
    let end = start + len in
    if ltb (length buf) end then malformed invalid_length else read (take len (drop start buf)) end

unfoldable pub read_byte_array : List ℕ → ℕ → Read (List ℕ)
unfolding array_body
read_byte_array buf offset = after_length (decode_var_int buf offset) (array_body buf offset)

hello_payload : List ℕ → Bool
unfolding read_uint32
hello_payload [] = false
hello_payload (t ∷ rest) =
    let magic = read_uint32 rest in
    leb 5 (length (t ∷ rest)) && (t == 0x32 && (magic == 0x4000000f || magic == 0x40000010))

unfoldable pub is_client_hello : Frame → Bool
unfolding hello_payload
is_client_hello frame = frame.marker == marker_reliable && hello_payload frame.payload

-- putUint32 onto the buffer is `append_uint32`, and a WriteByte appends one byte.
unfoldable pub build_connection_params : List ℕ → List ℕ
unfolding append_uint32
build_connection_params public_key_der =
    let head =
      append_uint32 (append_uint32 (append_uint32 (0x05 ∷ 0x00 ∷ 0x00 ∷ []) 0x10000) 0x10000)
        60000 in
    let method = append_uint32 (head ++ (0x00 ∷ [])) 0x00 ++ (0x01 ∷ []) in
    let keys = append_uint32 (append_uint32 method 0x80) 0x00 in
    let flags = keys ++ (0x00 ∷ 0x01 ∷ 0x01 ∷ 0x00 ∷ 0x01 ∷ 0x00 ∷ 0x00 ∷ []) in
    (append_uint32 flags 0x00 ++ encode_var_int (pos (length public_key_der))) ++ public_key_der

-- rsa.DecryptOAEP with the server's private key: a parameter, `none` where it fails.
abbrev pub Oaep : Type 0
Oaep = List ℕ → Option (List ℕ)

-- Both byte orders are tried.
unfoldable pub decrypt_session_key : Oaep → List ℕ → Option (List ℕ)
decrypt_session_key oaep ciphertext = elim (oaep ciphertext) [
  | some key ↦ some key
  | none ↦ oaep (reverse ciphertext)
]

pub data SetupError : Type 0 where
  unreadable : ReadError → SetupError
  key_undecryptable : SetupError
  proof_undecryptable : SetupError

pub data Setup : Type 0 where
  established : List ℕ → Setup
  refused : SetupError → Setup

check_proof : List ℕ → Option (List ℕ) → Setup
check_proof session_key none = refused proof_undecryptable
check_proof session_key (some proof) = established session_key

check_key : BlockCipher → Option (List ℕ) → List ℕ → Setup
unfolding check_proof aes_ecb_decrypt
check_key c none second_key = refused key_undecryptable
check_key c (some session_key) second_key =
    check_proof session_key (aes_ecb_decrypt c session_key second_key)

setup_second : BlockCipher → Oaep → List ℕ → Read (List ℕ) → Setup
unfolding check_key decrypt_session_key
setup_second c oaep rsa_key (malformed e) = refused (unreadable e)
setup_second c oaep rsa_key (read second_key next) =
    check_key c (decrypt_session_key oaep rsa_key) second_key

setup_first : BlockCipher → Oaep → List ℕ → Read (List ℕ) → Setup
unfolding setup_second
setup_first c oaep payload (malformed e) = refused (unreadable e)
setup_first c oaep payload (read rsa_key next) =
    setup_second c oaep rsa_key (read_byte_array payload next)

unfoldable pub parse_crypto_setup : BlockCipher → Oaep → List ℕ → Setup
unfolding setup_first
parse_crypto_setup c oaep payload = setup_first c oaep payload (read_byte_array payload 1)

pub record ClientConnect : Type 0 where
  pub token : List ℕ
  pub guid : List ℕ

pub data ConnectError : Type 0 where
  unreadable_token : ReadError → ConnectError
  missing_guid : ConnectError

pub data Connect : Type 0 where
  connect : ClientConnect → Connect
  broken : ConnectError → Connect

connect_guid : List ℕ → Read (List ℕ) → Connect
connect_guid payload (malformed e) = broken (unreadable_token e)
connect_guid payload (read token next) =
    if ltb (length payload) (next + 16)
    then broken missing_guid
    else connect (record { token = token; guid = take 16 (drop next payload) })

unfoldable pub parse_client_connect : List ℕ → Connect
unfolding connect_guid
parse_client_connect payload = connect_guid payload (read_byte_array payload 1)

abbrev server_host_id : ℕ
server_host_id = 0x32

unfoldable pub build_server_connect_success : ClientConnect → List ℕ → ℕ → List ℕ
unfolding append_uint32 append_uint16 write_proud_string
build_server_connect_success client host port =
    let guid = append_uint32 (0x0B ∷ []) server_host_id ++ client.guid in
    let token = (guid ++ encode_var_int (pos (length client.token))) ++ client.token in
    append_uint16 (write_proud_string token host) port
