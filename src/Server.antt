-- ===== src/Server.antt =====
-- server/internal/proudnet/session.go and server.go: one connection, from the bytes that it reads to the
-- handlers of its messages. The network is a list of what each read gives and one of what each write
-- does; `W` is the state of the handlers.
pub mod Stream
mod Runs
use fear_online_server.Prelude.{
  ℕ, ◌+◌, ◌%◌, ◌^◌, Bool, true, false, not, ◌==◌, if◌then◌else◌, List, [], ◌∷◌, ◌++◌, length, take,
  drop, Option, none, some,
}
use fear_online_server.Prelude.NatMap.{value_at}
use fear_online_server.Wire.Frame.{
  Frame, FrameError, Parsed, marker_reliable, encode_frame, parse_frames,
}
use fear_online_server.Wire.Cipher.{BlockCipher}
use fear_online_server.Wire.Rmi.{
  Message, Opened, opened, refused, is_internal, decode_encrypted, encode_encrypted, decode_plain,
  encode_plain, envelope_encrypted, envelope_plain,
}
use fear_online_server.Wire.Handshake.{
  Oaep, Setup, established, Connect, connect, broken, is_client_hello, build_connection_params,
  parse_crypto_setup, parse_client_connect, build_server_connect_success,
}

abbrev pub msg_crypto_setup : ℕ
msg_crypto_setup = 0x06

abbrev pub msg_server_auth_success : ℕ
msg_server_auth_success = 0x07

abbrev pub msg_client_connect : ℕ
msg_client_connect = 0x08

abbrev pub msg_heartbeat : ℕ
msg_heartbeat = 0x1C

abbrev pub server_auth_success : List ℕ
server_auth_success = msg_server_auth_success ∷ []

-- What a call of conn.Write does: it takes some bytes, or fails.
pub data Outcome : Type 0 where
  wrote : ℕ → Outcome
  write_failed : Outcome

-- The Session, with what its connection will do and what it has taken.
pub record Session : Type 0 where
  pub session_key : List ℕ
  pub is_established : Bool
  pub encrypt_count : ℕ
  pub connect_guid : List ℕ
  pub outcomes : List Outcome
  pub sent : List ℕ

abbrev pub new_session : List Outcome → Session
new_session outcomes = record {
  session_key = [];
  is_established = false;
  encrypt_count = 0;
  connect_guid = [];
  outcomes = outcomes;
  sent = [];
}

-- The loop of writeReliableLocked; a connection that has nothing more to do has failed.
unfoldable pub write_loop : List Outcome → List ℕ → Session → Bool × Session
write_loop outcomes [] s = (true, record s { outcomes = outcomes })
write_loop [] (b ∷ frame) s = (false, record s { outcomes = [] })
write_loop (write_failed ∷ outcomes) (b ∷ frame) s = (false, record s { outcomes = outcomes })
write_loop (wrote n ∷ outcomes) (b ∷ frame) s =
    let rest =
      write_loop outcomes (drop n (b ∷ frame)) (record s { sent = s.sent ++ take n (b ∷ frame) }) in
    if n == 0 then (false, record s { outcomes = outcomes }) else rest

unfoldable pub send_reliable : List ℕ → Session → Bool × Session
unfolding write_loop encode_frame
send_reliable payload s = write_loop s.outcomes (encode_frame marker_reliable payload) s

unfoldable pub send_plain : Message → Session → Bool × Session
unfolding send_reliable encode_plain
send_plain msg s = send_reliable (encode_plain msg) s

-- A message that cannot be enciphered is not sent and not counted.
abbrev send_sealed : Option (List ℕ) → Session → Bool × Session
send_sealed none s = (false, s)
send_sealed (some payload) s =
    send_reliable payload (record s { encrypt_count = (s.encrypt_count + 1) % 2 ^ 16 })

unfoldable pub send_encrypted : BlockCipher → Message → Session → Bool × Session
unfolding send_reliable encode_encrypted
send_encrypted c msg s = send_sealed (encode_encrypted c s.session_key s.encrypt_count msg) s

unfoldable pub frame_type : Frame → ℕ
frame_type frame = elim frame.payload [ [] ↦ 0 | b ∷ rest ↦ b ]

-- The server's keys and address, and what its libraries do.
pub record Config : Type 0 where
  pub public_der : List ℕ
  pub host : List ℕ
  pub port : ℕ
  pub cipher : BlockCipher
  pub oaep : Oaep

-- A handler's error is only logged, so a handler is what it does to the session and to `W`.
abbrev pub Handler : Type 0 → Type 0
Handler W = Message → Session × W → Session × W

module _ {W : Type 0} (config : Config) (handlers : List (ℕ × Handler W)) where
  abbrev pub handled : Option (Handler W) → Message → Session × W → Session × W
  handled none msg st = st
  handled (some handler) msg st = handler msg st

  unfoldable pub dispatch : Message → Session × W → Session × W
  dispatch msg st = handled (value_at msg.id handlers) msg st

  abbrev pub sent_in : Bool × Session → W → Bool × Session × W
  sent_in (ok, s) w = (ok, s, w)

  abbrev pub set_up : Setup → Session × W → Bool × Session × W
  set_up (established key) (s, w) =
      sent_in
        (send_reliable server_auth_success (record s { session_key = key; is_established = true }))
        w
  set_up (Setup.refused e) (s, w) = (false, s, w)

  abbrev pub connected : Connect → Session × W → Bool × Session × W
  connected (connect client) (s, w) =
      sent_in
        (send_reliable (build_server_connect_success client config.host config.port)
          (record s { connect_guid = client.guid }))
        w
  connected (broken e) (s, w) = (false, s, w)

  abbrev pub decoded : Opened → Session × W → Bool × Session × W
  decoded (opened msg count) st = let (s, w) = dispatch msg st in (true, s, w)
  decoded (refused e) (s, w) = (false, s, w)

  unfoldable pub handle_encrypted : Frame → Session × W → Bool × Session × W
  unfolding decode_encrypted dispatch
  handle_encrypted frame (s, w) =
      if not s.is_established
      then (false, s, w)
      else decoded (decode_encrypted config.cipher s.session_key frame.payload) (s, w)

  abbrev pub plain : Option Message → Session × W → Session × W
  plain none st = st
  plain (some msg) st = if is_internal msg then st else dispatch msg st

  unfoldable pub handle_plain : Frame → Session × W → Session × W
  unfolding decode_plain is_internal dispatch
  handle_plain frame st = plain (decode_plain frame.payload) st

  -- Whether the frame was handled without an error, and the state.
  unfoldable pub handle_frame : Frame → Session × W → Bool × Session × W
  unfolding is_client_hello send_reliable build_connection_params frame_type parse_crypto_setup
      parse_client_connect build_server_connect_success handle_encrypted handle_plain
  handle_frame frame (s, w) =
      let t = frame_type frame in
      if is_client_hello frame
      then sent_in (send_reliable (build_connection_params config.public_der) s) w
      else if t == msg_crypto_setup
      then set_up (parse_crypto_setup config.cipher config.oaep frame.payload) (s, w)
      else if t == msg_client_connect
      then connected (parse_client_connect frame.payload) (s, w)
      else if t == msg_heartbeat
      then sent_in (send_reliable frame.payload s) w
      else if t == envelope_encrypted
      then handle_encrypted frame (s, w)
      else if t == envelope_plain
      then (let (s', w') = handle_plain frame (s, w) in (true, s', w'))
      else (true, s, w)

  -- What comes after a call is done if the call returned without an error.
  abbrev pub if_ok : Bool × Session × W → (Session × W → Bool × Session × W) → Bool × Session × W
  if_ok (ok, s, w) next = if ok then next (s, w) else (false, s, w)

  abbrev pub again : Bool × Session × W → (Session × W → Session × W) → Session × W
  again (ok, s, w) loop = if ok then loop (s, w) else (s, w)

  -- The loop over the frames of a read, which an error ends.
  unfoldable pub handle_frames : List Frame → Session × W → Bool × Session × W
  unfolding handle_frame
  handle_frames [] (s, w) = (true, s, w)
  handle_frames (frame ∷ frames) st = if_ok (handle_frame frame st) (handle_frames frames)

  abbrev pub after_parse :
      Option FrameError → List Frame → Session × W → (Session × W → Session × W) → Session × W
  after_parse (some e) frames st loop = st
  after_parse none frames st loop = again (handle_frames frames st) loop

  -- The loop of handleConnection over what each read gives; the connection ends where the reads do. The
  -- second argument is `pending`.
  unfoldable pub handle_reads : List (List ℕ) → List ℕ → Session × W → Session × W
  unfolding parse_frames handle_frames
  handle_reads [] pending st = st
  handle_reads (chunk ∷ reads) pending st =
      let parsed = parse_frames (pending ++ chunk) in
      after_parse parsed.error parsed.frames st (handle_reads reads parsed.remaining)
