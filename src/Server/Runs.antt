-- ===== src/Server/Runs.antt =====
-- A client hello and a heartbeat that arrive in three pieces.
use fear_online_server.Prelude.{ℕ, ◌≡◌, refl, true, List, [], ◌∷◌, ◌++◌, some}
use native.Mathlib.Decide.{dec_lt}
use fear_online_server.Prelude.WellFounded.{lt_wf}
use fear_online_server.Wire.Cipher.{BlockCipher}
use fear_online_server.Wire.Frame.{frame_round, parse_frames}
use fear_online_server.Wire.Varint.{encode_var_int, decode_var_int}
use fear_online_server.Server.{
  Session, Config, wrote, write_failed, new_session, handle_frames, handle_reads,
}
use fear_online_server.Server.Stream.{joined, state_of, handle_reads-joined}

abbrev idle : BlockCipher
idle = record { accepts = λ key. true; encrypt = λ key b. b; decrypt = λ key b. b }

abbrev config : Config
config = record {
  public_der = 1 ∷ 2 ∷ [];
  host = [];
  port = 7000;
  cipher = idle;
  oaep = λ b. some b;
}

abbrev fresh : Session
fresh = new_session (wrote 3 ∷ wrote 9 ∷ write_failed ∷ [])

abbrev beat : List ℕ
beat = 0x13 ∷ 0x57 ∷ 1 ∷ 0x1C ∷ []

abbrev reads : List (List ℕ)
reads = (0x13 ∷ 0x57 ∷ []) ∷ (1 ∷ 0x1C ∷ 0x13 ∷ []) ∷ (0x57 ∷ 1 ∷ 0x1C ∷ []) ∷ []

handle_reads-joined_example :
    handle_reads config [] reads [] (fresh, tt {0})
    ≡ state_of config [] (handle_frames config [] (parse_frames (beat ++ beat)).frames (fresh, tt))
unfolding parse_frames joined frame_round decode_var_int
handle_reads-joined_example = handle_reads-joined config [] reads (fresh, tt) refl

-- The first heartbeat is answered in two writes, and the second write of its answer ends the frame.
answered : (let (s, w) = handle_reads config [] reads [] (fresh, tt {0}) in s.sent) ≡ beat
unfolding parse_frames frame_round decode_var_int handle_reads handle_frames encode_var_int lt_wf
    dec_lt
answered = refl
