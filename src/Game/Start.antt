-- ===== src/Game/Start.antt =====
-- game_start.go and solo_start_hack.go: the leader of a room starts its match.
use fear_online_server.Game.Ids.{
  rmi_answer_game_start_fail, rmi_answer_game_start_ok, rmi_notify_game_start, rmi_notify_room_game,
}
use fear_online_server.Prelude.{
  ℕ, String, ◌&&◌, ◌==◌, if◌then◌else◌, List, [], ◌∷◌, ◌++◌, Option, some, replicate,
}
use fear_online_server.Wire.Bytes.{append_uint16, append_uint32}
use fear_online_server.Wire.Text.{write_proud_string}
use fear_online_server.Rooms.Room.{wire_state_ready}
use fear_online_server.Match.{MatchTickets, issue_ticket}
use fear_online_server.Game.Seating.{change_room}
use fear_online_server.Game.Broadcast.{broadcast_room, sessions_in_room}
use fear_online_server.Game.{
  World, Env, Act, pure, ◌>>=◌, ◌>>◌, attempt, each_of, send, room_at, room_of_session,
  user_of_session, change_places, unless_none,
}

abbrev pub lith_tech_port : ℕ
lith_tech_port = 27889

abbrev user_key_kind : ℕ
user_key_kind = 1

-- The body of most refusals: `appendUint32(nil, 0)` and `int32LE(0)`.
abbrev pub no_reason : List ℕ
no_reason = append_uint32 [] 0

abbrev pub drawn : {S : Type 0} → World S → ℕ × MatchTickets → Option ℕ × World S
drawn w (ticket, tickets) = (some ticket, record w { tickets = tickets })

module _ {S : Type 0} (env : Env S) where
  unfoldable pub notify_game_start_row : String → (port user ticket : ℕ) → List ℕ
  notify_game_start_row host port user ticket =
      let body = append_uint32 (append_uint16 (write_proud_string [] (env.runes host)) port) user in
      body ++ (user_key_kind ∷ append_uint16 [] ticket) ++ replicate 14 0

  abbrev pub draw_ticket : (room user : ℕ) → Act S ℕ
  draw_ticket h user w = drawn w (issue_ticket w.tickets h user)

  unfoldable pub start_member : ℕ → ℕ → Act S (Unit {0})
  unfolding notify_game_start_row
  start_member h x = do
    seat ← user_of_session x
    ticket ← draw_ticket h seat
    attempt (
        send x rmi_answer_game_start_ok []
        >> send x rmi_notify_game_start
            (notify_game_start_row env.game_host env.game_port seat ticket))

  unfoldable pub start_match : ℕ → String → Act S (Unit {0})
  unfolding start_member change_room broadcast_room
  start_match h host = do
    change_places (change_room h (λ room. record room { host = host }))
    broadcast_room h rmi_notify_room_game (1 ∷ [])
    room ← room_at h
    xs ← sessions_in_room room.number
    each_of (start_member h) xs

  unfoldable pub begin_match : (leader room : ℕ) → Act S (Unit {0})
  unfolding start_match
  begin_match leader h =
      unless_none (env.address leader) (send leader rmi_answer_game_start_fail no_reason)
        (start_match h)

  abbrev may_start : ℕ → ℕ → Act S (Unit {0})
  may_start x h = do
    user ← user_of_session x
    room ← room_at h
    if user == room.leader_id then begin_match x h else send x rmi_answer_game_start_fail no_reason

  unfoldable pub game_start : ℕ → List ℕ → Act S (Unit {0})
  unfolding begin_match
  game_start x body = do
    found ← room_of_session x
    unless_none found (send x rmi_answer_game_start_fail no_reason) (may_start x)

  unfoldable pub solo_start_on_ready : ℕ → (room state : ℕ) → Act S (Unit {0})
  unfolding begin_match
  solo_start_on_ready x h state = do
    user ← user_of_session x
    room ← room_at h
    if state == wire_state_ready && user == room.leader_id
        then attempt (begin_match x h)
        else pure tt
