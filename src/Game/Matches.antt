-- ===== src/Game/Matches.antt =====
-- matchStart of game_session.go: a second connection takes up a seat and is told of the match.
use fear_online_server.Game.Ids.{
  rmi_answer_match_start_fail, rmi_answer_match_start_ok, rmi_notify_game_info,
  rmi_notify_game_user_list, rmi_notify_host_server, rmi_notify_in_game_item, rmi_notify_map_info,
  rmi_notify_team_equip_list, rmi_notify_user_equip_list, rmi_notify_user_function_list,
}
use fear_online_server.Prelude.{
  ℕ, suc, ◌+◌, ◌%◌, ◌^◌, String, false, ltb, ◌==◌, if◌then◌else◌, List, [], ◌∷◌, ◌++◌, length, drop,
  replicate, Option, none, some,
}
use fear_online_server.Prelude.NatMap.{put}
use fear_online_server.Prelude.Int.{pos}
use fear_online_server.Models.Player.{Player, no_player}
use fear_online_server.Repositories.Exec.{Result, ok, err}
use fear_online_server.Repositories.Table.{lookup}
use fear_online_server.Wire.Varint.{encode_var_int}
use fear_online_server.Wire.Bytes.{read_uint16, read_uint32}
use fear_online_server.Rooms.Room.{Room, RoomUser, room_member}
use fear_online_server.Rooms.Payloads.{room_map_info}
use fear_online_server.Lobby.Social.{account_or_zero}
use fear_online_server.Lobby.Game.{game_user_list, notify_host_server_row}
use fear_online_server.Match.{redeem_ticket, join_match, seat_index, equip_row, build_user_equip}
use fear_online_server.Game.Broadcast.{send_all}
use fear_online_server.Game.Start.{no_reason, lith_tech_port}
use fear_online_server.Game.{
  Places, Env, Act, pure, ◌>>=◌, ◌>>◌, gets, modify, send, serve, room_at, change_places,
  unless_none,
}

abbrev user_key_bytes : ℕ
user_key_bytes = 21

module _ {S : Type 0} (env : Env S) where
  abbrev account_in : String → Result (List (String × Player)) → Player
  account_in steam_id (ok accounts) = account_or_zero (lookup steam_id accounts)
  account_in steam_id (err e) = no_player

  -- loadSeat: the account of a user, or the zero account.
  unfoldable pub load_seat : RoomUser → Act S Player
  load_seat seat = do
    accounts ← serve (env.players.find_many (seat.steam_id ∷ []))
    pure (account_in seat.steam_id accounts)

  -- The loop of matchSnapshot over the users, from an index on.
  unfoldable pub equip_rows_of : List ℕ → (index : ℕ) → List RoomUser → Act S (List ℕ)
  unfolding load_seat build_user_equip equip_row
  equip_rows_of body index [] = pure body
  equip_rows_of body index (user ∷ users) = do
    account ← load_seat user
    equip_rows_of (body ++ equip_row (build_user_equip ((index + 1) % 2 ^ 8) account)) (suc index)
        users

  abbrev team_of : Option RoomUser → ℕ
  team_of none = 0
  team_of (some user) = user.team

  unfoldable pub match_snapshot : Room → List RoomUser → (viewer : ℕ) → Act S (List (ℕ × List ℕ))
  unfolding equip_rows_of encode_var_int room_member room_map_info seat_index game_user_list
      notify_host_server_row
  match_snapshot room users viewer = do
    let team = team_of (room_member room viewer)
    equips ← equip_rows_of (encode_var_int (pos (length users))) 0 users
    pure (
        (rmi_notify_map_info, room_map_info room ++ (0 ∷ []))
        ∷ (
          rmi_notify_game_info,
          seat_index users viewer ∷ seat_index users room.leader_id ∷ team ∷ team ∷ [],
        )
        ∷ (rmi_notify_in_game_item, replicate 3 0)
        ∷ (rmi_notify_game_user_list, game_user_list env.runes users)
        ∷ (rmi_notify_team_equip_list, encode_var_int (pos 0))
        ∷ (rmi_notify_user_equip_list, equips)
        ∷ (rmi_notify_user_function_list, encode_var_int (pos 0))
        ∷ (
          rmi_notify_host_server,
          notify_host_server_row env.runes room.host lith_tech_port (viewer == room.leader_id)
              false,
        )
        ∷ [])

  abbrev match_refused : ℕ → Act S (Unit {0})
  match_refused x = send x rmi_answer_match_start_fail no_reason

  -- bindMatchSession.
  unfoldable pub bind_match_session : ℕ → Player → (room user : ℕ) → Places → Places
  bind_match_session x player h user p = record p {
    states =
        put x (record { player = player; room = some h; room_user = user; channel = 0 }) p.states;
  }

  unfoldable pub enter_match : ℕ → ℕ → (user : ℕ) → RoomUser → Act S (Unit {0})
  unfolding load_seat bind_match_session join_match match_snapshot
  enter_match x h user seat = do
    account ← load_seat seat
    change_places (bind_match_session x account h user)
    room ← room_at h
    modify (λ w. record w { matches = join_match w.matches room.number x })
    msgs ← match_snapshot room room.users user
    send_all x msgs
    send x rmi_answer_match_start_ok []

  abbrev match_found : ℕ → (user : ℕ) → ℕ → Act S (Unit {0})
  match_found x user h = do
    room ← room_at h
    unless_none (room_member room user) (match_refused x) (enter_match x h user)

  abbrev match_asked : ℕ → (user ticket : ℕ) → Act S (Unit {0})
  match_asked x user ticket = do
    found ← gets (λ w. redeem_ticket w.tickets ticket user)
    unless_none found (match_refused x) (match_found x user)

  unfoldable pub match_start : ℕ → List ℕ → Act S (Unit {0})
  unfolding redeem_ticket room_member enter_match read_uint32
  match_start x body =
      if ltb (length body) user_key_bytes
      then match_refused x
      else match_asked x (read_uint32 body) (read_uint16 (drop 5 body))
