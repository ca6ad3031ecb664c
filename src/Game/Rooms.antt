-- ===== src/Game/Rooms.antt =====
-- lobby.go, the handlers of room.go, and releaseSession of server.go. A registry of rooms without a free
-- number never answers; here that request fails.
use fear_online_server.Game.Ids.{
  rmi_answer_clan_room_list, rmi_answer_lobby_join, rmi_answer_lobby_leave, rmi_answer_lobby_list,
  rmi_answer_lobby_user_list, rmi_answer_room_create, rmi_answer_room_join_fail,
  rmi_answer_room_join_ok, rmi_answer_room_leave, rmi_answer_room_list, rmi_answer_room_ready,
  rmi_notify_open_map_info, rmi_notify_open_map_list, rmi_notify_room_info, rmi_notify_room_leader,
  rmi_notify_room_map_info, rmi_notify_room_user_info, rmi_notify_state_info, rmi_notify_team_info,
  rmi_notify_team_list, rmi_send_clan_room_list, rmi_send_lobby_list, rmi_send_lobby_user_list,
  rmi_send_room_list, rmi_send_room_user_list,
}
use fear_online_server.Prelude.{
  ℕ, String, Bool, true, false, not, ◌&&◌, ltb, ◌=ₛ◌, if◌then◌else◌, List, [], ◌∷◌, ◌++◌, length,
  Option, none, some,
}
use fear_online_server.Prelude.Int.{pos}
use fear_online_server.Models.Player.{Player}
use fear_online_server.Wire.Varint.{encode_var_int}
use fear_online_server.Wire.Bytes.{append_uint32, read_uint16}
use fear_online_server.Wire.Read.{Read, read, malformed}
use fear_online_server.Wire.Text.{read_proud_string}
use fear_online_server.Rooms.Room.{Room, RoomUser, add_user, next_team, toggle_ready}
use fear_online_server.Rooms.Registry.{find_room, list_rooms}
use fear_online_server.Rooms.Sessions.{unbind}
use fear_online_server.Rooms.Create.{Creation, created, failed, user_of, parse_create}
use fear_online_server.Rooms.Payloads.{
  open_map_info, room_map_info, room_info, room_user_list, append_room_user, team_list,
}
use fear_online_server.Lobby.Social.{open_map_list}
use fear_online_server.Game.Seating.{create_place, sit, vacate, stand_nowhere, change_room}
use fear_online_server.Game.Broadcast.{broadcast_room, broadcast_room_except, send_all}
use fear_online_server.Game.Start.{no_reason, solo_start_on_ready}
use fear_online_server.Game.{
  World, Places, Env, Act, pure, fail, ◌>>=◌, ◌>>◌, gets, modify, given, send, room_at, account_of,
  room_of_session, user_of_session, change_places, unless_none,
}

abbrev pub nothing : List ℕ
nothing = 0 ∷ []

module _ {S : Type 0} (env : Env S) where
  unfoldable pub join_lobby : ℕ → List ℕ → Act S (Unit {0})
  unfolding open_map_list
  join_lobby x body = do
    send x rmi_answer_lobby_join (1 ∷ [])
    send x rmi_notify_open_map_list (open_map_list env.catalog)

  unfoldable pub leave_lobby : ℕ → List ℕ → Act S (Unit {0})
  leave_lobby x body = send x rmi_answer_lobby_leave []

  unfoldable pub lobby_list : ℕ → List ℕ → Act S (Unit {0})
  lobby_list x body = do send x rmi_answer_lobby_list []; send x rmi_send_lobby_list nothing

  unfoldable pub append_rooms : (ℕ → Room) → List ℕ → List ℕ → List ℕ
  unfolding room_info
  append_rooms heap body [] = body
  append_rooms heap body (h ∷ handles) =
      append_rooms heap (body ++ room_info env.runes (heap h)) handles

  unfoldable pub room_list : ℕ → List ℕ → Act S (Unit {0})
  unfolding append_rooms list_rooms encode_var_int
  room_list x body = do
    send x rmi_answer_room_list []
    places ← gets (λ w. w.places)
    let handles = list_rooms places.rooms
    send x rmi_send_room_list
        (append_rooms places.heap (encode_var_int (pos (length handles))) handles)

  unfoldable pub clan_room_list : ℕ → List ℕ → Act S (Unit {0})
  clan_room_list x body = do
    send x rmi_answer_clan_room_list []
    send x rmi_send_clan_room_list nothing

  unfoldable pub lobby_user_list : ℕ → List ℕ → Act S (Unit {0})
  lobby_user_list x body = do
    send x rmi_answer_lobby_user_list []
    send x rmi_send_lobby_user_list nothing

  -- What tells a client of the room that it has entered.
  unfoldable pub room_pushes : Room → List (ℕ × List ℕ)
  unfolding open_map_info room_info room_map_info room_user_list team_list
  room_pushes room =
      (rmi_notify_open_map_info, open_map_info room)
      ∷ (rmi_notify_room_info, room_info env.runes room)
      ∷ (rmi_notify_room_map_info, room_map_info room)
      ∷ (rmi_send_room_user_list, room_user_list env.runes room.users)
      ∷ (rmi_notify_team_list, team_list room.users)
      ∷ (rmi_notify_room_leader, append_uint32 [] room.leader_id)
      ∷ []

  -- Open, setSessionRoom and setSessionRoomUser: the handle of the room.
  abbrev pub settled : World S → Option Places → Option ℕ × World S
  settled w none = (none, w)
  settled w (some places) = (some w.places.fresh, record w { places = places })

  unfoldable pub settle_room : ℕ → Room → Act S ℕ
  unfolding create_place
  settle_room x room w = settled w (create_place x room w.places)

  abbrev pub create_parsed : ℕ → Creation → Act S (Unit {0})
  create_parsed x (failed e) = fail
  create_parsed x (created parsed) = do
    h ← settle_room x parsed
    room ← room_at h
    send_all x (room_pushes room)
    send x rmi_answer_room_create []

  unfoldable pub create_room : ℕ → List ℕ → Act S (Unit {0})
  unfolding parse_create settle_room room_pushes
  create_room x body = do
    account ← account_of x
    player ← given account
    create_parsed x (parse_create env.text env.catalog body player)

  unfoldable pub refuse_join : ℕ → Act S (Unit {0})
  refuse_join x = send x rmi_answer_room_join_fail no_reason

  -- What follows once the user has a seat.
  unfoldable pub welcome_user : ℕ → ℕ → RoomUser → Act S (Unit {0})
  unfolding room_pushes append_room_user broadcast_room_except
  welcome_user x h user = do
    room ← room_at h
    send_all x (room_pushes room)
    send x rmi_answer_room_join_ok []
    broadcast_room_except h (some x) rmi_notify_room_user_info (append_room_user env.runes [] user)
    broadcast_room_except h (some x) rmi_notify_team_info
        (append_uint32 [] user.id ++ (user.team ∷ []))

  abbrev pub seated : ℕ → ℕ → Option (RoomUser × Room) → Act S (Unit {0})
  seated x h none = refuse_join x
  seated x h (some (user, room)) = do change_places (sit x h (user, room)); welcome_user x h user

  unfoldable pub take_seat : ℕ → ℕ → Player → Act S (Unit {0})
  unfolding refuse_join welcome_user sit add_user user_of next_team
  take_seat x h player = do
    room ← room_at h
    seated x h (add_user room (user_of player (next_team room)))

  abbrev pub join_found : ℕ → String → Player → Option ℕ → Act S (Unit {0})
  join_found x password player none = refuse_join x
  join_found x password player (some h) = do
    room ← room_at h
    if not (room.password =ₛ "") && not (room.password =ₛ password)
        then refuse_join x
        else take_seat x h player

  abbrev pub join_with : ℕ → (number : ℕ) → Player → Read (List ℕ) → Act S (Unit {0})
  join_with x number player (malformed e) = refuse_join x
  join_with x number player (read password next) = do
    found ← gets (λ w. find_room w.places.rooms number)
    join_found x (env.text password) player found

  unfoldable pub join_room : ℕ → List ℕ → Act S (Unit {0})
  unfolding refuse_join take_seat find_room read_proud_string
  join_room x body = do
    account ← account_of x
    player ← given account
    if ltb (length body) 2
        then refuse_join x
        else join_with x (read_uint16 body) player (read_proud_string body 2)

  -- RemoveUser and Close.
  abbrev vacated : World S → Bool × Places → Option Bool × World S
  vacated w (empty, places) = (some empty, record w { places = places })

  unfoldable pub vacate_seat : ℕ → (user : ℕ) → Act S Bool
  unfolding vacate
  vacate_seat h user w = vacated w (vacate h user w.places)

  unfoldable pub leave_seat : ℕ → ℕ → Act S (Unit {0})
  unfolding vacate_seat broadcast_room room_user_list
  leave_seat x h = do
    user ← user_of_session x
    empty ← vacate_seat h user
    room ← room_at h
    if empty
        then pure tt
        else broadcast_room h rmi_send_room_user_list (room_user_list env.runes room.users)

  unfoldable pub leave_room : ℕ → List ℕ → Act S (Unit {0})
  unfolding leave_seat stand_nowhere
  leave_room x body = do
    found ← room_of_session x
    unless_none found (pure tt) (leave_seat x)
    change_places (stand_nowhere x)
    send x rmi_answer_room_leave []

  unfoldable pub tell_toggled : ℕ → ℕ → (user state : ℕ) → Act S (Unit {0})
  unfolding broadcast_room solo_start_on_ready
  tell_toggled x h user state = do
    send x rmi_answer_room_ready []
    broadcast_room h rmi_notify_state_info (append_uint32 [] user ++ (state ∷ []))
    solo_start_on_ready env x h state

  abbrev pub toggled_by : ℕ → ℕ → (user : ℕ) → ℕ × Bool × Room → Act S (Unit {0})
  toggled_by x h user (state, false, room) = fail
  toggled_by x h user (state, true, room) = do
    change_places (change_room h (λ r. room))
    tell_toggled x h user state

  abbrev pub ready_in : ℕ → ℕ → (user : ℕ) → Act S (Unit {0})
  ready_in x h user = do room ← room_at h; toggled_by x h user (toggle_ready room user)

  unfoldable pub ready : ℕ → List ℕ → Act S (Unit {0})
  unfolding toggle_ready change_room tell_toggled
  ready x body = do
    found ← room_of_session x
    h ← given found
    user ← user_of_session x
    ready_in x h user

  abbrev pub release_seat : ℕ → ℕ → Act S (Unit {0})
  release_seat x h = do
    user ← user_of_session x
    empty ← vacate_seat h user
    change_places (stand_nowhere x)

  -- What is done when a connection ends.
  unfoldable pub release_session : ℕ → Act S (Unit {0})
  unfolding vacate_seat stand_nowhere unbind
  release_session x = do
    found ← room_of_session x
    unless_none found (pure tt) (release_seat x)
    modify (λ w. record w { registry = unbind w.registry x })
