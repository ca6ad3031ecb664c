-- ===== src/Game/Equips.antt =====
-- The handlers of game_equip.go: the equipment of the users of a match.
use fear_online_server.Game.Ids.{
  rmi_answer_change_weapon_fail, rmi_answer_change_weapon_ok, rmi_answer_user_equip_fail,
  rmi_answer_user_equip_ok, rmi_notify_user_equip_info, rmi_notify_user_weapon_info,
}
use fear_online_server.Prelude.{
  ℕ, zero, suc, ◌+◌, ◌*◌, String, ltb, if◌then◌else◌, List, [], ◌∷◌, length, take, drop,
}
use fear_online_server.Models.Player.{Player}
use fear_online_server.Repositories.Table.{lookup}
use fear_online_server.Services.Players.Shop.{change_weapons}
use fear_online_server.Wire.Bytes.{read_uint16}
use fear_online_server.Rooms.Room.{RoomUser, room_member}
use fear_online_server.Rooms.Create.{byte_at}
use fear_online_server.Lobby.Social.{account_or_zero}
use fear_online_server.Match.{equip_row, build_user_equip}
use fear_online_server.Game.Broadcast.{tell_match}
use fear_online_server.Game.Rounds.{seat_of}
use fear_online_server.Game.Start.{no_reason}
use fear_online_server.Game.{
  Env, Act, pure, ◌>>=◌, ◌>>◌, given, send, serve, room_at, account_of, room_of_session,
  keep_player, unless_none, unless_error, read_clock,
}

abbrev change_weapon_bytes : ℕ
change_weapon_bytes = 11

-- `binary.LittleEndian.Uint16(body[1+slot*2:])` for each of the slots that are left.
unfoldable pub weapon_serials : ℕ → (slot : ℕ) → List ℕ → List ℕ
weapon_serials zero slot body = []
weapon_serials (suc left) slot body =
    read_uint16 (drop (1 + slot * 2) body) ∷ weapon_serials left (suc slot) body

module _ {S : Type 0} (env : Env S) where
  abbrev equip_refused : ℕ → Act S (Unit {0})
  equip_refused x = send x rmi_answer_user_equip_fail no_reason

  abbrev equip_shown : ℕ → (asked : ℕ) → String → List (String × Player) → Act S (Unit {0})
  equip_shown x asked steam_id accounts = do
    send x rmi_answer_user_equip_ok (asked ∷ [])
    send x rmi_notify_user_equip_info
        (equip_row (build_user_equip asked (account_or_zero (lookup steam_id accounts))))

  unfoldable pub show_equip : ℕ → (asked : ℕ) → RoomUser → Act S (Unit {0})
  unfolding equip_row build_user_equip
  show_equip x asked seat = do
    accounts ← serve (env.players.find_many (seat.steam_id ∷ []))
    unless_error accounts (equip_refused x) (equip_shown x asked seat.steam_id)

  abbrev equip_asked : ℕ → List ℕ → ℕ → Act S (Unit {0})
  equip_asked x body h = do
    room ← room_at h
    if ltb (length body) 1
        then equip_refused x
        else unless_none (room_member room (byte_at 0 body)) (equip_refused x)
            (show_equip x (byte_at 0 body))

  unfoldable pub user_equip : ℕ → List ℕ → Act S (Unit {0})
  unfolding show_equip room_member
  user_equip x body = do
    found ← room_of_session x
    unless_none found (equip_refused x) (equip_asked x body)

  unfoldable pub tell_weapons : ℕ → Player → ℕ → Act S (Unit {0})
  unfolding seat_of tell_match equip_row build_user_equip
  tell_weapons x player h = do
    seat ← seat_of x
    tell_match h rmi_notify_user_weapon_info
        (take (1 + (5 + 6) * 4) (equip_row (build_user_equip seat player)))

  unfoldable pub weapons_changed : ℕ → List ℕ → Player → Act S (Unit {0})
  unfolding tell_weapons
  weapons_changed x body updated = do
    keep_player x updated
    send x rmi_answer_change_weapon_ok (byte_at 0 body ∷ [])
    found ← room_of_session x
    unless_none found (pure tt) (tell_weapons x updated)

  unfoldable pub change_weapon : ℕ → List ℕ → Act S (Unit {0})
  unfolding weapon_serials change_weapons weapons_changed
  change_weapon x body = do
    account ← account_of x
    player ← given account
    if ltb (length body) change_weapon_bytes
        then send x rmi_answer_change_weapon_fail (0 ∷ [])
        else (do
          now ← read_clock env
          changed ←
              serve (
                change_weapons env.players env.catalog player.steam_id (weapon_serials 5 0 body)
                  now)
          unless_error changed (send x rmi_answer_change_weapon_fail (0 ∷ []))
              (weapons_changed x body))
