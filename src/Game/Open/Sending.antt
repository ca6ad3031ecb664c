-- ===== src/Game/Open/Sending.antt =====
-- The handlers that only send keep the open rooms.
use fear_online_server.Prelude.{ℕ, List, String, Option, none}
use fear_online_server.Game.{Env}
use fear_online_server.Game.Broadcast.{
  send_all, broadcast_room, broadcast_room_except, tell_match, push, send_to_account,
}
use fear_online_server.Game.Rooms.{welcome_user}
use fear_online_server.Rooms.Room.{RoomUser}
use fear_online_server.Game.Open.Keeps.{Keeps, keeps}

module _ {S : Type 0} where
  pub send_all-Keeps : (x : ℕ) (msgs : List (ℕ × List ℕ)) → Keeps {S = S} (send_all x msgs)
  send_all-Keeps x msgs = search keeps

  pub broadcast_room_except-Keeps :
      (h : ℕ) (skip : Option ℕ) (id : ℕ) (body : List ℕ)
      → Keeps {S = S} (broadcast_room_except h skip id body)
  unfolding broadcast_room_except
  broadcast_room_except-Keeps h skip id body = search keeps depth 8

  pub broadcast_room-Keeps : (h id : ℕ) (body : List ℕ) → Keeps {S = S} (broadcast_room h id body)
  unfolding broadcast_room
  broadcast_room-Keeps h id body = broadcast_room_except-Keeps h none id body

  pub tell_match-Keeps : (h id : ℕ) (body : List ℕ) → Keeps {S = S} (tell_match h id body)
  unfolding tell_match
  tell_match-Keeps h id body = search keeps depth 8

  pub push-Keeps :
      (steam_id : String) (id : ℕ) (body : List ℕ) → Keeps {S = S} (push steam_id id body)
  unfolding push
  push-Keeps steam_id id body = search keeps depth 8

  pub send_to_account-Keeps :
      (steam_id : String) (msgs : List (ℕ × List ℕ)) → Keeps {S = S} (send_to_account steam_id msgs)
  unfolding send_to_account
  send_to_account-Keeps steam_id msgs = search (keeps, send_all-Keeps) depth 8

  module _ (env : Env S) where
    pub welcome_user-Keeps : (x h : ℕ) (user : RoomUser) → Keeps (welcome_user env x h user)
    unfolding welcome_user
    welcome_user-Keeps x h user =
        search (keeps, send_all-Keeps, broadcast_room_except-Keeps) depth 8
