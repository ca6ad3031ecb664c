-- ===== src/Identity.antt =====
-- server/internal/proudnet/identity.go, the queries of session_registry.go that read it, and
-- server/internal/auth/auth.go: what a connection knows of its account. Sessions and rooms are handles:
-- `data` is the State of each session, and `heap` what a room's handle points to.
use fear_online_server.Prelude.{
  ℕ, String, Bool, true, false, ◌=ₛ◌, ◌==◌, if◌then◌else◌, List, [], ◌∷◌, map, Option, none, some,
  filter_by,
}
use fear_online_server.Prelude.NatMap.{value_at, put}
use fear_online_server.Models.Player.{Player}
use fear_online_server.Repositories.Table.{lookup, insert}
use fear_online_server.Rooms.Room.{Room}
use fear_online_server.Rooms.Sessions.{SessionRegistry, bind, sessions}
use fear_online_server.Lobby.Social.{Presence}

pub record SessionData : Type 0 where
  pub player : Player
  pub room : Option ℕ
  pub room_user : ℕ
  pub channel : ℕ

-- The State of the sessions that have one.
abbrev pub States : Type 0
States = List (ℕ × SessionData)

-- The sessions' State and the registry of a server.
unfoldable pub bind_player :
    States → SessionRegistry → (session : ℕ) → Player → States × SessionRegistry
unfolding bind
bind_player states registry session player = (
  put session (record { player = player; room = none; room_user = 0; channel = 0 }) states,
  bind registry player.steam_id session,
)

abbrev player_of : Option SessionData → Option Player
player_of none = none
player_of (some d) = some d.player

abbrev pub room_of : Option SessionData → Option ℕ
room_of none = none
room_of (some d) = d.room

abbrev channel_of : Option SessionData → ℕ
channel_of none = 0
channel_of (some d) = d.channel

abbrev room_user_of : Option SessionData → ℕ
room_user_of none = 0
room_user_of (some d) = d.room_user

unfoldable pub resolve_player : States → ℕ → Option Player
resolve_player states session = player_of (value_at session states)

unfoldable pub session_room : States → ℕ → Option ℕ
session_room states session = room_of (value_at session states)

unfoldable pub session_channel : States → ℕ → ℕ
session_channel states session = channel_of (value_at session states)

unfoldable pub session_room_user : States → ℕ → ℕ
session_room_user states session = room_user_of (value_at session states)

-- A session without a State is left as it is.
abbrev pub change_state : States → ℕ → (SessionData → SessionData) → Option SessionData → States
change_state states session f none = states
change_state states session f (some d) = put session (f d) states

unfoldable pub set_session_player : States → ℕ → Player → States
set_session_player states session player =
    change_state states session (λ d. record d { player = player }) (value_at session states)

unfoldable pub set_session_channel : States → ℕ → ℕ → States
set_session_channel states session channel =
    change_state states session (λ d. record d { channel = channel }) (value_at session states)

unfoldable pub set_session_room_user : States → ℕ → ℕ → States
set_session_room_user states session id =
    change_state states session (λ d. record d { room_user = id }) (value_at session states)

unfoldable pub set_session_room : States → ℕ → Option ℕ → States
set_session_room states session room =
    change_state states session (λ d. record d { room = room }) (value_at session states)

module _ (heap : ℕ → Room) where
  abbrev seen_room : Option ℕ → ℕ → ℕ
  seen_room none number = number
  seen_room (some handle) number = (heap handle).number

  -- The loop of Presence over the sessions of an account.
  unfoldable pub seen : States → List ℕ → Presence → Presence
  unfolding session_channel session_room
  seen states [] p = p
  seen states (x ∷ xs) p = seen states xs (record p {
    online = true;
    channel = if session_channel states x == 0 then p.channel else session_channel states x;
    room = seen_room (session_room states x) p.room;
  })

  unfoldable pub presence : States → SessionRegistry → String → Presence
  unfolding seen sessions
  presence states registry steam_id =
      seen states (sessions registry steam_id)
        (record { channel = 0; lobby = 0; room = 0; online = false; in_game = false })

  abbrev stands_in : ℕ → Option ℕ → Bool
  stands_in number none = false
  stands_in number (some handle) = (heap handle).number == number

  unfoldable pub in_room : States → SessionRegistry → ℕ → List ℕ
  unfolding session_room
  in_room states registry number =
      filter_by (λ x. stands_in number (session_room states x))
        (map (λ e. e.0) registry.by_session_id)

abbrev pub Credentials : Type 0
Credentials = List (String × Player)

-- hex.EncodeToString is a parameter.
module _ (hex : List ℕ → String) where
  unfoldable pub issue : Credentials → List ℕ → Player → Credentials
  issue by_token token player = insert (hex token) player by_token

  unfoldable pub redeem : Credentials → List ℕ → Option Player
  redeem by_token token = lookup (hex token) by_token

-- The Result of the mock authenticator, which never fails.
pub record AuthResult : Type 0 where
  pub ok : Bool
  pub steam_id : String

unfoldable pub authenticate : (steam_id session_ticket : String) → AuthResult
authenticate steam_id session_ticket =
    if steam_id =ₛ ""
    then record { ok = false; steam_id = "" }
    else record { ok = true; steam_id = steam_id }
