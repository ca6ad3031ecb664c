-- ===== src/Lobby/Social.antt =====
-- friend.go, chat.go, clan_chat.go, clan_actions.go, clan_mark.go and lobby.go: the bodies that tell of friends,
-- chat, emblems and maps. `runes` is `[]rune(s)`. The type Presence is in session_registry.go.
use fear_online_server.Prelude.{
  ℕ, ◌%◌, ◌^◌, String, Bool, not, ltb, ◌=ₛ◌, if◌then◌else◌, List, [], ◌∷◌, ◌++◌, length, drop,
  Option, none, some,
}
use fear_online_server.Prelude.Int.{pos}
use fear_online_server.Models.Clan.{Clan, ClanMember, Mark}
use fear_online_server.Models.Player.{Player, Friend, FriendRequest, no_player}
use fear_online_server.Repositories.Table.{lookup}
use fear_online_server.Wire.Varint.{encode_var_int}
use fear_online_server.Wire.Bytes.{append_uint16, append_uint32, read_uint16}
use fear_online_server.Wire.Text.{write_proud_string}
use fear_online_server.Catalog.{Catalog, MapInfo, open_maps}
use fear_online_server.Rooms.Room.{Room}
use fear_online_server.Rooms.Create.{level_byte}
use fear_online_server.Rooms.Payloads.{bool_byte, append_clan_mark, room_map_info}

pub record Presence : Type 0 where
  pub channel : ℕ
  pub lobby : ℕ
  pub room : ℕ
  pub online : Bool
  pub in_game : Bool

-- A key that the map of accounts does not have gives the zero account.
abbrev pub account_or_zero : Option Player → Player
account_or_zero none = no_player
account_or_zero (some p) = p

abbrev pub clan_mark_size : ℕ
clan_mark_size = 8

unfoldable pub check_mark_verdict : Bool → List ℕ
check_mark_verdict available = bool_byte available ∷ []

-- The mark and its extra component.
unfoldable pub parse_clan_mark : List ℕ → Option (Mark × ℕ)
unfolding read_uint16
parse_clan_mark body =
    if ltb (length body) clan_mark_size
    then none
    else some (
      record {
        first = read_uint16 body;
        second = read_uint16 (drop 2 body);
        third = read_uint16 (drop 4 body);
      },
      read_uint16 (drop 6 body),
    )

unfoldable pub member_position_row : ClanMember → List ℕ
member_position_row member = append_uint32 (append_uint16 [] member.member_id) member.rank

unfoldable pub append_maps : List ℕ → List MapInfo → List ℕ
append_maps body [] = body
append_maps body (info ∷ maps) =
    append_maps (append_uint16 body (info.map_index % 2 ^ 16) ++ (1 ∷ [])) maps

unfoldable pub open_map_list : Catalog → List ℕ
unfolding append_maps open_maps encode_var_int
open_map_list catalog =
    let maps = open_maps catalog in append_maps (encode_var_int (pos (length maps))) maps

module _ (runes : String → List ℕ) where
  unfoldable pub room_invite : Room → List ℕ
  unfolding room_map_info
  room_invite room =
      write_proud_string ((append_uint16 [] room.number ++ (0 ∷ [])) ++ room_map_info room)
        (runes room.title)
      ++ (1 ∷ 0 ∷ [])

  unfoldable pub append_friend_info : List ℕ → Friend → Player → Clan → Presence → List ℕ
  unfolding append_clan_mark level_byte
  append_friend_info dst friend account clan presence =
      let named = write_proud_string (append_uint16 dst friend.friend_id) (runes account.name) in
      let marked = append_clan_mark (write_proud_string named (runes clan.name)) clan in
      append_uint16
        (marked
          ++ (bool_byte (not (clan.name =ₛ ""))
              ∷ level_byte account
              ∷ presence.channel
              ∷ presence.lobby
              ∷ []))
        presence.room
      ++ (bool_byte presence.online ∷ bool_byte presence.in_game ∷ [])

  unfoldable pub append_friend_request : List ℕ → FriendRequest → Player → List ℕ
  unfolding level_byte
  append_friend_request dst request account =
      write_proud_string (append_uint16 dst request.request_id) (runes account.name)
      ++ (level_byte account ∷ [])

  unfoldable pub append_friend_requests :
      List ℕ → List FriendRequest → List (String × Player) → List ℕ
  unfolding append_friend_request
  append_friend_requests body [] accounts = body
  append_friend_requests body (r ∷ requests) accounts =
      append_friend_requests
        (append_friend_request body r (account_or_zero (lookup r.steam_id accounts))) requests
        accounts

  unfoldable pub friend_request_list : Player → List (String × Player) → List ℕ
  unfolding append_friend_requests encode_var_int
  friend_request_list player accounts =
      append_friend_requests (encode_var_int (pos (length player.friend_requests)))
        player.friend_requests accounts

  unfoldable pub notify_chat_row : (speaker text : String) → (chat_type flag : ℕ) → List ℕ
  notify_chat_row speaker text chat_type flag =
      write_proud_string (write_proud_string [] (runes speaker)) (runes text)
      ++ (chat_type ∷ flag ∷ [])

  unfoldable pub clan_chat_row : (speaker text : String) → List ℕ
  clan_chat_row speaker text =
      write_proud_string (write_proud_string [] (runes speaker)) (runes text)
