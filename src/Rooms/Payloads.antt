-- ===== src/Rooms/Payloads.antt =====
-- The bodies of the room's messages: the end of room.go, userResultList and notifyDeathRow of
-- game_round.go, and the parts of clan.go and clan_member.go that they call. `runes` is `[]rune(s)`.
pub mod Teams
mod Runs
use fear_online_server.Prelude.{
  ℕ, suc, ◌+◌, ◌%◌, ◌^◌, String, Bool, not, ltb, ◌=ₛ◌, if◌then◌else◌, List, [], ◌∷◌, ◌++◌, length,
  replicate,
}
use fear_online_server.Prelude.Int.{ℤ, pos, negsuc, from_bits32}
use fear_online_server.Models.Clan.{Clan, Mark}
use fear_online_server.Wire.Varint.{encode_var_int}
use fear_online_server.Wire.Bytes.{append_uint16, append_uint32}
use fear_online_server.Wire.Text.{write_proud_string}
use fear_online_server.Rooms.Room.{Room, RoomUser, Score}
use fear_online_server.Rooms.Create.{byte_at}

abbrev pub clamp_byte : ℤ → ℕ
clamp_byte (negsuc n) = 0
clamp_byte (pos n) = if ltb 0xFF n then 0xFF else n

abbrev pub bool_byte : Bool → ℕ
bool_byte value = if value then 1 else 0

-- A component of a mark on the wire.
abbrev clamp_mark : ℤ → ℕ
clamp_mark (negsuc n) = 0
clamp_mark (pos n) = if ltb 0xFFFF n then 0xFFFF else n

unfoldable pub append_mark : List ℕ → ℕ → List ℕ
append_mark dst value = append_uint16 dst (clamp_mark (from_bits32 value))

unfoldable pub append_clan_mark : List ℕ → Clan → List ℕ
unfolding append_mark
append_clan_mark dst clan =
    let mark = clan.mark in
    append_uint16 (append_mark (append_mark (append_mark dst mark.first) mark.second) mark.third)
      clan.mark_extra

unfoldable pub open_map_info : Room → List ℕ
open_map_info room = append_uint16 [] (room.map_index % 2 ^ 16) ++ (1 ∷ [])

unfoldable pub room_map_info : Room → List ℕ
room_map_info room =
    append_uint16 [] (room.map_index % 2 ^ 16)
    ++ (room.display_mode_index ∷ room.round_limit ∷ room.objective_limit ∷ [])

unfoldable pub append_user_result : List ℕ → (seat : ℕ) → RoomUser → List ℕ
append_user_result dst seat user =
    let score = user.score in
    append_uint16
      (append_uint16
        (append_uint16
          (append_uint16 (append_uint16 (dst ++ (seat ∷ user.team ∷ [])) score.deaths)
            score.assists)
          score.kills)
        score.points)
      0
    ++ replicate 7 0

-- The loop of userResultList, from an index on.
unfoldable pub user_results : List ℕ → (index : ℕ) → List RoomUser → List ℕ
unfolding append_user_result
user_results body index [] = body
user_results body index (user ∷ users) =
    user_results (append_user_result body ((index + 1) % 2 ^ 8) user) (suc index) users

unfoldable pub user_result_list : List RoomUser → List ℕ
unfolding user_results
user_result_list users = user_results (encode_var_int (pos (length users))) 0 users

-- Go panics on a report of fewer than ten bytes; the caller checks the length.
unfoldable pub notify_death_row : List ℕ → List ℕ
unfolding byte_at
notify_death_row report =
    byte_at 0 report
    ∷ byte_at 1 report
    ∷ byte_at 2 report
    ∷ byte_at 7 report
    ∷ byte_at 8 report
    ∷ byte_at 9 report
    ∷ []

unfoldable pub append_teams : List ℕ → List RoomUser → List ℕ
append_teams body [] = body
append_teams body (user ∷ users) =
    append_teams (append_uint32 body user.id ++ (user.team ∷ [])) users

unfoldable pub team_list : List RoomUser → List ℕ
unfolding append_teams encode_var_int
team_list users = append_teams (encode_var_int (pos (length users))) users

module _ (runes : String → List ℕ) where
  unfoldable pub append_room_user : List ℕ → RoomUser → List ℕ
  unfolding append_clan_mark
  append_room_user dst user =
      let named = write_proud_string (append_uint32 dst user.id) (runes user.name) in
      append_clan_mark (write_proud_string named (runes user.clan_name)) user.clan
      ++ (user.level ∷ user.team ∷ user.wire_state ∷ bool_byte (not (user.clan_name =ₛ "")) ∷ [])

  unfoldable pub append_room_users : List ℕ → List RoomUser → List ℕ
  unfolding append_room_user
  append_room_users body [] = body
  append_room_users body (user ∷ users) = append_room_users (append_room_user body user) users

  unfoldable pub room_user_list : List RoomUser → List ℕ
  unfolding append_room_users
  room_user_list users = append_room_users (encode_var_int (pos (length users))) users

  unfoldable pub room_info : Room → List ℕ
  unfolding room_map_info
  room_info room =
      let titled = write_proud_string (append_uint16 [] room.number) (runes room.title) in
      let named =
        write_proud_string (write_proud_string titled (runes room.password))
          (runes room.map_name) in
      (append_uint32 named room.leader_id ++ room_map_info room)
      ++ (clamp_byte (pos (length room.users))
          ∷ room.max_users
          ∷ room.room_type
          ∷ bool_byte room.public
          ∷ room.state
          ∷ bool_byte room.team_balance
          ∷ bool_byte room.instruction
          ∷ bool_byte room.death_chat
          ∷ bool_byte room.perk_use
          ∷ bool_byte room.third_view_use
          ∷ [])
