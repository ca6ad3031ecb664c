-- ===== src/Lobby/Game.antt =====
-- game_session.go and game_start.go: the bodies that tell of the users of a match and of its host.
-- `runes` is `[]rune(s)`.
use fear_online_server.Prelude.{
  ℕ, suc, ◌+◌, ◌%◌, ◌^◌, String, Bool, not, ◌=ₛ◌, List, [], ◌∷◌, ◌++◌, length,
}
use fear_online_server.Prelude.Int.{pos}
use fear_online_server.Wire.Varint.{encode_var_int}
use fear_online_server.Wire.Bytes.{append_uint16}
use fear_online_server.Wire.Text.{write_proud_string}
use fear_online_server.Rooms.Room.{RoomUser, Score}
use fear_online_server.Rooms.Payloads.{bool_byte, append_clan_mark}

unfoldable pub append_game_user_score : List ℕ → Score → List ℕ
append_game_user_score dst score =
    append_uint16
      (append_uint16 (append_uint16 (append_uint16 dst score.kills) score.deaths) score.assists)
      score.points

module _ (runes : String → List ℕ) where
  unfoldable pub append_game_user : List ℕ → (seat : ℕ) → RoomUser → List ℕ
  unfolding append_clan_mark append_game_user_score
  append_game_user dst seat user =
      let named = write_proud_string (dst ++ (seat ∷ [])) (runes user.name) in
      let marked = append_clan_mark (write_proud_string named (runes user.clan_name)) user.clan in
      append_game_user_score (marked ++ (bool_byte (not (user.clan_name =ₛ "")) ∷ user.team ∷ []))
        user.score
      ++ (0 ∷ 0 ∷ [])

  -- The loop of gameUserList, from an index on.
  unfoldable pub append_game_users : List ℕ → (index : ℕ) → List RoomUser → List ℕ
  unfolding append_game_user
  append_game_users body index [] = body
  append_game_users body index (user ∷ users) =
      append_game_users (append_game_user body ((index + 1) % 2 ^ 8) user) (suc index) users

  unfoldable pub game_user_list : List RoomUser → List ℕ
  unfolding append_game_users encode_var_int
  game_user_list users = append_game_users (encode_var_int (pos (length users))) 0 users

  unfoldable pub notify_host_server_row : String → (port : ℕ) → (is_host intrude : Bool) → List ℕ
  notify_host_server_row host port is_host intrude =
      append_uint16 (write_proud_string [] (runes host)) port
      ++ (bool_byte is_host ∷ bool_byte intrude ∷ [])
