-- ===== src/Game/Table.antt =====
-- The registration of the handlers: Handle of server.go, Register of each group of handlers, and
-- NewGameActionHandle of actions_ack.go, in the order of main.go.
use fear_online_server.Game.Ids.{
  rmi_answer_connect_server, rmi_check_credential, rmi_create_credential, rmi_friend_request_login,
  rmi_item_request_login, rmi_map_quest_request_login, rmi_request_accept_member,
  rmi_request_aeria_auth, rmi_request_aeria_launcher, rmi_request_begin_round,
  rmi_request_break_custom_item, rmi_request_break_gear_item, rmi_request_break_perk_item,
  rmi_request_buy_custom_item, rmi_request_buy_item, rmi_request_change_clan_name,
  rmi_request_change_mark, rmi_request_change_master, rmi_request_change_position,
  rmi_request_change_weapon, rmi_request_channel_join, rmi_request_channel_list,
  rmi_request_chat_all, rmi_request_chat_clan, rmi_request_chat_notice, rmi_request_chat_user,
  rmi_request_check_clan_name, rmi_request_check_mark, rmi_request_check_respawn,
  rmi_request_clan_chat, rmi_request_clan_room_list, rmi_request_create_clan, rmi_request_death,
  rmi_request_dedi_user_ping, rmi_request_delete_clan, rmi_request_equip_custom_item,
  rmi_request_equip_gear_item, rmi_request_equip_item, rmi_request_equip_perk_item,
  rmi_request_friend, rmi_request_friend_accept, rmi_request_friend_delete,
  rmi_request_friend_invite, rmi_request_friend_reject, rmi_request_game_leave,
  rmi_request_game_start, rmi_request_get_out, rmi_request_hit_count, rmi_request_inc_perk_slot,
  rmi_request_join_cancel, rmi_request_join_clan, rmi_request_kick_out_member,
  rmi_request_load_complete, rmi_request_load_percent, rmi_request_lobby_join,
  rmi_request_lobby_leave, rmi_request_lobby_list, rmi_request_lobby_user_list, rmi_request_login,
  rmi_request_login_clan_record, rmi_request_match_start, rmi_request_recipe_item,
  rmi_request_refresh_room_list, rmi_request_reject_member, rmi_request_respawn,
  rmi_request_respawn_instant, rmi_request_room_create, rmi_request_room_game_leave,
  rmi_request_room_join, rmi_request_room_leave, rmi_request_room_list, rmi_request_room_ready,
  rmi_request_search_clan_master, rmi_request_search_clan_name, rmi_request_time_out,
  rmi_request_time_start, rmi_request_user_equip,
}
use fear_online_server.Prelude.{ℕ, List, [], ◌∷◌}
use fear_online_server.Prelude.NatMap.{put}
use fear_online_server.Game.{Env, Act, pure}
use fear_online_server.Game.Chat.{chat_all, chat_clan, whisper}
use fear_online_server.Game.Clans.{
  accept_member, cancel_join, delete_clan, hand_over, kick_out, leave_clan, reject_member,
  set_position,
}
use fear_online_server.Game.Clans.Founding.{check_name, create_clan, join_clan, search_name}
use fear_online_server.Game.Clans.Marks.{change_clan_mark, check_mark, clan_chat}
use fear_online_server.Game.Equips.{change_weapon, user_equip}
use fear_online_server.Game.Friends.{
  accept_friend, ask_friend, delete_friend, friend_login, invite_friend, reject_friend,
}
use fear_online_server.Game.Items.{
  break_custom, buy_custom_request, buy_request, craft_request, equip_custom, equip_request,
  gear_break, gear_equip, perk_break, perk_equip, perk_increase_slot,
}
use fear_online_server.Game.Login.{
  aeria_auth, aeria_launcher, check_credential, create_credential, game_action, join_channel,
  request_channel_list,
}
use fear_online_server.Game.Profile.{item_login, login, map_quest_login}
use fear_online_server.Game.Matches.{match_start}
use fear_online_server.Game.Rooms.{
  clan_room_list, create_room, join_lobby, join_room, leave_lobby, leave_room, lobby_list,
  lobby_user_list, ready, room_list,
}
use fear_online_server.Game.Rounds.{
  begin_round, check_respawn, check_respawn_instant, connect_server, death, dedi_user_ping,
  hit_count, load_complete, load_percent, match_leave, respawn, time_out, time_start,
}
use fear_online_server.Game.Start.{game_start}

-- What is done with the body of a message that a session has sent.
abbrev pub Served : Type 0 → Type 0
Served S = ℕ → List ℕ → Act S (Unit {0})

-- Messages that are only logged.
abbrev pub ignored : {S : Type 0} → Served S
ignored x body = pure tt

-- `server.Handle` of each entry.
abbrev pub handle_all :
    {S : Type 0} → List (ℕ × Served S) → List (ℕ × Served S) → List (ℕ × Served S)
handle_all [] handlers = handlers
handle_all ((id, handler) ∷ entries) handlers = handle_all entries (put id handler handlers)

abbrev pub handle_groups :
    {S : Type 0} → List (List (ℕ × Served S)) → List (ℕ × Served S) → List (ℕ × Served S)
handle_groups [] handlers = handlers
handle_groups (entries ∷ groups) handlers = handle_groups groups (handle_all entries handlers)

-- staticResponses: the request, the answer and the destination.
abbrev pub static_responses : List (ℕ × ℕ × ℕ)
static_responses =
    (0x759A, 0x75DF, 0)
    ∷ (0x759B, 0x75E1, 0)
    ∷ (0x759C, 0x75E3, 0)
    ∷ (0x759D, 0x75E5, 0)
    ∷ (0x759E, 0x75E7, 0)
    ∷ (0x75F9, 0x762B, 0)
    ∷ (0x765D, 0x768F, 0)
    ∷ (0x765F, 0x7694, 0)
    ∷ (0x7725, 0x7757, 0)
    ∷ (0x7789, 0x77BB, 0)
    ∷ (0x7919, 0x794B, 0)
    ∷ (0x797D, 0x79AF, 0)
    ∷ (0x9C41, 0x9CA5, 0)
    ∷ (0xA411, 0xA605, 0)
    ∷ (0xA412, 0xA607, 0)
    ∷ (0xA413, 0xA609, 0)
    ∷ (0x9859, 0x98BD, 0)
    ∷ (0x985A, 0x98BF, 4)
    ∷ (0x99E9, 0x9A4D, 0)
    ∷ (0x99EA, 0x9A4F, 0)
    ∷ (0x99EB, 0x9A51, 4)
    ∷ (0x9AB1, 0x9B15, 0)
    ∷ (0x9AB2, 0x9B17, 0)
    ∷ (0x9AB3, 0x9B19, 4)
    ∷ []

module _ {S : Type 0} (env : Env S) where
  abbrev pub login_handlers : List (ℕ × Served S)
  login_handlers =
      (rmi_request_aeria_auth, aeria_auth env)
      ∷ (rmi_request_aeria_launcher, aeria_launcher env)
      ∷ (rmi_create_credential, create_credential env)
      ∷ (rmi_check_credential, check_credential env)
      ∷ (rmi_request_channel_list, request_channel_list env)
      ∷ (rmi_request_channel_join, join_channel env)
      ∷ (rmi_request_login, login env)
      ∷ (rmi_item_request_login, item_login env)
      ∷ (rmi_map_quest_request_login, map_quest_login env)
      ∷ []

  abbrev pub lobby_handlers : List (ℕ × Served S)
  lobby_handlers =
      (rmi_request_lobby_join, join_lobby env)
      ∷ (rmi_request_lobby_leave, leave_lobby env)
      ∷ (rmi_request_lobby_list, lobby_list env)
      ∷ (rmi_request_room_list, room_list env)
      ∷ (rmi_request_clan_room_list, clan_room_list env)
      ∷ (rmi_request_lobby_user_list, lobby_user_list env)
      ∷ (rmi_request_room_create, create_room env)
      ∷ (rmi_request_room_leave, leave_room env)
      ∷ (rmi_request_room_ready, ready env)
      ∷ (rmi_request_room_join, join_room env)
      ∷ (rmi_request_game_start, game_start env)
      ∷ (rmi_answer_connect_server, connect_server)
      ∷ (rmi_request_match_start, match_start env)
      ∷ (rmi_request_load_percent, load_percent)
      ∷ (rmi_request_load_complete, load_complete)
      ∷ (rmi_request_time_start, time_start)
      ∷ (rmi_request_begin_round, begin_round)
      ∷ (rmi_request_check_respawn, check_respawn)
      ∷ (rmi_request_respawn_instant, check_respawn_instant)
      ∷ (rmi_request_respawn, respawn)
      ∷ (rmi_request_death, death)
      ∷ (rmi_request_time_out, time_out)
      ∷ (rmi_request_dedi_user_ping, dedi_user_ping)
      ∷ (rmi_request_hit_count, hit_count)
      ∷ (rmi_request_room_game_leave, match_leave)
      ∷ (rmi_request_game_leave, match_leave)
      ∷ (rmi_request_user_equip, user_equip env)
      ∷ (rmi_request_change_weapon, change_weapon env)
      ∷ (rmi_request_refresh_room_list, room_list env)
      ∷ []

  abbrev pub item_handlers : List (ℕ × Served S)
  item_handlers =
      (rmi_request_equip_item, equip_request env)
      ∷ (rmi_request_buy_item, buy_request env)
      ∷ (rmi_request_recipe_item, craft_request env)
      ∷ (rmi_request_buy_custom_item, buy_custom_request env)
      ∷ (rmi_request_equip_custom_item, equip_custom env)
      ∷ (rmi_request_break_custom_item, break_custom env)
      ∷ (rmi_request_equip_gear_item, gear_equip env)
      ∷ (rmi_request_break_gear_item, gear_break env)
      ∷ (rmi_request_equip_perk_item, perk_equip env)
      ∷ (rmi_request_break_perk_item, perk_break env)
      ∷ (rmi_request_inc_perk_slot, perk_increase_slot env)
      ∷ []

  abbrev pub clan_handlers : List (ℕ × Served S)
  clan_handlers =
      (rmi_request_search_clan_name, search_name env)
      ∷ (rmi_request_check_clan_name, check_name env)
      ∷ (rmi_request_create_clan, create_clan env)
      ∷ (rmi_request_join_clan, join_clan env)
      ∷ (rmi_request_clan_chat, clan_chat env)
      ∷ (rmi_request_delete_clan, delete_clan env)
      ∷ (rmi_request_join_cancel, cancel_join env)
      ∷ (rmi_request_accept_member, accept_member env)
      ∷ (rmi_request_reject_member, reject_member env)
      ∷ (rmi_request_kick_out_member, kick_out env)
      ∷ (rmi_request_get_out, leave_clan env)
      ∷ (rmi_request_change_master, hand_over env)
      ∷ (rmi_request_change_position, set_position env)
      ∷ (rmi_request_check_mark, check_mark env)
      ∷ (rmi_request_change_mark, change_clan_mark env)
      ∷ (rmi_request_search_clan_master, ignored)
      ∷ (rmi_request_change_clan_name, ignored)
      ∷ (rmi_request_login_clan_record, ignored)
      ∷ (rmi_request_chat_notice, ignored)
      ∷ []

  abbrev pub friend_handlers : List (ℕ × Served S)
  friend_handlers =
      (rmi_friend_request_login, friend_login env)
      ∷ (rmi_request_friend, ask_friend env)
      ∷ (rmi_request_friend_accept, accept_friend env)
      ∷ (rmi_request_friend_reject, reject_friend env)
      ∷ (rmi_request_friend_delete, delete_friend env)
      ∷ (rmi_request_friend_invite, invite_friend env)
      ∷ []

  abbrev pub chat_handlers : List (ℕ × Served S)
  chat_handlers =
      (rmi_request_chat_all, chat_all env)
      ∷ (rmi_request_chat_clan, chat_clan env)
      ∷ (rmi_request_chat_user, whisper env)
      ∷ []

  abbrev pub action_handlers : List (ℕ × ℕ × ℕ) → List (ℕ × Served S)
  action_handlers [] = []
  action_handlers ((request, answer, destination) ∷ responses) =
      (request, game_action answer destination) ∷ action_handlers responses

  -- The calls of Register in main.go.
  abbrev pub registered : List (List (ℕ × Served S))
  registered =
      login_handlers
      ∷ lobby_handlers
      ∷ item_handlers
      ∷ clan_handlers
      ∷ friend_handlers
      ∷ chat_handlers
      ∷ action_handlers static_responses
      ∷ []

  unfoldable pub handlers : List (ℕ × Served S)
  handlers = handle_groups registered []
