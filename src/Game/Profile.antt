-- ===== src/Game/Profile.antt =====
-- profile.go: what a client is told of its account and its clan when it logs in.
use fear_online_server.Game.Ids.{
  rmi_answer_login, rmi_item_answer_login, rmi_map_quest_answer_login, rmi_notify_character,
  rmi_notify_record, rmi_send_cash, rmi_send_equip_list, rmi_send_equip_slot_list,
  rmi_send_item_list, rmi_send_map_quest_list, rmi_send_member_list, rmi_send_point,
  rmi_send_request_clan_info, rmi_send_request_list, rmi_send_slot_list,
}
use fear_online_server.Prelude.{
  ℕ, String, not, ◌&&◌, ◌==◌, ◌=ₛ◌, any_by, if◌then◌else◌, List, [], ◌∷◌, ◌++◌, length, map, Option,
  none, some,
}
use fear_online_server.Models.Clan.{Clan, can_review_clan_applications}
use fear_online_server.Models.Player.{Player}
use fear_online_server.Repositories.Exec.{Result, ok, err}
use fear_online_server.Catalog.{item_function_type}
use fear_online_server.Wire.Bytes.{uint64_le}
use fear_online_server.Lobby.Rows.{
  notify_character, notify_record, item_list, slot_list, equip_slot_list, custom_equip_list,
  map_quest_list,
}
use fear_online_server.Lobby.Members.{clan_member_list}
use fear_online_server.Lobby.Clans.{append_request_clan_info, clan_request_list}
use fear_online_server.Game.Broadcast.{send_all}
use fear_online_server.Game.Rooms.{nothing}
use fear_online_server.Game.Clans.{
  roster, member_count, clan_info_message, user_clan_info_message, accounts_or_none,
}
use fear_online_server.Game.{Env, Act, pure, ◌>>=◌, given, serve, account_of, read_clock}

abbrev found_in : Result (Option Clan) → Option Clan
found_in (ok found) = found
found_in (err e) = none

module _ {S : Type 0} (env : Env S) where
  -- playerClan: a clan that cannot be loaded is none.
  abbrev pub player_clan : Player → Act S (Option Clan)
  player_clan player =
      if player.clan_name =ₛ ""
      then pure none
      else (do found ← serve (env.clans.find player.clan_name); pure (found_in found))

  abbrev applied_clan : Option Clan → List (ℕ × List ℕ)
  applied_clan none = []
  applied_clan (some clan) =
      (
        rmi_send_request_clan_info,
        append_request_clan_info env.runes env.date env.crc32 env.to_lower env.trim_space [] clan,
      )
      ∷ []

  unfoldable pub pending_clan_pushes : Player → Act S (List (ℕ × List ℕ))
  unfolding append_request_clan_info
  pending_clan_pushes player = do
    found ← serve (env.clans.find_by_applicant player.steam_id)
    pure (applied_clan (found_in found))

  -- clanRequests: the applications that a reviewer of the clan is shown.
  unfoldable pub clan_requests : Clan → String → Act S (List (ℕ × List ℕ))
  unfolding can_review_clan_applications clan_request_list
  clan_requests clan steam_id =
      if any_by (λ m. (m.steam_id =ₛ steam_id) && can_review_clan_applications m.rank) clan.members
        && not (length clan.applicants == 0)
      then (do
        accounts ← serve (env.players.find_many (map (λ a. a.steam_id) clan.applicants))
        pure (
            (
              rmi_send_request_list,
              clan_request_list env.runes env.date clan.applicants (accounts_or_none accounts),
            )
            ∷ []))
      else pure []

  abbrev pub clan_pushes_of : Player → Option Clan → Act S (List (ℕ × List ℕ))
  clan_pushes_of player none = pending_clan_pushes player
  clan_pushes_of player (some clan) = do
    rows ← roster env clan
    requests ← clan_requests clan player.steam_id
    pure (
        (clan_info_message env clan
          ∷ (rmi_send_member_list, clan_member_list env.runes rows)
          ∷ member_count env clan
          ∷ user_clan_info_message env player.steam_id clan
          ∷ [])
        ++ requests)

  unfoldable pub clan_pushes : Player → Act S (List (ℕ × List ℕ))
  unfolding pending_clan_pushes clan_requests roster
  clan_pushes player = do found ← player_clan player; clan_pushes_of player found

  unfoldable pub login : ℕ → List ℕ → Act S (Unit {0})
  unfolding clan_pushes notify_character notify_record
  login x body = do
    account ← account_of x
    player ← given account
    pushes ← clan_pushes player
    send_all x (
        (rmi_answer_login, [])
        ∷ (rmi_notify_character, notify_character env.parse_uint env.fnv env.runes player)
        ∷ (rmi_notify_record, notify_record env.parse_uint env.fnv env.runes player)
        ∷ pushes)

  unfoldable pub item_login : ℕ → List ℕ → Act S (Unit {0})
  unfolding item_list slot_list equip_slot_list custom_equip_list item_function_type
  item_login x body = do
    account ← account_of x
    player ← given account
    now ← read_clock env
    send_all x (
        (rmi_item_answer_login, [])
        ∷ (rmi_send_point, uint64_le player.point)
        ∷ (rmi_send_cash, uint64_le player.cash)
        ∷ (0x76F5, nothing)
        ∷ (0x76F6, nothing)
        ∷ (rmi_send_item_list, item_list player.inventory (item_function_type env.catalog) now)
        ∷ (0x76F9, nothing)
        ∷ (rmi_send_slot_list, slot_list player)
        ∷ (0x76FD, nothing)
        ∷ (rmi_send_equip_slot_list, equip_slot_list player)
        ∷ (rmi_send_equip_list, custom_equip_list player)
        ∷ [])

  unfoldable pub map_quest_login : ℕ → List ℕ → Act S (Unit {0})
  unfolding map_quest_list
  map_quest_login x body = do
    account ← account_of x
    player ← given account
    send_all x
        ((rmi_map_quest_answer_login, []) ∷ (rmi_send_map_quest_list, map_quest_list player) ∷ [])
