-- ===== src/Game/Clans/Founding.antt =====
-- The handlers of clan.go: founding a clan, applying to one, and looking for one.
use fear_online_server.Game.Ids.{
  rmi_answer_check_name_fail, rmi_answer_check_name_ok, rmi_answer_create_fail,
  rmi_answer_create_ok, rmi_answer_join_fail, rmi_answer_join_ok, rmi_answer_search_name_fail,
  rmi_answer_search_name_ok, rmi_notify_request_info, rmi_send_member_list,
  rmi_send_request_clan_info,
}
use fear_online_server.Prelude.{
  find_by, ℕ, String, Bool, true, false, ◌=ₛ◌, if◌then◌else◌, List, [], ◌∷◌, Option, none, some,
}
use fear_online_server.Models.Clan.{Clan, ClanMember, Mark}
use fear_online_server.Models.Player.{Player}
use fear_online_server.Repositories.Exec.{Result, ok, err}
use fear_online_server.Services.Clans.{
  create, request_join, name_available, create, request_join, name_available,
}
use fear_online_server.Wire.Read.{Read, read, malformed}
use fear_online_server.Wire.Text.{read_proud_string}
use fear_online_server.Lobby.Rows.{character_id}
use fear_online_server.Lobby.Social.{clan_mark_size, parse_clan_mark}
use fear_online_server.Lobby.Members.{
  ClanMemberWire, make_clan_member_wire, clan_member_list, make_clan_member_counts, counts_row,
}
use fear_online_server.Lobby.Clans.{
  append_clan_request, append_request_clan_info, append_clan_info, notify_user_clan_info_row,
}
use fear_online_server.Identity.{resolve_player, set_session_player}
use fear_online_server.Game.Broadcast.{send_all}
use fear_online_server.Game.Clans.{
  in_clan, broadcast_reviewers, member_count, clan_info_message, user_clan_info_message,
}
use fear_online_server.Prelude.{length}
use fear_online_server.Prelude.Int.{pos}
use fear_online_server.Wire.Varint.{encode_var_int}
use fear_online_server.Game.{
  read_clock, Env, Act, pure, fail, ◌>>=◌, ◌>>◌, given, send, serve, account_of, change_places,
  unless_error, unless_none,
}

abbrev first_member : List ClanMember → Option ClanMember
first_member [] = none
first_member (m ∷ ms) = some m

module _ {S : Type 0} (env : Env S) where
  -- The rest of create; `clan.Members[0]` of a clan that has just been created is its master.
  abbrev founder_rows : Player → Option ClanMember → List ClanMemberWire
  founder_rows player none = []
  founder_rows player (some m) =
      make_clan_member_wire m player
        (record { channel = 0; lobby = 0; room = 0; online = true; in_game = false })
      ∷ []

  unfoldable pub tell_founded : ℕ → Player → Clan → Act S (Unit {0})
  unfolding append_clan_info clan_member_list make_clan_member_wire make_clan_member_counts
      counts_row notify_user_clan_info_row character_id
  tell_founded x player clan = do
    send x rmi_answer_create_ok []
    account ← account_of x
    joined ← given account
    send_all x (
        clan_info_message env clan
        ∷ (
          rmi_send_member_list,
          clan_member_list env.runes (founder_rows player (first_member clan.members)),
        )
        ∷ member_count env clan
        ∷ user_clan_info_message env joined.steam_id clan
        ∷ [])

  unfoldable pub founded : ℕ → Player → String → Clan → Act S (Unit {0})
  unfolding set_session_player resolve_player tell_founded
  founded x player name clan = do
    change_places (λ p. in_clan x name (resolve_player p.states x) p)
    tell_founded x player clan

  abbrev pub create_named : ℕ → Player → Mark × ℕ → Read (List ℕ) → Act S (Unit {0})
  create_named x player mark (malformed e) = fail
  create_named x player (mark, extra) (read name next) = do
    now ← read_clock env
    r ←
        serve
          (create env.clans env.players player.steam_id player.name (env.text name) mark extra now)
    unless_error r (send x rmi_answer_create_fail []) (founded x player (env.text name))

  unfoldable pub create_clan : ℕ → List ℕ → Act S (Unit {0})
  unfolding create founded parse_clan_mark read_proud_string
  create_clan x body = do
    account ← account_of x
    player ← given account
    unless_none (parse_clan_mark body) (send x rmi_answer_create_fail [])
        (λ mark. create_named x player mark (read_proud_string body clan_mark_size))

  -- notifyApplication.
  unfoldable pub notify_application : Clan → Player → Act S (Unit {0})
  unfolding append_clan_request broadcast_reviewers
  notify_application clan player =
      unless_none (find_by (λ a. a.steam_id =ₛ player.steam_id) clan.applicants) (pure tt)
        (λ pending. broadcast_reviewers clan (
          (rmi_notify_request_info, append_clan_request env.runes env.date [] pending player) ∷ []))

  unfoldable pub applied : ℕ → Player → Clan → Act S (Unit {0})
  unfolding append_request_clan_info notify_application
  applied x player clan = do
    send x rmi_answer_join_ok []
    send x rmi_send_request_clan_info
        (append_request_clan_info env.runes env.date env.crc32 env.to_lower env.trim_space [] clan)
    notify_application clan player

  abbrev pub join_named : ℕ → Player → Read (List ℕ) → Act S (Unit {0})
  join_named x player (malformed e) = send x rmi_answer_join_fail []
  join_named x player (read name next) = do
    now ← read_clock env
    r ← serve (request_join env.clans env.players player (env.trim_space (env.text name)) now)
    unless_error r (send x rmi_answer_join_fail []) (applied x player)

  unfoldable pub join_clan : ℕ → List ℕ → Act S (Unit {0})
  unfolding request_join applied read_proud_string
  join_clan x body = do
    account ← account_of x
    player ← given account
    join_named x player (read_proud_string body 0)

  -- clanInfoList.
  unfoldable pub append_clan_infos : List ℕ → List Clan → List ℕ
  unfolding append_clan_info
  append_clan_infos body [] = body
  append_clan_infos body (clan ∷ clans) =
      append_clan_infos
        (append_clan_info env.runes env.date env.crc32 env.to_lower env.trim_space body clan) clans

  abbrev pub search_named : ℕ → Read (List ℕ) → Act S (Unit {0})
  search_named x (malformed e) = send x rmi_answer_search_name_fail []
  search_named x (read name next) = do
    r ← serve (env.search_by_name (env.trim_space (env.text name)) 50)
    unless_error r (send x rmi_answer_search_name_fail []) (λ clans.
        send x rmi_answer_search_name_ok
          (append_clan_infos (encode_var_int (pos (length clans))) clans))

  unfoldable pub search_name : ℕ → List ℕ → Act S (Unit {0})
  unfolding append_clan_infos encode_var_int read_proud_string
  search_name x body = search_named x (read_proud_string body 0)

  abbrev pub name_checked : ℕ → Result Bool → Act S (Unit {0})
  name_checked x (err e) = fail
  name_checked x (ok available) =
      send x (if available then rmi_answer_check_name_ok else rmi_answer_check_name_fail) []

  abbrev pub check_named : ℕ → Read (List ℕ) → Act S (Unit {0})
  check_named x (malformed e) = fail
  check_named x (read name next) = do
    r ← serve (name_available env.clans env.players (env.text name))
    name_checked x r

  unfoldable pub check_name : ℕ → List ℕ → Act S (Unit {0})
  unfolding name_available read_proud_string
  check_name x body = check_named x (read_proud_string body 0)
