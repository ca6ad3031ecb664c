-- ===== src/Game/Clans.antt =====
-- The handlers of clan_actions.go, clan_chat.go and clan_mark.go: who is in a clan, its chat and its mark.
pub mod Founding
pub mod Marks
use fear_online_server.Game.Ids.{
  rmi_answer_accept_fail, rmi_answer_accept_member_ok, rmi_answer_change_master_no,
  rmi_answer_change_master_ok, rmi_answer_change_pos_fail, rmi_answer_change_pos_ok,
  rmi_answer_delete_fail, rmi_answer_delete_ok, rmi_answer_get_out_fail, rmi_answer_get_out_ok,
  rmi_answer_join_cancel_fail, rmi_answer_join_cancel_ok, rmi_answer_kick_out_fail,
  rmi_answer_kick_out_ok, rmi_answer_reject_fail, rmi_answer_reject_member_ok,
  rmi_notify_delete_member, rmi_notify_delete_request, rmi_notify_member_count,
  rmi_notify_member_info, rmi_notify_member_position, rmi_notify_user_clan_info, rmi_send_clan_info,
  rmi_send_clear_clan_info, rmi_send_clear_member, rmi_send_clear_request_info,
  rmi_send_member_list,
}
use fear_online_server.Prelude.{
  ℕ, ◌+◌, ◌%◌, ◌^◌, String, Bool, true, false, not, ◌&&◌, ltb, ◌==◌, ◌=ₛ◌, if◌then◌else◌, List, [],
  ◌∷◌, ◌++◌, length, drop, map, Option, none, some,
}
use fear_online_server.Prelude.Int.{ℤ, pos}
use fear_online_server.Models.Clan.{
  Clan, ClanMember, ClanApplicant, Mark, same_mark, can_review_clan_applications,
}
use fear_online_server.Models.Player.{Player}
use fear_online_server.Models.Player.Materials.{SpentItem}
use fear_online_server.Repositories.Exec.{Exec, Result, ok, err}
use fear_online_server.Repositories.Table.{lookup}
use fear_online_server.Services.Clans.{
  mark_available, change_mark, accept_application, reject_application, cancel_application,
  kick_member, leave, change_position, change_master, disband,
}
use fear_online_server.Services.Players.Shop.{find_consumable, spend_consumable}
use fear_online_server.Wire.Bytes.{append_uint16, read_uint16}
use fear_online_server.Wire.Read.{Read, read, malformed}
use fear_online_server.Wire.Text.{read_proud_string}
use fear_online_server.Rooms.Sessions.{is_online}
use fear_online_server.Rooms.Create.{byte_at}
use fear_online_server.Rooms.Payloads.{append_clan_mark}
use fear_online_server.Lobby.Rows.{character_id}
use fear_online_server.Lobby.Social.{
  account_or_zero, check_mark_verdict, parse_clan_mark, member_position_row, clan_chat_row,
}
use fear_online_server.Lobby.Members.{
  ClanMemberWire, make_clan_member_wire, append_clan_member, clan_member_list,
  make_clan_member_counts, counts_row,
}
use fear_online_server.Lobby.Clans.{append_clan_info, notify_user_clan_info_row}
use fear_online_server.Identity.{resolve_player, set_session_player}
use fear_online_server.Game.Broadcast.{send_all, send_to_account}
use fear_online_server.Game.Start.{no_reason}
use fear_online_server.Game.Items.{refuse_if, send_item_value}
use fear_online_server.Game.{
  World, Places, Env, Act, pure, fail, ◌>>=◌, ◌>>◌, gets, given, each_of, send, serve, account_of,
  keep_player, sessions_of, change_places, unless_error, unless_none,
}

abbrev pub function_clan_mark_change : ℤ
function_clan_mark_change = pos 1901

abbrev pub max_chat_length : ℕ
max_chat_length = 200

abbrev pub in_clan : ℕ → String → Option Player → Places → Places
in_clan x clan_name none p = p
in_clan x clan_name (some player) p = record p {
  states = set_session_player p.states x (record player { clan_name = clan_name });
}

abbrev pub accounts_or_none : Result (List (String × Player)) → List (String × Player)
accounts_or_none (ok accounts) = accounts
accounts_or_none (err e) = []

module _ {S : Type 0} where
  -- `if err != nil || !found { … }`.
  abbrev pub unless_missing :
      {A : Type 0}
      → Result (Option A)
      → Act S (Unit {0})
      → (A → Act S (Unit {0}))
      → Act S (Unit {0})
  unless_missing (ok (some a)) refuse f = f a
  unless_missing (ok none) refuse f = refuse
  unless_missing (err e) refuse f = refuse

  unfoldable pub set_session_clan : String → String → Act S (Unit {0})
  unfolding set_session_player resolve_player
  set_session_clan steam_id clan_name = do
    xs ← sessions_of steam_id
    each_of (λ x. change_places (λ p. in_clan x clan_name (resolve_player p.states x) p)) xs

  unfoldable pub broadcast_clan : Clan → List (ℕ × List ℕ) → Act S (Unit {0})
  unfolding send_to_account
  broadcast_clan clan msgs = each_of (λ m. send_to_account m.steam_id msgs) clan.members

  unfoldable pub broadcast_reviewers : Clan → List (ℕ × List ℕ) → Act S (Unit {0})
  unfolding send_to_account can_review_clan_applications
  broadcast_reviewers clan msgs =
      each_of
        (λ m.
          if can_review_clan_applications m.rank then send_to_account m.steam_id msgs else pure tt)
        clan.members

  -- The member and the id that a request names; a request without them is refused.
  unfoldable pub with_actor_and_id :
      ℕ → List ℕ → Act S (Unit {0}) → (Player → ℕ → Act S (Unit {0})) → Act S (Unit {0})
  with_actor_and_id x body refuse f = do
    account ← account_of x
    unless_none account refuse
        (λ player. refuse_if (ltb (length body) 2) refuse (f player (read_uint16 body)))

module _ {S : Type 0} (env : Env S) where
  abbrev pub member_count : Clan → ℕ × List ℕ
  member_count clan = (rmi_notify_member_count, counts_row (make_clan_member_counts clan))

  abbrev pub wire_of : List (String × Player) → Bool → ClanMember → ClanMemberWire
  wire_of accounts online m =
      make_clan_member_wire m (account_or_zero (lookup m.steam_id accounts))
        (record { channel = 0; lobby = 0; room = 0; online = online; in_game = false })

  unfoldable pub roster : Clan → Act S (List ClanMemberWire)
  unfolding is_online make_clan_member_wire
  roster clan = do
    accounts ← serve (env.players.find_many (map (λ m. m.steam_id) clan.members))
    gets (λ w.
        map (λ m. wire_of (accounts_or_none accounts) (is_online w.registry m.steam_id) m)
          clan.members)

  unfoldable pub member_wire : ClanMember → Act S ClanMemberWire
  unfolding is_online make_clan_member_wire
  member_wire m = do
    accounts ← serve (env.players.find_many (m.steam_id ∷ []))
    gets (λ w. wire_of (accounts_or_none accounts) (is_online w.registry m.steam_id) m)

  abbrev pub clan_info_message : Clan → ℕ × List ℕ
  clan_info_message clan = (
    rmi_send_clan_info,
    append_clan_info env.runes env.date env.crc32 env.to_lower env.trim_space [] clan,
  )

  abbrev pub user_clan_info_message : String → Clan → ℕ × List ℕ
  user_clan_info_message steam_id clan = (
    rmi_notify_user_clan_info,
    notify_user_clan_info_row env.runes env.date
        (character_id env.parse_uint env.fnv env.runes steam_id % 2 ^ 16) clan,
  )

  unfoldable pub welcome : Clan → ClanMember → Act S (Unit {0})
  unfolding set_session_clan roster send_to_account append_clan_info clan_member_list
      make_clan_member_counts counts_row notify_user_clan_info_row character_id
  welcome clan member = do
    set_session_clan member.steam_id clan.name
    rows ← roster clan
    send_to_account member.steam_id (
        (rmi_send_clear_request_info, [])
        ∷ clan_info_message clan
        ∷ (rmi_send_member_list, clan_member_list env.runes rows)
        ∷ member_count clan
        ∷ user_clan_info_message member.steam_id clan
        ∷ [])

  unfoldable pub announce_departure : Clan × ClanMember → Act S (Unit {0})
  unfolding broadcast_clan set_session_clan send_to_account make_clan_member_counts counts_row
  announce_departure (clan, member) = do
    broadcast_clan clan ((rmi_notify_delete_member, append_uint16 [] member.member_id) ∷ [])
    broadcast_clan clan (member_count clan ∷ [])
    set_session_clan member.steam_id ""
    send_to_account member.steam_id
        ((rmi_send_clear_member, []) ∷ (rmi_send_clear_clan_info, []) ∷ [])

  unfoldable pub deleted : ℕ → Clan → Act S (Unit {0})
  unfolding set_session_clan broadcast_clan send_to_account
  deleted x clan = do
    send x rmi_answer_delete_ok []
    each_of (λ m. set_session_clan m.steam_id "") clan.members
    broadcast_clan clan ((rmi_send_clear_member, []) ∷ (rmi_send_clear_clan_info, []) ∷ [])
    each_of (λ a. send_to_account a.steam_id ((rmi_send_clear_request_info, []) ∷ []))
        clan.applicants

  unfoldable pub delete_clan : ℕ → List ℕ → Act S (Unit {0})
  unfolding disband deleted
  delete_clan x body = do
    account ← account_of x
    player ← given account
    r ← serve (disband env.clans env.players player)
    unless_error r (send x rmi_answer_delete_fail []) (deleted x)

  unfoldable pub accepted : ℕ → (applicant : ℕ) → Clan × ClanMember → Act S (Unit {0})
  unfolding broadcast_reviewers member_wire broadcast_clan append_clan_member
      make_clan_member_counts counts_row welcome
  accepted x applicant (clan, member) = do
    send x rmi_answer_accept_member_ok []
    broadcast_reviewers clan ((rmi_notify_delete_request, append_uint16 [] applicant) ∷ [])
    row ← member_wire member
    broadcast_clan clan ((rmi_notify_member_info, append_clan_member env.runes [] row) ∷ [])
    broadcast_clan clan (member_count clan ∷ [])
    welcome clan member

  unfoldable pub accept_member : ℕ → List ℕ → Act S (Unit {0})
  unfolding with_actor_and_id accept_application accepted
  accept_member x body = with_actor_and_id x body (send x rmi_answer_accept_fail []) (λ player id.
      do
        r ← serve (accept_application env.clans env.players player id)
        unless_error r (send x rmi_answer_accept_fail []) (accepted x id))

  unfoldable pub rejected : ℕ → (applicant : ℕ) → Clan × ClanApplicant → Act S (Unit {0})
  unfolding broadcast_reviewers send_to_account
  rejected x id (clan, applicant) = do
    send x rmi_answer_reject_member_ok []
    broadcast_reviewers clan ((rmi_notify_delete_request, append_uint16 [] id) ∷ [])
    send_to_account applicant.steam_id ((rmi_send_clear_request_info, []) ∷ [])

  unfoldable pub reject_member : ℕ → List ℕ → Act S (Unit {0})
  unfolding with_actor_and_id reject_application rejected
  reject_member x body = with_actor_and_id x body (send x rmi_answer_reject_fail []) (λ player id.
      do
        r ← serve (reject_application env.clans env.players player id)
        unless_error r (send x rmi_answer_reject_fail []) (rejected x id))

  unfoldable pub cancelled : ℕ → Clan × ClanApplicant → Act S (Unit {0})
  unfolding broadcast_reviewers
  cancelled x (clan, applicant) = do
    send x rmi_answer_join_cancel_ok []
    send x rmi_send_clear_request_info []
    broadcast_reviewers clan
        ((rmi_notify_delete_request, append_uint16 [] applicant.applicant_id) ∷ [])

  unfoldable pub cancel_join : ℕ → List ℕ → Act S (Unit {0})
  unfolding cancel_application cancelled
  cancel_join x body = do
    account ← account_of x
    player ← given account
    r ← serve (cancel_application env.clans env.players player)
    unless_error r (send x rmi_answer_join_cancel_fail []) (cancelled x)

  unfoldable pub kick_out : ℕ → List ℕ → Act S (Unit {0})
  unfolding with_actor_and_id kick_member announce_departure
  kick_out x body = with_actor_and_id x body (send x rmi_answer_kick_out_fail []) (λ player id. do
    r ← serve (kick_member env.clans env.players player id)
    unless_error r (send x rmi_answer_kick_out_fail [])
        (λ gone. send x rmi_answer_kick_out_ok [] >> announce_departure gone))

  unfoldable pub leave_clan : ℕ → List ℕ → Act S (Unit {0})
  unfolding leave announce_departure
  leave_clan x body = do
    account ← account_of x
    player ← given account
    r ← serve (leave env.clans env.players player)
    unless_error r (send x rmi_answer_get_out_fail [])
        (λ gone. send x rmi_answer_get_out_ok [] >> announce_departure gone)

  abbrev position_message : ClanMember → ℕ × List ℕ
  position_message m = (rmi_notify_member_position, member_position_row m)

  unfoldable pub repositioned : ℕ → Clan × ClanMember → Act S (Unit {0})
  unfolding broadcast_clan member_position_row make_clan_member_counts counts_row
  repositioned x (clan, member) = do
    send x rmi_answer_change_pos_ok []
    broadcast_clan clan (position_message member ∷ [])
    broadcast_clan clan (member_count clan ∷ [])

  unfoldable pub set_position : ℕ → List ℕ → Act S (Unit {0})
  unfolding change_position repositioned
  set_position x body = do
    account ← account_of x
    player ← given account
    refuse_if (ltb (length body) 3) (send x rmi_answer_change_pos_fail []) (do
      r ← serve (change_position env.clans env.players player (read_uint16 body) (byte_at 2 body))
      unless_error r (send x rmi_answer_change_pos_fail []) (repositioned x))

  unfoldable pub handed_over : ℕ → Clan × ClanMember × ClanMember → Act S (Unit {0})
  unfolding broadcast_clan member_position_row make_clan_member_counts counts_row
  handed_over x (clan, successor, previous) = do
    send x rmi_answer_change_master_ok []
    broadcast_clan clan (position_message successor ∷ [])
    broadcast_clan clan (position_message previous ∷ [])
    broadcast_clan clan (member_count clan ∷ [])

  unfoldable pub hand_over : ℕ → List ℕ → Act S (Unit {0})
  unfolding with_actor_and_id change_master handed_over
  hand_over x body = with_actor_and_id x body (send x rmi_answer_change_master_no []) (λ player id.
      do
        r ← serve (change_master env.clans env.players player id)
        unless_error r (send x rmi_answer_change_master_no []) (handed_over x))
