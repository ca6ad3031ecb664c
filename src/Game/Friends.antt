-- ===== src/Game/Friends.antt =====
-- The handlers of friend.go: requests, lists and invitations of friends.
use fear_online_server.Game.Ids.{
  rmi_answer_friend_accept_fail, rmi_answer_friend_accept_ok, rmi_answer_friend_ask_fail,
  rmi_answer_friend_ask_ok, rmi_answer_friend_delete_fail, rmi_answer_friend_delete_ok,
  rmi_answer_friend_invite_no, rmi_answer_friend_invite_ok, rmi_answer_friend_reject_fail,
  rmi_answer_friend_reject_ok, rmi_friend_answer_login, rmi_send_delete_friend,
  rmi_send_friend_info, rmi_send_friend_invite, rmi_send_friend_list, rmi_send_request_friend_info,
  rmi_send_request_friend_list,
}
use fear_online_server.Prelude.{
  ℕ, String, not, ◌==◌, ◌=ₛ◌, if◌then◌else◌, List, [], ◌∷◌, ◌++◌, length, Option, none, some,
}
use fear_online_server.Prelude.Int.{pos}
use fear_online_server.Models.Clan.{Clan, no_clan}
use fear_online_server.Models.Player.{Player, Friend, FriendRequest}
use fear_online_server.Repositories.Exec.{Result, ok, err}
use fear_online_server.Repositories.Table.{lookup}
use fear_online_server.Services.Friends.{send_request, accept, reject, delete, lists, invite_target}
use fear_online_server.Wire.Varint.{encode_var_int}
use fear_online_server.Wire.Bytes.{append_uint16}
use fear_online_server.Wire.Read.{Read, read, malformed}
use fear_online_server.Wire.Text.{read_proud_string}
use fear_online_server.Rooms.Sessions.{is_online}
use fear_online_server.Lobby.Social.{
  account_or_zero, room_invite, append_friend_info, append_friend_request, friend_request_list,
}
use fear_online_server.Identity.{presence}
use fear_online_server.Game.Broadcast.{push}
use fear_online_server.Game.Start.{no_reason}
use fear_online_server.Game.Clans.{with_actor_and_id}
use fear_online_server.Game.{
  Env, Act, pure, ◌>>=◌, ◌>>◌, gets, given, send, serve, room_at, account_of, room_of_session,
  unless_error, unless_none, read_clock,
}

abbrev clan_or_zero : Result (Option Clan) → Clan
clan_or_zero (ok (some clan)) = clan
clan_or_zero (ok none) = no_clan
clan_or_zero (err e) = no_clan

module _ {S : Type 0} (env : Env S) where
  -- `refuse`, and `Friends.actorAndID` is the same as the clan handlers'.
  abbrev refuse_friend : ℕ → (id : ℕ) → Act S (Unit {0})
  refuse_friend x id = send x id no_reason

  abbrev pub clan_of : Player → Act S Clan
  clan_of account =
      if account.clan_name =ₛ ""
      then pure no_clan
      else (do found ← serve (env.clans.find account.clan_name); pure (clan_or_zero found))

  unfoldable pub friend_row : Friend → Player → Act S (List ℕ)
  unfolding append_friend_info presence
  friend_row friend account = do
    clan ← clan_of account
    gets (λ w.
        append_friend_info env.runes [] friend account clan
          (presence w.places.heap w.places.states w.registry friend.steam_id))

  unfoldable pub friend_rows : List ℕ → List Friend → List (String × Player) → Act S (List ℕ)
  unfolding friend_row
  friend_rows body [] accounts = pure body
  friend_rows body (f ∷ friends) accounts = do
    row ← friend_row f (account_or_zero (lookup f.steam_id accounts))
    friend_rows (body ++ row) friends accounts

  unfoldable pub friend_list : Player → List (String × Player) → Act S (List ℕ)
  unfolding friend_rows encode_var_int
  friend_list player accounts =
      friend_rows (encode_var_int (pos (length player.friends))) player.friends accounts

  -- The lists, or the account that the session has where they cannot be loaded.
  abbrev lists_or :
      Player → Result (Player × List (String × Player)) → Player × List (String × Player)
  lists_or player (ok found) = found
  lists_or player (err e) = (player, [])

  unfoldable pub send_lists : ℕ → Player × List (String × Player) → Act S (Unit {0})
  unfolding friend_list friend_request_list
  send_lists x (current, accounts) = do
    friends ← friend_list current accounts
    send x rmi_send_friend_list friends
    send x rmi_send_request_friend_list (friend_request_list env.runes current accounts)

  unfoldable pub friend_login : ℕ → List ℕ → Act S (Unit {0})
  unfolding lists send_lists
  friend_login x body = do
    account ← account_of x
    player ← given account
    send x rmi_friend_answer_login []
    r ← serve (lists env.players player.steam_id)
    send_lists x (lists_or player r)

  unfoldable pub asked : ℕ → Player → Player × FriendRequest → Act S (Unit {0})
  unfolding push append_friend_request
  asked x player (target, request) = do
    send x rmi_answer_friend_ask_ok []
    push target.steam_id rmi_send_request_friend_info
        (append_friend_request env.runes [] request player)

  abbrev pub ask_named : ℕ → Player → Read (List ℕ) → Act S (Unit {0})
  ask_named x player (malformed e) = refuse_friend x rmi_answer_friend_ask_fail
  ask_named x player (read name next) = do
    now ← read_clock env
    r ← serve (send_request env.players env.trim_space player.steam_id (env.text name) now)
    unless_error r (refuse_friend x rmi_answer_friend_ask_fail) (asked x player)

  unfoldable pub ask_friend : ℕ → List ℕ → Act S (Unit {0})
  unfolding send_request asked read_proud_string
  ask_friend x body = do
    account ← account_of x
    player ← given account
    ask_named x player (read_proud_string body 0)

  unfoldable pub befriended :
      ℕ → Player → (request : ℕ) → Friend × Friend × Player → Act S (Unit {0})
  unfolding friend_row push
  befriended x player id (mine, theirs, sender) = do
    send x rmi_answer_friend_accept_ok (append_uint16 [] id)
    row ← friend_row mine sender
    send x rmi_send_friend_info row
    other ← friend_row theirs player
    push sender.steam_id rmi_send_friend_info other

  unfoldable pub accept_friend : ℕ → List ℕ → Act S (Unit {0})
  unfolding with_actor_and_id accept befriended
  accept_friend x body =
      with_actor_and_id x body (refuse_friend x rmi_answer_friend_accept_fail) (λ player id. do
        now ← read_clock env
        r ← serve (accept env.players player.steam_id id now)
        unless_error r (refuse_friend x rmi_answer_friend_accept_fail) (befriended x player id))

  unfoldable pub reject_friend : ℕ → List ℕ → Act S (Unit {0})
  unfolding with_actor_and_id reject
  reject_friend x body =
      with_actor_and_id x body (refuse_friend x rmi_answer_friend_reject_fail) (λ player id. do
        r ← serve (reject env.players player.steam_id id)
        unless_error r (refuse_friend x rmi_answer_friend_reject_fail)
            (λ request. send x rmi_answer_friend_reject_ok (append_uint16 [] id)))

  unfoldable pub unfriended : ℕ → (friend : ℕ) → Friend × Friend → Act S (Unit {0})
  unfolding push
  unfriended x id (friend, mirrored) = do
    send x rmi_answer_friend_delete_ok (append_uint16 [] id)
    if mirrored.friend_id == 0
        then pure tt
        else push friend.steam_id rmi_send_delete_friend (append_uint16 [] mirrored.friend_id)

  unfoldable pub delete_friend : ℕ → List ℕ → Act S (Unit {0})
  unfolding with_actor_and_id delete unfriended
  delete_friend x body =
      with_actor_and_id x body (refuse_friend x rmi_answer_friend_delete_fail) (λ player id. do
        r ← serve (delete env.players player.steam_id id)
        unless_error r (refuse_friend x rmi_answer_friend_delete_fail) (unfriended x id))

  unfoldable pub invited : ℕ → (friend room : ℕ) → Player × ℕ → Act S (Unit {0})
  unfolding is_online push room_invite
  invited x id h (target, inviter) = do
    online ← gets (λ w. is_online w.registry target.steam_id)
    room ← room_at h
    if not online then refuse_friend x rmi_answer_friend_invite_no else (do
      send x rmi_answer_friend_invite_ok (append_uint16 [] id)
      push target.steam_id rmi_send_friend_invite
          (append_uint16 [] inviter ++ room_invite env.runes room))

  unfoldable pub invite_to : ℕ → Player → (friend room : ℕ) → Act S (Unit {0})
  unfolding invite_target invited
  invite_to x player id h = do
    r ← serve (invite_target env.players player.steam_id id)
    unless_error r (refuse_friend x rmi_answer_friend_invite_no) (invited x id h)

  unfoldable pub invite_friend : ℕ → List ℕ → Act S (Unit {0})
  unfolding with_actor_and_id invite_to
  invite_friend x body =
      with_actor_and_id x body (refuse_friend x rmi_answer_friend_invite_no) (λ player id. do
        found ← room_of_session x
        unless_none found (refuse_friend x rmi_answer_friend_invite_no) (invite_to x player id))
