-- ===== src/Game/Open/Social.antt =====
-- The handlers of friend.go and chat.go keep the open rooms.
use fear_online_server.Prelude.{ℕ, String, List, [], ◌∷◌}
use fear_online_server.Game.{Env, Act}
use fear_online_server.Game.Open.Keeps.{
  Keeps, keeps, then-Keeps, send-Keeps, account_of-Keeps, unless_none-Keeps,
}
use fear_online_server.Game.Open.Sending.{push-Keeps}
use fear_online_server.Prelude.{◌++◌}
use fear_online_server.Models.Clan.{Clan}
use fear_online_server.Models.Player.{Player, Friend, FriendRequest}
use fear_online_server.Repositories.Table.{lookup}
use fear_online_server.Lobby.Social.{account_or_zero}
use fear_online_server.Wire.Read.{Read, read, malformed}
use fear_online_server.Game.Start.{no_reason}
use fear_online_server.Game.Friends.{
  clan_of, friend_row, friend_rows, friend_list, send_lists, friend_login, asked, ask_named,
  ask_friend, befriended, accept_friend, reject_friend, unfriended, delete_friend, invited,
  invite_to, invite_friend,
}
use fear_online_server.Game.Chat.{
  read_chat_line, with_chat_line, chat_to_all, chat_all, chat_to_clan, chat_in_clan, chat_clan,
  whisper_to, whisper_named, whisper,
}
use fear_online_server.Game.Open.Clans.{unless_missing-Keeps, with_actor_and_id-Keeps}

module _ {S : Type 0} (env : Env S) where
  clan_of-Keeps : (account : Player) → Keeps (clan_of env account)
  clan_of-Keeps account = search keeps depth 9

  friend_row-Keeps : (friend : Friend) (account : Player) → Keeps (friend_row env friend account)
  unfolding friend_row
  friend_row-Keeps friend account = search (keeps, clan_of-Keeps) depth 9

  friend_rows-Keeps :
      (body : List ℕ) (friends : List Friend) (accounts : List (String × Player))
      → Keeps (friend_rows env body friends accounts)
  unfolding friend_rows
  friend_rows-Keeps body [] accounts = search keeps
  friend_rows-Keeps body (f ∷ friends) accounts =
      then-Keeps (friend_row-Keeps f (account_or_zero (lookup f.steam_id accounts)))
        (λ row. friend_rows-Keeps (body ++ row) friends accounts)

  friend_list-Keeps :
      (p : Player) (accounts : List (String × Player)) → Keeps (friend_list env p accounts)
  unfolding friend_list
  friend_list-Keeps p accounts = search (keeps, friend_rows-Keeps) depth 9

  send_lists-Keeps : (x : ℕ) (r : Player × List (String × Player)) → Keeps (send_lists env x r)
  unfolding send_lists
  send_lists-Keeps x (current, accounts) = search (keeps, friend_list-Keeps) depth 9

  pub friend_login-Keeps : (x : ℕ) (body : List ℕ) → Keeps (friend_login env x body)
  unfolding friend_login
  friend_login-Keeps x body = search (keeps, send_lists-Keeps) depth 9

  asked-Keeps : (x : ℕ) (p : Player) (r : Player × FriendRequest) → Keeps (asked env x p r)
  unfolding asked
  asked-Keeps x p (target, request) = search (keeps, push-Keeps) depth 9

  ask_named-Keeps : (x : ℕ) (p : Player) (r : Read (List ℕ)) → Keeps (ask_named env x p r)
  ask_named-Keeps x p (malformed e) = search keeps
  ask_named-Keeps x p (read name next) = search (keeps, asked-Keeps) depth 9

  pub ask_friend-Keeps : (x : ℕ) (body : List ℕ) → Keeps (ask_friend env x body)
  unfolding ask_friend
  ask_friend-Keeps x body = search (keeps, ask_named-Keeps) depth 9

  befriended-Keeps :
      (x : ℕ) (p : Player) (id : ℕ) (r : Friend × Friend × Player) → Keeps (befriended env x p id r)
  unfolding befriended
  befriended-Keeps x p id (mine, theirs, sender) =
      search (keeps, friend_row-Keeps, push-Keeps) depth 9

  pub accept_friend-Keeps : (x : ℕ) (body : List ℕ) → Keeps (accept_friend env x body)
  unfolding accept_friend
  accept_friend-Keeps x body = search (keeps, with_actor_and_id-Keeps env, befriended-Keeps) depth 9

  pub reject_friend-Keeps : (x : ℕ) (body : List ℕ) → Keeps (reject_friend env x body)
  unfolding reject_friend
  reject_friend-Keeps x body = search (keeps, with_actor_and_id-Keeps env) depth 9

  unfriended-Keeps : (x id : ℕ) (r : Friend × Friend) → Keeps (unfriended env x id r)
  unfolding unfriended
  unfriended-Keeps x id (friend, mirrored) = search (keeps, push-Keeps) depth 9

  pub delete_friend-Keeps : (x : ℕ) (body : List ℕ) → Keeps (delete_friend env x body)
  unfolding delete_friend
  delete_friend-Keeps x body = search (keeps, with_actor_and_id-Keeps env, unfriended-Keeps) depth 9

  invited-Keeps : (x id h : ℕ) (r : Player × ℕ) → Keeps (invited env x id h r)
  unfolding invited
  invited-Keeps x id h (target, inviter) = search (keeps, push-Keeps) depth 11

  invite_to-Keeps : (x : ℕ) (p : Player) (id h : ℕ) → Keeps (invite_to env x p id h)
  unfolding invite_to
  invite_to-Keeps x p id h = search (keeps, invited-Keeps) depth 9

  pub invite_friend-Keeps : (x : ℕ) (body : List ℕ) → Keeps (invite_friend env x body)
  unfolding invite_friend
  invite_friend-Keeps x body = search (keeps, with_actor_and_id-Keeps env, invite_to-Keeps) depth 9

  with_chat_line-Keeps :
      (x : ℕ) (body : List ℕ) (fail_id : ℕ) {f : Player → String × ℕ → Act S (Unit {0})}
      → ((p : Player) (line : String × ℕ) → Keeps (f p line))
      → Keeps (with_chat_line env x body fail_id f)
  unfolding with_chat_line
  with_chat_line-Keeps x body fail_id k = then-Keeps (account_of-Keeps x) (λ account.
      unless_none-Keeps account (send-Keeps x fail_id no_reason)
        (λ p. unless_none-Keeps (read_chat_line env body 0) (send-Keeps x fail_id no_reason) (k p)))

  chat_to_all-Keeps : (x : ℕ) (p : Player) (line : String × ℕ) → Keeps (chat_to_all env x p line)
  unfolding chat_to_all
  chat_to_all-Keeps x p line = search (keeps, push-Keeps) depth 9

  pub chat_all-Keeps : (x : ℕ) (body : List ℕ) → Keeps (chat_all env x body)
  unfolding chat_all
  chat_all-Keeps x body = search (keeps, with_chat_line-Keeps, chat_to_all-Keeps) depth 9

  chat_to_clan-Keeps :
      (x : ℕ) (p : Player) (line : String × ℕ) (clan : Clan)
      → Keeps (chat_to_clan env x p line clan)
  unfolding chat_to_clan
  chat_to_clan-Keeps x p line clan = search (keeps, push-Keeps) depth 9

  chat_in_clan-Keeps : (x : ℕ) (p : Player) (line : String × ℕ) → Keeps (chat_in_clan env x p line)
  chat_in_clan-Keeps x p line = search (keeps, unless_missing-Keeps env, chat_to_clan-Keeps) depth 9

  pub chat_clan-Keeps : (x : ℕ) (body : List ℕ) → Keeps (chat_clan env x body)
  unfolding chat_clan
  chat_clan-Keeps x body = search (keeps, with_chat_line-Keeps, chat_in_clan-Keeps) depth 9

  whisper_to-Keeps :
      (x : ℕ) (p : Player) (line : String × ℕ) (recipient : Player)
      → Keeps (whisper_to env x p line recipient)
  unfolding whisper_to
  whisper_to-Keeps x p line recipient = search (keeps, push-Keeps) depth 11

  whisper_named-Keeps :
      (x : ℕ) (body : List ℕ) (p : Player) (r : Read (List ℕ))
      → Keeps (whisper_named env x body p r)
  whisper_named-Keeps x body p (malformed e) = search keeps
  whisper_named-Keeps x body p (read target next) =
      search (keeps, unless_missing-Keeps env, whisper_to-Keeps) depth 9

  pub whisper-Keeps : (x : ℕ) (body : List ℕ) → Keeps (whisper env x body)
  unfolding whisper
  whisper-Keeps x body = search (keeps, whisper_named-Keeps) depth 9
