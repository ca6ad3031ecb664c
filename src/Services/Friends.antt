-- ===== src/Services/Friends.antt =====
-- friend_service.go. The clock is an argument of each method that reads it, and strings.TrimSpace is a
-- parameter.
pub mod Failure
pub mod Mutual
mod Runs
use fear_online_server.Prelude.{
  ℕ, String, Bool, true, false, ◌=ₛ◌, List, [], ◌∷◌, ◌++◌, map, Option, none, some,
}
use fear_online_server.Models.Item.{Time}
use fear_online_server.Models.Player.{Player, Friend, FriendRequest, no_player}
use fear_online_server.Models.Player.Social.{
  friend, is_friend_of, friend_request_from, friend_entry_for, remove_friend, remove_friend_of,
  remove_friend_request, next_social_id,
}
use fear_online_server.Repositories.Exec.{
  Exec, pure, raise, ◌>>=◌, ◌>>◌, or_raise, raise_if, player_not_found, friend_not_found,
  already_friends, friend_self, request_pending, request_not_found, friend_list_missing,
}
use fear_online_server.Repositories.Interface.{PlayerRepository}

-- Go's zero value.
abbrev pub no_friend : Friend
no_friend = record { friend_id = 0; steam_id = ""; since = 0 }

unfoldable pub new_request : Player → Player → Time → FriendRequest
unfolding next_social_id
new_request target sender now = record {
  request_id = next_social_id target;
  steam_id = sender.steam_id;
  sent_at = now;
}

unfoldable pub new_friend : ℕ → Player → Time → Friend
new_friend id other now = record { friend_id = id; steam_id = other.steam_id; since = now }

module _ {S : Type 0} (players : PlayerRepository S) where
  unfoldable pub actor : String → Exec S Player
  actor steam_id = do found ← players.find steam_id; or_raise found player_not_found

  abbrev raise_pending : Player → Option FriendRequest → Exec S (Unit {0})
  raise_pending target none = pure tt
  raise_pending target (some existing) = raise (request_pending target existing)

  unfoldable pub send_request :
      (String → String) → String → String → Time → Exec S (Player × FriendRequest)
  unfolding actor is_friend_of friend_request_from new_request
  send_request trim_space sender_id target_name now = do
    sender ← actor sender_id
    found ← players.find_by_name (trim_space target_name)
    target ← or_raise found friend_not_found
    raise_if (target.steam_id =ₛ sender.steam_id) friend_self
    raise_if (is_friend_of target sender.steam_id) already_friends
    raise_pending target (friend_request_from target sender.steam_id)
    let request = new_request target sender now
    let target' = record target { friend_requests = target.friend_requests ++ (request ∷ []) }
    players.save_social target'.steam_id target'.friends target'.friend_requests
    pure (target', request)

  -- The two friend entries, and the sender. A sender that is gone leaves the request deleted and gives
  -- the zero values.
  abbrev befriend : Player → ℕ → Time → Option Player → Exec S (Friend × Friend × Player)
  befriend me request_id now none = do
    players.save_social me.steam_id me.friends me.friend_requests
    pure (no_friend, no_friend, no_player)
  befriend me request_id now (some sender) = do
    let mine = new_friend request_id sender now
    let theirs = new_friend (next_social_id sender) me now
    players.save_social me.steam_id (me.friends ++ (mine ∷ [])) me.friend_requests
    players.save_social sender.steam_id (sender.friends ++ (theirs ∷ [])) sender.friend_requests
    pure (mine, theirs, record sender { friends = sender.friends ++ (theirs ∷ []) })

  unfoldable pub accept : String → ℕ → Time → Exec S (Friend × Friend × Player)
  unfolding actor remove_friend_request next_social_id new_friend
  accept actor_id request_id now = do
    found ← actor actor_id
    (request, me) ← or_raise (remove_friend_request found request_id) request_not_found
    sender ← players.find request.steam_id
    befriend me request_id now sender

  unfoldable pub reject : String → ℕ → Exec S FriendRequest
  unfolding actor remove_friend_request
  reject actor_id request_id = do
    found ← actor actor_id
    (request, me) ← or_raise (remove_friend_request found request_id) request_not_found
    players.save_social me.steam_id me.friends me.friend_requests
    pure request

  -- The entry on the other account, which is left out where that account or the entry is gone.
  abbrev unmirror : Friend → Option (Friend × Player) → Exec S (Friend × Friend)
  unmirror gone none = pure (gone, no_friend)
  unmirror gone (some (mirrored, other)) = do
    players.save_social other.steam_id other.friends other.friend_requests
    pure (gone, mirrored)

  abbrev remove_from : String → Option Player → Option (Friend × Player)
  remove_from steam_id none = none
  remove_from steam_id (some other) = remove_friend_of other steam_id

  unfoldable pub delete : String → ℕ → Exec S (Friend × Friend)
  unfolding actor remove_friend remove_friend_of
  delete actor_id friend_id = do
    found ← actor actor_id
    (gone, me) ← or_raise (remove_friend found friend_id) friend_list_missing
    players.save_social me.steam_id me.friends me.friend_requests
    other ← players.find gone.steam_id
    unmirror gone (remove_from me.steam_id other)

  abbrev referenced : Player → List String
  referenced p = map (λ f. f.steam_id) p.friends ++ map (λ r. r.steam_id) p.friend_requests

  -- The store is not asked for no accounts.
  abbrev accounts_of : List String → Exec S (List (String × Player))
  accounts_of [] = pure []
  accounts_of (id ∷ ids) = players.find_many (id ∷ ids)

  unfoldable pub lists : String → Exec S (Player × List (String × Player))
  unfolding actor
  lists steam_id = do
    player ← actor steam_id
    accounts ← accounts_of (referenced player)
    pure (player, accounts)

  unfoldable pub invite_target : String → ℕ → Exec S (Player × ℕ)
  unfolding actor friend friend_entry_for
  invite_target actor_id friend_id = do
    me ← actor actor_id
    entry ← or_raise (friend me friend_id) friend_list_missing
    found ← players.find entry.steam_id
    target ← or_raise found player_not_found
    mirrored ← or_raise (friend_entry_for target actor_id) friend_list_missing
    pure (target, mirrored.friend_id)
