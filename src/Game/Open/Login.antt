-- ===== src/Game/Open/Login.antt =====
-- The handlers of auth.go, channel.go, profile.go and actions_ack.go keep the open rooms.
use fear_online_server.Game.Ids.{
  rmi_answer_aeria_auth, rmi_answer_aeria_launcher, rmi_answer_channel_join,
  rmi_answer_check_credential, rmi_answer_create_credential,
}
use fear_online_server.Prelude.{ℕ, String, List, [], ◌∷◌, Option, none, some}
use fear_online_server.Game.{Places, Env, modify}
use fear_online_server.Game.Open.Seats.{IsOpen}
use fear_online_server.Game.Open.Keeps.{
  Keeps, keeps, then-Keeps, gets-Keeps, given-Keeps, if-Keeps, fail-Keeps, send-Keeps,
  change_places-Keeps, account_of-Keeps, modify-Keeps,
}
use fear_online_server.Game.Open.Sending.{send_all-Keeps}
use fear_online_server.Game.{Channel}
use fear_online_server.Prelude.{refl}
use fear_online_server.Models.Clan.{Clan}
use fear_online_server.Models.Player.{Player}
use fear_online_server.Repositories.Exec.{Result, ok, err}
use fear_online_server.Wire.Read.{Read, read, malformed}
use fear_online_server.Wire.Text.{read_proud_string}
use fear_online_server.Identity.{issue, redeem}
use fear_online_server.Prelude.{length, take, ltb, ◌==◌}
use fear_online_server.Prelude.NatMap.{value_at}
use fear_online_server.Game.Start.{no_reason}
use fear_online_server.Game.Login.{
  guid_of, first_channel, on_channel, game_action, bind_account, send_both, send_channel_list,
  request_channel_list, join_channel, logged_in, auth_named, auth_coded, aeria_auth, aeria_launcher,
  create_credential, check_credential,
}
use fear_online_server.Game.Profile.{
  player_clan, pending_clan_pushes, clan_requests, clan_pushes_of, clan_pushes, login, item_login,
  map_quest_login,
}
use fear_online_server.Game.Open.Clans.{roster-Keeps}

module _ {S : Type 0} (env : Env S) where
  send_both-Keeps : (x id : ℕ) → Keeps (send_both env x id)
  unfolding send_both
  send_both-Keeps x id = search (keeps) depth 9

  send_channel_list-Keeps : (x : ℕ) → Keeps (send_channel_list env x)
  unfolding send_channel_list
  send_channel_list-Keeps x = search (keeps) depth 9

  pub request_channel_list-Keeps : (x : ℕ) (body : List ℕ) → Keeps (request_channel_list env x body)
  unfolding request_channel_list
  request_channel_list-Keeps x body = search (keeps) depth 9

  bind_account-Keeps : (x : ℕ) (p : Player) → Keeps {A = Unit {0}} (modify (bind_account env x p))
  unfolding bind_account
  bind_account-Keeps x p = record { kept = λ w o. o }

  on_channel-IsOpen :
      (x : ℕ) (channel : Option Channel) (p : Places) → IsOpen p → IsOpen (on_channel x channel p)
  on_channel-IsOpen x none p o = o
  on_channel-IsOpen x (some c) p o = o

  pub join_channel-Keeps : (x : ℕ) (body : List ℕ) → Keeps (join_channel env x body)
  unfolding join_channel
  join_channel-Keeps x body =
      then-Keeps
        (change_places-Keeps (on_channel x (first_channel env.channels))
          (on_channel-IsOpen x (first_channel env.channels)))
        (λ u. send-Keeps x rmi_answer_channel_join (1 ∷ []))

  logged_in-Keeps : (x : ℕ) (r : Result Player) → Keeps (logged_in env x r)
  logged_in-Keeps x (err e) = search keeps
  logged_in-Keeps x (ok p) = then-Keeps (bind_account-Keeps x p) (λ u.
      then-Keeps (send_both-Keeps x rmi_answer_aeria_auth) (λ v.
        then-Keeps (send_both-Keeps x rmi_answer_aeria_launcher) (λ y. send_channel_list-Keeps x)))

  auth_named-Keeps : (x : ℕ) (r : Read (List ℕ)) → Keeps (auth_named env x r)
  auth_named-Keeps x (malformed e) = search keeps
  auth_named-Keeps x (read steam_id next) = search (keeps, logged_in-Keeps) depth 9

  auth_coded-Keeps : (x : ℕ) (body : List ℕ) (r : Read (List ℕ)) → Keeps (auth_coded env x body r)
  auth_coded-Keeps x body (malformed e) = search keeps
  auth_coded-Keeps x body (read code next) = auth_named-Keeps x (read_proud_string body next)

  pub aeria_auth-Keeps : (x : ℕ) (body : List ℕ) → Keeps (aeria_auth env x body)
  unfolding aeria_auth
  aeria_auth-Keeps x body = search (keeps, auth_coded-Keeps) depth 9

  pub aeria_launcher-Keeps : (x : ℕ) (body : List ℕ) → Keeps (aeria_launcher env x body)
  unfolding aeria_launcher
  aeria_launcher-Keeps x body = search (keeps, send_both-Keeps) depth 9

  pub create_credential-Keeps : (x : ℕ) (body : List ℕ) → Keeps (create_credential env x body)
  unfolding create_credential
  create_credential-Keeps x body = then-Keeps (account_of-Keeps x) (λ account.
      then-Keeps (given-Keeps account) (λ p.
        then-Keeps (gets-Keeps (λ w. guid_of (value_at x w.connections))) (λ guid.
          if-Keeps (length guid == 16)
            (then-Keeps
              (modify-Keeps (λ w. record w { credentials = issue env.hex w.credentials guid p })
                (λ w. refl))
              (λ u. send-Keeps x rmi_answer_create_credential guid))
            fail-Keeps)))

  pub check_credential-Keeps : (x : ℕ) (body : List ℕ) → Keeps (check_credential env x body)
  unfolding check_credential
  check_credential-Keeps x body = if-Keeps (ltb (length body) 16) fail-Keeps (
      then-Keeps (gets-Keeps (λ w. redeem env.hex w.credentials (take 16 body))) (λ found.
        then-Keeps (given-Keeps found) (λ p. then-Keeps (bind_account-Keeps x p) (λ u.
          then-Keeps (send-Keeps x rmi_answer_check_credential no_reason)
            (λ v. send_channel_list-Keeps x)))))

  player_clan-Keeps : (p : Player) → Keeps (player_clan env p)
  player_clan-Keeps p = search keeps depth 9

  pending_clan_pushes-Keeps : (p : Player) → Keeps (pending_clan_pushes env p)
  unfolding pending_clan_pushes
  pending_clan_pushes-Keeps p = search (keeps) depth 9

  clan_requests-Keeps : (clan : Clan) (steam_id : String) → Keeps (clan_requests env clan steam_id)
  unfolding clan_requests
  clan_requests-Keeps clan steam_id = search (keeps) depth 11

  clan_pushes_of-Keeps : (p : Player) (found : Option Clan) → Keeps (clan_pushes_of env p found)
  clan_pushes_of-Keeps p none = pending_clan_pushes-Keeps p
  clan_pushes_of-Keeps p (some clan) = search (keeps, roster-Keeps, clan_requests-Keeps) depth 9

  clan_pushes-Keeps : (p : Player) → Keeps (clan_pushes env p)
  unfolding clan_pushes
  clan_pushes-Keeps p = search (keeps, player_clan-Keeps, clan_pushes_of-Keeps) depth 9

  pub login-Keeps : (x : ℕ) (body : List ℕ) → Keeps (login env x body)
  unfolding login
  login-Keeps x body = search (keeps, clan_pushes-Keeps, send_all-Keeps) depth 9

  pub item_login-Keeps : (x : ℕ) (body : List ℕ) → Keeps (item_login env x body)
  unfolding item_login
  item_login-Keeps x body = search (keeps, send_all-Keeps) depth 9

  pub map_quest_login-Keeps : (x : ℕ) (body : List ℕ) → Keeps (map_quest_login env x body)
  unfolding map_quest_login
  map_quest_login-Keeps x body = search (keeps, send_all-Keeps) depth 9

  pub game_action-Keeps :
      (answer destination x : ℕ) (body : List ℕ)
      → Keeps (game_action {S = S} answer destination x body)
  unfolding game_action
  game_action-Keeps answer destination x body = search keeps depth 9
