-- ===== src/Game/Login.antt =====
-- auth.go, channel.go, login.go and actions_ack.go: the launcher's log-in, credentials and channels.
use fear_online_server.Game.Ids.{
  rmi_answer_aeria_auth, rmi_answer_aeria_launcher, rmi_answer_channel_join,
  rmi_answer_channel_list, rmi_answer_check_credential, rmi_answer_create_credential,
  rmi_send_channel_list,
}
use fear_online_server.Prelude.{
  ℕ, ◌%◌, ◌^◌, ltb, ◌==◌, if◌then◌else◌, List, [], ◌∷◌, ◌++◌, length, take, Option, none, some,
}
use fear_online_server.Prelude.Int.{pos}
use fear_online_server.Models.Player.{Player}
use fear_online_server.Repositories.Exec.{Result, ok, err}
use fear_online_server.Services.Players.Login.{login_by_steam}
use fear_online_server.Wire.Varint.{encode_var_int}
use fear_online_server.Wire.Bytes.{append_uint16, append_uint32}
use fear_online_server.Wire.Read.{Read, read, malformed}
use fear_online_server.Wire.Text.{read_proud_string, write_proud_string}
use fear_online_server.Identity.{bind_player, issue, redeem, set_session_channel}
use fear_online_server.Server.{Session}
use fear_online_server.Prelude.NatMap.{value_at}
use fear_online_server.Game.Start.{no_reason}
use fear_online_server.Game.{
  World, Places, Env, Channel, Act, fail, ◌>>=◌, ◌>>◌, gets, modify, given, send, send_secret,
  serve, account_of, room_of_session, change_places, read_clock,
}

abbrev pub first_channel : List Channel → Option Channel
first_channel [] = none
first_channel (c ∷ cs) = some c

abbrev pub on_channel : ℕ → Option Channel → Places → Places
on_channel x none p = p
on_channel x (some c) p = record p { states = set_session_channel p.states x c.id }

abbrev pub guid_of : Option Session → List ℕ
guid_of none = []
guid_of (some s) = s.connect_guid

-- The body of a response: the menu it leads to, which is the room's where the session stands in one.
abbrev action_body : ℕ → Option ℕ → List ℕ
action_body destination none = if destination == 0 then [] else destination ∷ []
action_body destination (some h) = if destination == 0 then [] else 5 ∷ []

-- A static response of actions_ack.go: the answer, and the menu it leads to, where it leads to one.
unfoldable pub game_action : {S : Type 0} → (answer destination : ℕ) → ℕ → List ℕ → Act S (Unit {0})
game_action answer destination x body = do
  found ← room_of_session x
  send x answer (action_body destination found)

module _ {S : Type 0} (env : Env S) where
  -- bindPlayer.
  unfoldable pub bind_account : ℕ → Player → World S → World S
  unfolding bind_player
  bind_account x player w =
      let (states, registry) = bind_player w.places.states w.registry x player in
      record w { places = record w.places { states = states }; registry = registry }

  -- sendBoth, of a message without a body.
  unfoldable pub send_both : ℕ → (id : ℕ) → Act S (Unit {0})
  unfolding send_secret
  send_both x id = do send_secret env.cipher x id []; send x id []

  unfoldable pub append_channel : List ℕ → Channel → List ℕ
  append_channel dst c =
      let identified = append_uint32 dst (c.server_id % 2 ^ 32) ++ (c.id ∷ c.kind ∷ []) in
      let named = write_proud_string identified (env.runes c.name) in
      let primary = append_uint16 (write_proud_string named (env.runes c.host)) c.port in
      let alternate = append_uint16 (write_proud_string primary (env.runes c.host)) c.port in
      append_uint16 (append_uint16 alternate 0) c.max_users

  unfoldable pub append_channels : List ℕ → List Channel → List ℕ
  unfolding append_channel
  append_channels body [] = body
  append_channels body (c ∷ channels) = append_channels (append_channel body c) channels

  unfoldable pub send_channel_list : ℕ → Act S (Unit {0})
  unfolding append_channels encode_var_int
  send_channel_list x =
      send x rmi_send_channel_list
        (append_channels (encode_var_int (pos (length env.channels))) env.channels)

  unfoldable pub request_channel_list : ℕ → List ℕ → Act S (Unit {0})
  unfolding send_channel_list
  request_channel_list x body = do send x rmi_answer_channel_list []; send_channel_list x

  unfoldable pub join_channel : ℕ → List ℕ → Act S (Unit {0})
  unfolding set_session_channel
  join_channel x body = do
    change_places (on_channel x (first_channel env.channels))
    send x rmi_answer_channel_join (1 ∷ [])

  abbrev pub logged_in : ℕ → Result Player → Act S (Unit {0})
  logged_in x (err e) = fail
  logged_in x (ok player) = do
    modify (bind_account x player)
    send_both x rmi_answer_aeria_auth
    send_both x rmi_answer_aeria_launcher
    send_channel_list x

  abbrev pub auth_named : ℕ → Read (List ℕ) → Act S (Unit {0})
  auth_named x (malformed e) = fail
  auth_named x (read steam_id next) = do
    now ← read_clock env
    later ← read_clock env
    r ← serve (
        login_by_steam env.players env.catalog env.starting_point env.starting_cash
          (env.text steam_id) now later)
    logged_in x r

  abbrev pub auth_coded : ℕ → List ℕ → Read (List ℕ) → Act S (Unit {0})
  auth_coded x body (malformed e) = fail
  auth_coded x body (read code next) = auth_named x (read_proud_string body next)

  unfoldable pub aeria_auth : ℕ → List ℕ → Act S (Unit {0})
  unfolding bind_account send_both send_channel_list login_by_steam read_proud_string
  aeria_auth x body = auth_coded x body (read_proud_string body 0)

  unfoldable pub aeria_launcher : ℕ → List ℕ → Act S (Unit {0})
  unfolding send_both
  aeria_launcher x body = send_both x rmi_answer_aeria_launcher

  unfoldable pub create_credential : ℕ → List ℕ → Act S (Unit {0})
  unfolding issue
  create_credential x body = do
    account ← account_of x
    player ← given account
    guid ← gets (λ w. guid_of (value_at x w.connections))
    if length guid == 16
        then (do
          modify (λ w. record w { credentials = issue env.hex w.credentials guid player })
          send x rmi_answer_create_credential guid)
        else fail

  unfoldable pub check_credential : ℕ → List ℕ → Act S (Unit {0})
  unfolding redeem bind_account send_channel_list
  check_credential x body = if ltb (length body) 16 then fail else (do
    found ← gets (λ w. redeem env.hex w.credentials (take 16 body))
    player ← given found
    modify (bind_account x player)
    send x rmi_answer_check_credential no_reason
    send_channel_list x)
