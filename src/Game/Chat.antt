-- ===== src/Game/Chat.antt =====
-- chat.go: the general chat.
use fear_online_server.Game.Ids.{
  rmi_answer_chat_all_fail, rmi_answer_chat_all_ok, rmi_answer_chat_clan_fail,
  rmi_answer_chat_clan_ok, rmi_answer_chat_user_fail, rmi_answer_chat_user_ok, rmi_notify_chat,
}
use fear_online_server.Prelude.{
  ℕ, String, not, ltb, ◌=ₛ◌, if◌then◌else◌, List, [], length, Option, none, some,
}
use fear_online_server.Models.Clan.{Clan}
use fear_online_server.Models.Player.{Player}
use fear_online_server.Wire.Read.{Read, read, malformed}
use fear_online_server.Wire.Text.{read_proud_string}
use fear_online_server.Rooms.Sessions.{is_online, online}
use fear_online_server.Rooms.Create.{byte_at}
use fear_online_server.Lobby.Social.{notify_chat_row}
use fear_online_server.Game.Broadcast.{push}
use fear_online_server.Game.Start.{no_reason}
use fear_online_server.Game.Items.{refuse_if}
use fear_online_server.Game.Clans.{max_chat_length, unless_missing}
use fear_online_server.Game.{
  Env, Act, ◌>>=◌, ◌>>◌, gets, given, each_of, send, serve, account_of, unless_none,
}

abbrev chat_type_default : ℕ
chat_type_default = 0

module _ {S : Type 0} (env : Env S) where
  abbrev line_of : String → ℕ → Option (String × ℕ)
  line_of line flag = if line =ₛ "" then none else some (env.cut max_chat_length line, flag)

  abbrev chat_tail : List ℕ → Read (List ℕ) → Option (String × ℕ)
  chat_tail body (malformed e) = none
  chat_tail body (read line next) =
      line_of (env.trim_space (env.text line))
        (if ltb next (length body) then byte_at next body else 0)

  -- readChatLine: the text and its flag.
  unfoldable pub read_chat_line : List ℕ → (offset : ℕ) → Option (String × ℕ)
  unfolding read_proud_string byte_at
  read_chat_line body offset = chat_tail body (read_proud_string body offset)

  abbrev refuse_chat : ℕ → (id : ℕ) → Act S (Unit {0})
  refuse_chat x id = send x id no_reason

  abbrev chat_row : Player → String × ℕ → List ℕ
  chat_row player (line, flag) = notify_chat_row env.runes player.name line chat_type_default flag

  -- parse, and the rest of the handler.
  unfoldable pub with_chat_line :
      ℕ → List ℕ → (fail_id : ℕ) → (Player → String × ℕ → Act S (Unit {0})) → Act S (Unit {0})
  unfolding read_chat_line
  with_chat_line x body fail_id f = do
    account ← account_of x
    unless_none account (refuse_chat x fail_id)
        (λ player. unless_none (read_chat_line body 0) (refuse_chat x fail_id) (f player))

  unfoldable pub chat_to_all : ℕ → Player → String × ℕ → Act S (Unit {0})
  unfolding online push notify_chat_row
  chat_to_all x player line = do
    send x rmi_answer_chat_all_ok []
    names ← gets (λ w. online w.registry)
    each_of (λ steam_id. push steam_id rmi_notify_chat (chat_row player line)) names

  unfoldable pub chat_all : ℕ → List ℕ → Act S (Unit {0})
  unfolding with_chat_line chat_to_all
  chat_all x body = with_chat_line x body rmi_answer_chat_all_fail (chat_to_all x)

  unfoldable pub chat_to_clan : ℕ → Player → String × ℕ → Clan → Act S (Unit {0})
  unfolding push notify_chat_row
  chat_to_clan x player line clan = do
    send x rmi_answer_chat_clan_ok []
    each_of (λ m. push m.steam_id rmi_notify_chat (chat_row player line)) clan.members

  abbrev pub chat_in_clan : ℕ → Player → String × ℕ → Act S (Unit {0})
  chat_in_clan x player line =
      refuse_if (player.clan_name =ₛ "") (refuse_chat x rmi_answer_chat_clan_fail) (do
        found ← serve (env.clans.find player.clan_name)
        unless_missing found (refuse_chat x rmi_answer_chat_clan_fail) (chat_to_clan x player line))

  unfoldable pub chat_clan : ℕ → List ℕ → Act S (Unit {0})
  unfolding with_chat_line chat_to_clan
  chat_clan x body = with_chat_line x body rmi_answer_chat_clan_fail (chat_in_clan x)

  unfoldable pub whisper_to : ℕ → Player → String × ℕ → Player → Act S (Unit {0})
  unfolding is_online push notify_chat_row
  whisper_to x player line recipient = do
    reachable ← gets (λ w. is_online w.registry recipient.steam_id)
    if not reachable then refuse_chat x rmi_answer_chat_user_fail else (do
      send x rmi_answer_chat_user_ok []
      push recipient.steam_id rmi_notify_chat (chat_row player line)
      send x rmi_notify_chat (chat_row player line))

  abbrev whisper_line : ℕ → Player → String → String × ℕ → Act S (Unit {0})
  whisper_line x player target line = do
    found ← serve (env.players.find_by_name (env.trim_space target))
    unless_missing found (refuse_chat x rmi_answer_chat_user_fail) (whisper_to x player line)

  abbrev pub whisper_named : ℕ → List ℕ → Player → Read (List ℕ) → Act S (Unit {0})
  whisper_named x body player (malformed e) = refuse_chat x rmi_answer_chat_user_fail
  whisper_named x body player (read target next) =
      unless_none (read_chat_line body next) (refuse_chat x rmi_answer_chat_user_fail)
        (whisper_line x player (env.text target))

  unfoldable pub whisper : ℕ → List ℕ → Act S (Unit {0})
  unfolding read_chat_line whisper_to read_proud_string
  whisper x body = do
    account ← account_of x
    player ← given account
    whisper_named x body player (read_proud_string body 0)
