-- ===== src/Game/Clans/Marks.antt =====
-- clan_mark.go and clan_chat.go: the mark of a clan, and what its members say to each other.
use fear_online_server.Game.Ids.{
  rmi_answer_change_mark_no, rmi_answer_change_mark_ok, rmi_answer_check_mark_no,
  rmi_answer_check_mark_ok, rmi_answer_clan_chat_fail, rmi_answer_clan_chat_ok,
  rmi_notify_clan_chat, rmi_notify_clan_mark, rmi_send_delete_item,
}
use fear_online_server.Models.Item.{InventoryItem}
use fear_online_server.Prelude.{
  ℕ, String, Bool, true, false, ◌&&◌, ◌==◌, ◌=ₛ◌, if◌then◌else◌, List, [], ◌∷◌, Option, none, some,
}
use fear_online_server.Models.Clan.{Clan, Mark, same_mark}
use fear_online_server.Models.Player.{Player}
use fear_online_server.Models.Player.Materials.{SpentItem}
use fear_online_server.Repositories.Exec.{Result, ok, err}
use fear_online_server.Services.Clans.{mark_available, change_mark}
use fear_online_server.Services.Players.Shop.{find_consumable, spend_consumable}
use fear_online_server.Wire.Bytes.{append_uint16}
use fear_online_server.Wire.Read.{Read, read, malformed}
use fear_online_server.Wire.Text.{read_proud_string}
use fear_online_server.Rooms.Payloads.{append_clan_mark}
use fear_online_server.Lobby.Social.{check_mark_verdict, parse_clan_mark, clan_chat_row}
use fear_online_server.Game.Start.{no_reason}
use fear_online_server.Game.Items.{refuse_if, send_item_value}
use fear_online_server.Game.Clans.{
  function_clan_mark_change, max_chat_length, unless_missing, broadcast_clan,
}
use fear_online_server.Game.{
  Env, Act, pure, ◌>>=◌, ◌>>◌, given, send, serve, account_of, keep_player, unless_error,
  unless_none,
}

module _ {S : Type 0} (env : Env S) where
  abbrev pub check_parsed : ℕ → Player → Mark × ℕ → Act S (Unit {0})
  check_parsed x player (mark, extra) = do
    r ← serve (mark_available env.clans env.players player mark)
    unless_error r (send x rmi_answer_check_mark_no [])
        (λ available. send x rmi_answer_check_mark_ok (check_mark_verdict available))

  unfoldable pub check_mark : ℕ → List ℕ → Act S (Unit {0})
  unfolding mark_available parse_clan_mark check_mark_verdict
  check_mark x body = do
    account ← account_of x
    player ← given account
    unless_none (parse_clan_mark body) (send x rmi_answer_check_mark_no []) (check_parsed x player)

  unfoldable pub mark_spent : ℕ → Player × SpentItem → Act S (Unit {0})
  unfolding send_item_value
  mark_spent x (updated, spent) = do
    keep_player x updated
    if spent.used_up
        then send x rmi_send_delete_item (append_uint16 [] spent.serial)
        else send_item_value env x spent.remaining

  unfoldable pub spend_mark_change : ℕ → Player → Act S (Unit {0})
  unfolding spend_consumable mark_spent
  spend_mark_change x player = do
    r ← serve (spend_consumable env.players env.catalog player.steam_id function_clan_mark_change)
    unless_error r (pure tt) (mark_spent x)

  unfoldable pub mark_changed : ℕ → Player → Clan → Act S (Unit {0})
  unfolding broadcast_clan append_clan_mark spend_mark_change
  mark_changed x player clan = do
    send x rmi_answer_change_mark_ok []
    broadcast_clan clan ((rmi_notify_clan_mark, append_clan_mark [] clan) ∷ [])
    spend_mark_change x player

  abbrev wears : Mark × ℕ → Result (Option Clan) → Bool
  wears mark (err e) = false
  wears mark (ok none) = false
  wears (mark, extra) (ok (some clan)) = same_mark clan.mark mark && (clan.mark_extra == extra)

  abbrev owns : Option InventoryItem → Bool
  owns none = false
  owns (some i) = true

  -- A mark that the clan does not wear yet costs an item; without one nothing is asked of the clan.
  unfoldable pub change_parsed : ℕ → Player → Mark × ℕ → Act S (Unit {0})
  unfolding same_mark find_consumable change_mark mark_changed
  change_parsed x player (mark, extra) = do
    current ← serve (env.clans.find player.clan_name)
    if wears (mark, extra) current
        then send x rmi_answer_change_mark_ok []
        else if owns (find_consumable env.catalog player.inventory function_clan_mark_change)
        then (do
          r ← serve (change_mark env.clans env.players player mark extra)
          unless_error r (send x rmi_answer_change_mark_no []) (mark_changed x player))
        else send x rmi_answer_change_mark_no []

  unfoldable pub change_clan_mark : ℕ → List ℕ → Act S (Unit {0})
  unfolding parse_clan_mark change_parsed
  change_clan_mark x body = do
    account ← account_of x
    player ← given account
    unless_none (parse_clan_mark body) (send x rmi_answer_change_mark_no [])
        (change_parsed x player)

  abbrev chat_refused : ℕ → Act S (Unit {0})
  chat_refused x = send x rmi_answer_clan_chat_fail no_reason

  unfoldable pub chatted : ℕ → Player → String → Clan → Act S (Unit {0})
  unfolding broadcast_clan clan_chat_row
  chatted x player line clan = do
    send x rmi_answer_clan_chat_ok []
    broadcast_clan clan ((rmi_notify_clan_chat, clan_chat_row env.runes player.name line) ∷ [])

  abbrev pub chat_line : ℕ → Player → String → Act S (Unit {0})
  chat_line x player line = refuse_if (line =ₛ "") (chat_refused x) (do
    found ← serve (env.clans.find player.clan_name)
    unless_missing found (chat_refused x) (chatted x player (env.cut max_chat_length line)))

  abbrev pub chat_read : ℕ → Player → Read (List ℕ) → Act S (Unit {0})
  chat_read x player (malformed e) = chat_refused x
  chat_read x player (read line next) = chat_line x player (env.trim_space (env.text line))

  unfoldable pub clan_chat : ℕ → List ℕ → Act S (Unit {0})
  unfolding chatted read_proud_string
  clan_chat x body = do
    account ← account_of x
    player ← given account
    chat_read x player (read_proud_string body 0)
