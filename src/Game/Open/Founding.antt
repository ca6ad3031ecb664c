-- ===== src/Game/Open/Founding.antt =====
-- The handlers of clan.go, clan_mark.go and clan_chat.go keep the open rooms.
use fear_online_server.Prelude.{ℕ, String, Bool, List}
use fear_online_server.Game.{Env}
use fear_online_server.Game.Open.Keeps.{Keeps, keeps, then-Keeps, change_places-Keeps}
use fear_online_server.Game.Open.Sending.{send_all-Keeps}
use fear_online_server.Models.Clan.{Clan, Mark}
use fear_online_server.Models.Player.{Player}
use fear_online_server.Models.Player.Materials.{SpentItem}
use fear_online_server.Repositories.Exec.{Result, ok, err}
use fear_online_server.Wire.Read.{Read, read, malformed}
use fear_online_server.Identity.{resolve_player}
use fear_online_server.Game.Clans.{in_clan}
use fear_online_server.Prelude.{ℕ}
use fear_online_server.Game.Clans.Founding.{
  tell_founded, founded, create_named, create_clan, notify_application, applied, join_named,
  join_clan, search_named, search_name, name_checked, check_named, check_name,
}
use fear_online_server.Game.Clans.Marks.{
  check_parsed, check_mark, mark_spent, spend_mark_change, mark_changed, change_parsed,
  change_clan_mark, chatted, chat_read, clan_chat,
}
use fear_online_server.Game.Open.Clans.{
  unless_missing-Keeps, in_clan-IsOpen, broadcast_clan-Keeps, broadcast_reviewers-Keeps,
}
use fear_online_server.Game.Open.Items.{send_item_value-Keeps}

module _ {S : Type 0} (env : Env S) where
  tell_founded-Keeps :
      (x : ℕ) (player : Player) (clan : Clan) → Keeps (tell_founded env x player clan)
  unfolding tell_founded
  tell_founded-Keeps x player clan = search (keeps, send_all-Keeps) depth 9

  founded-Keeps :
      (x : ℕ) (player : Player) (name : String) (clan : Clan)
      → Keeps (founded env x player name clan)
  unfolding founded
  founded-Keeps x player name clan =
      then-Keeps
        (change_places-Keeps (λ p. in_clan x name (resolve_player p.states x) p)
          (λ p. in_clan-IsOpen env x name (resolve_player p.states x) p))
        (λ u. tell_founded-Keeps x player clan)

  create_named-Keeps :
      (x : ℕ) (player : Player) (mark : Mark × ℕ) (r : Read (List ℕ))
      → Keeps (create_named env x player mark r)
  create_named-Keeps x player mark (malformed e) = search keeps
  create_named-Keeps x player (mark, extra) (read name next) = search (keeps, founded-Keeps) depth 9

  pub create_clan-Keeps : (x : ℕ) (body : List ℕ) → Keeps (create_clan env x body)
  unfolding create_clan
  create_clan-Keeps x body = search (keeps, create_named-Keeps) depth 9

  notify_application-Keeps :
      (clan : Clan) (player : Player) → Keeps (notify_application env clan player)
  unfolding notify_application
  notify_application-Keeps clan player = search (keeps, broadcast_reviewers-Keeps env) depth 9

  applied-Keeps : (x : ℕ) (player : Player) (clan : Clan) → Keeps (applied env x player clan)
  unfolding applied
  applied-Keeps x player clan = search (keeps, notify_application-Keeps) depth 9

  join_named-Keeps :
      (x : ℕ) (player : Player) (r : Read (List ℕ)) → Keeps (join_named env x player r)
  join_named-Keeps x player (malformed e) = search keeps
  join_named-Keeps x player (read name next) = search (keeps, applied-Keeps) depth 9

  pub join_clan-Keeps : (x : ℕ) (body : List ℕ) → Keeps (join_clan env x body)
  unfolding join_clan
  join_clan-Keeps x body = search (keeps, join_named-Keeps) depth 9

  search_named-Keeps : (x : ℕ) (r : Read (List ℕ)) → Keeps (search_named env x r)
  search_named-Keeps x (malformed e) = search keeps
  search_named-Keeps x (read name next) = search keeps

  pub search_name-Keeps : (x : ℕ) (body : List ℕ) → Keeps (search_name env x body)
  unfolding search_name
  search_name-Keeps x body = search (keeps, search_named-Keeps) depth 9

  name_checked-Keeps : (x : ℕ) (r : Result Bool) → Keeps (name_checked env x r)
  name_checked-Keeps x (err e) = search keeps
  name_checked-Keeps x (ok available) = search keeps

  check_named-Keeps : (x : ℕ) (r : Read (List ℕ)) → Keeps (check_named env x r)
  check_named-Keeps x (malformed e) = search keeps
  check_named-Keeps x (read name next) = search (keeps, name_checked-Keeps)

  pub check_name-Keeps : (x : ℕ) (body : List ℕ) → Keeps (check_name env x body)
  unfolding check_name
  check_name-Keeps x body = search (keeps, check_named-Keeps) depth 9

  check_parsed-Keeps :
      (x : ℕ) (player : Player) (mark : Mark × ℕ) → Keeps (check_parsed env x player mark)
  check_parsed-Keeps x player (mark, extra) = search keeps depth 9

  pub check_mark-Keeps : (x : ℕ) (body : List ℕ) → Keeps (check_mark env x body)
  unfolding check_mark
  check_mark-Keeps x body = search (keeps, check_parsed-Keeps) depth 9

  mark_spent-Keeps : (x : ℕ) (r : Player × SpentItem) → Keeps (mark_spent env x r)
  unfolding mark_spent
  mark_spent-Keeps x (updated, spent) = search (keeps, send_item_value-Keeps env) depth 9

  spend_mark_change-Keeps : (x : ℕ) (player : Player) → Keeps (spend_mark_change env x player)
  unfolding spend_mark_change
  spend_mark_change-Keeps x player = search (keeps, mark_spent-Keeps) depth 9

  mark_changed-Keeps :
      (x : ℕ) (player : Player) (clan : Clan) → Keeps (mark_changed env x player clan)
  unfolding mark_changed
  mark_changed-Keeps x player clan =
      search (keeps, broadcast_clan-Keeps env, spend_mark_change-Keeps) depth 9

  change_parsed-Keeps :
      (x : ℕ) (player : Player) (mark : Mark × ℕ) → Keeps (change_parsed env x player mark)
  unfolding change_parsed
  change_parsed-Keeps x player (mark, extra) = search (keeps, mark_changed-Keeps) depth 11

  pub change_clan_mark-Keeps : (x : ℕ) (body : List ℕ) → Keeps (change_clan_mark env x body)
  unfolding change_clan_mark
  change_clan_mark-Keeps x body = search (keeps, change_parsed-Keeps) depth 9

  chatted-Keeps :
      (x : ℕ) (player : Player) (line : String) (clan : Clan)
      → Keeps (chatted env x player line clan)
  unfolding chatted
  chatted-Keeps x player line clan = search (keeps, broadcast_clan-Keeps env) depth 9

  chat_read-Keeps : (x : ℕ) (player : Player) (r : Read (List ℕ)) → Keeps (chat_read env x player r)
  chat_read-Keeps x player (malformed e) = search keeps
  chat_read-Keeps x player (read line next) =
      search (keeps, unless_missing-Keeps env, chatted-Keeps) depth 11

  pub clan_chat-Keeps : (x : ℕ) (body : List ℕ) → Keeps (clan_chat env x body)
  unfolding clan_chat
  clan_chat-Keeps x body = search (keeps, chat_read-Keeps) depth 9
