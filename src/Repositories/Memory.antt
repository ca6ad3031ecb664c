-- ===== src/Repositories/Memory.antt =====
-- memory_player_repository.go and memory_clan_repository.go. Each method holds the lock throughout,
-- so it is one step on the maps. What a Find returns is a copy, as with the Mongo stores.
use fear_online_server.Prelude.{
  ℕ, String, Bool, true, false, not, ◌&&◌, ltb, ◌=ₛ◌, any_by, if◌then◌else◌, List, [], ◌∷◌, Option,
  none, some,
}
use fear_online_server.Models.Item.{InventoryItem}
use fear_online_server.Models.Player.{Player, Wallet, balance, debit}
use fear_online_server.Models.Clan.{Clan, same_mark}
use fear_online_server.Repositories.Exec.{Exec, ok, err, already_exists, clan_exists}
use fear_online_server.Repositories.Table.{lookup, insert, delete, find_value}
use fear_online_server.Repositories.Interface.{PlayerRepository, ClanRepository}

pub record Store : Type 0 where
  pub players : List (String × Player)
  pub clans : List (String × Clan)

-- `if player, ok := r.players[steamID]; ok { …; r.players[steamID] = player }`.
abbrev pub changed_player : (Player → Player) → String → Option Player → Store → Store
changed_player f steam_id none s = s
changed_player f steam_id (some p) s = record s { players = insert steam_id (f p) s.players }

unfoldable pub update_player : String → (Player → Player) → Exec Store (Unit {0})
update_player steam_id f s = (ok tt, changed_player f steam_id (lookup steam_id s.players) s)

abbrev created_player : Player → Option Player → Exec Store (Unit {0})
created_player p none s = (ok tt, record s { players = insert p.steam_id p s.players })
created_player p (some q) s = (err already_exists, s)

unfoldable pub find_players :
    List String → List (String × Player) → List (String × Player) → List (String × Player)
find_players [] found players = found
find_players (id ∷ ids) found players =
    find_players ids (elim (lookup id players) [ none ↦ found | some p ↦ insert id p found ])
      players

-- CommitInventory: the test and the write are one step.
abbrev committed : String → List InventoryItem → Wallet → ℕ → Option Player → Exec Store Bool
committed steam_id inventory w price none s = (ok false, s)
committed steam_id inventory w price (some p) s =
    if ltb 0 price && ltb (balance p w) price then (ok false, s) else (
      ok true,
      record s {
        players = insert steam_id (record (debit p w price) { inventory = inventory }) s.players;
      },
    )

unfoldable pub commit_inventory : String → List InventoryItem → Wallet → ℕ → Exec Store Bool
unfolding balance debit
commit_inventory steam_id inventory w price s =
    committed steam_id inventory w price (lookup steam_id s.players) s

abbrev pub memory_players : PlayerRepository Store
memory_players = record {
  find = λ id s. (ok (lookup id s.players), s);
  find_many = λ ids s. (ok (find_players ids [] s.players), s);
  create = λ p s. created_player p (lookup p.steam_id s.players) s;
  touch = λ id at. update_player id (λ p. record p { last_login = at });
  save_loadout = λ id l. update_player id (λ p. record p { loadout = l });
  commit_inventory = commit_inventory;
  set_name = λ id name. update_player id (λ p. record p { name = name });
  find_by_name = λ name s. (ok (find_value (λ p. p.name =ₛ name) s.players), s);
  save_social = λ id friends requests.
      update_player id (λ p. record p { friends = friends; friend_requests = requests });
  set_clan_name = λ id name. update_player id (λ p. record p { clan_name = name });
  save_attachments = λ id a. update_player id (λ p. record p { attachments = a });
}

abbrev pub changed_clan : (Clan → Clan) → String → Option Clan → Store → Store
changed_clan f name none s = s
changed_clan f name (some c) s = record s { clans = insert name (f c) s.clans }

unfoldable pub update_clan : String → (Clan → Clan) → Exec Store (Unit {0})
update_clan name f s = (ok tt, changed_clan f name (lookup name s.clans) s)

abbrev created_clan : Clan → Option Clan → Exec Store (Unit {0})
created_clan c none s = (ok tt, record s { clans = insert c.name c s.clans })
created_clan c (some d) s = (err clan_exists, s)

abbrev pub memory_clans : ClanRepository Store
memory_clans = record {
  find = λ name s. (ok (lookup name s.clans), s);
  create = λ c s. created_clan c (lookup c.name s.clans) s;
  save_applicants = λ name a. update_clan name (λ c. record c { applicants = a });
  save_members = λ name m. update_clan name (λ c. record c { members = m });
  save_roster = λ name m a. update_clan name (λ c. record c { members = m; applicants = a });
  save_leadership =
      λ name master m. update_clan name (λ c. record c { master = master; members = m });
  find_by_applicant =
      λ id s. (ok (find_value (λ c. any_by (λ a. a.steam_id =ₛ id) c.applicants) s.clans), s);
  find_by_mark = λ mark exclude s.
      (ok (find_value (λ c. not (c.name =ₛ exclude) && same_mark c.mark mark) s.clans), s);
  save_mark =
      λ name mark extra. update_clan name (λ c. record c { mark = mark; mark_extra = extra });
  delete = λ name s. (ok tt, record s { clans = delete name s.clans });
}
