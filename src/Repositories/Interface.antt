-- ===== src/Repositories/Interface.antt =====
-- The interfaces PlayerRepository and ClanRepository, over the state of the stores.
use fear_online_server.Prelude.{ℕ, String, Bool, List, Option}
use fear_online_server.Models.Item.{Time, InventoryItem}
use fear_online_server.Models.Loadout.{Loadout}
use fear_online_server.Models.Attachments.{Attachments}
use fear_online_server.Models.Player.{Player, Friend, FriendRequest, Wallet}
use fear_online_server.Models.Clan.{Clan, ClanMember, ClanApplicant, Mark}
use fear_online_server.Repositories.Exec.{Exec}

pub record PlayerRepository (S : Type 0) : Type 0 where
  pub find : String → Exec S (Option Player)
  pub find_many : List String → Exec S (List (String × Player))
  pub create : Player → Exec S (Unit {0})
  pub touch : String → Time → Exec S (Unit {0})
  pub save_loadout : String → Loadout → Exec S (Unit {0})
  pub commit_inventory : String → List InventoryItem → Wallet → ℕ → Exec S Bool
  pub set_name : String → String → Exec S (Unit {0})
  pub find_by_name : String → Exec S (Option Player)
  pub save_social : String → List Friend → List FriendRequest → Exec S (Unit {0})
  pub set_clan_name : String → String → Exec S (Unit {0})
  pub save_attachments : String → Attachments → Exec S (Unit {0})

pub record ClanRepository (S : Type 0) : Type 0 where
  pub find : String → Exec S (Option Clan)
  pub create : Clan → Exec S (Unit {0})
  pub save_applicants : String → List ClanApplicant → Exec S (Unit {0})
  pub save_members : String → List ClanMember → Exec S (Unit {0})
  pub save_roster : String → List ClanMember → List ClanApplicant → Exec S (Unit {0})
  pub save_leadership : String → String → List ClanMember → Exec S (Unit {0})
  pub find_by_applicant : String → Exec S (Option Clan)
  pub find_by_mark : Mark → String → Exec S (Option Clan)
  pub save_mark : String → Mark → ℕ → Exec S (Unit {0})
  pub delete : String → Exec S (Unit {0})
