-- ===== src/Models/Clan.antt =====
-- server/internal/models/clan.go: a clan, its members and its applicants.
pub mod Leader
pub mod Roster
use fear_online_server.Prelude.{
  ℕ, String, Bool, ◌&&◌, ◌||◌, leb, ◌==◌, ◌=ₛ◌, if◌then◌else◌, List, [], length, Option, none, some,
  find_by, any_by, remove_by, update_by,
}
use fear_online_server.Models.Item.{Time}

pub record ClanRecord : Type 0 where
  pub win : ℕ
  pub draw : ℕ
  pub lose : ℕ
  pub kill : ℕ
  pub death : ℕ

abbrev pub no_clan_record : ClanRecord
no_clan_record = record { win = 0; draw = 0; lose = 0; kill = 0; death = 0 }

pub record ClanMember : Type 0 where
  pub member_id : ℕ
  pub steam_id : String
  pub name : String
  pub rank : ℕ
  pub records : ClanRecord

pub record ClanApplicant : Type 0 where
  pub applicant_id : ℕ
  pub steam_id : String
  pub name : String
  pub level : ℕ
  pub message : String
  pub applied_at : Time

-- `[3]int32`.
pub record Mark : Type 0 where
  pub first : ℕ
  pub second : ℕ
  pub third : ℕ

unfoldable pub same_mark : Mark → Mark → Bool
same_mark a b = a.first == b.first && (a.second == b.second && a.third == b.third)

pub record Clan : Type 0 where
  pub name : String
  pub mark : Mark
  pub mark_extra : ℕ
  pub level : ℕ
  pub member_capacity : ℕ
  pub master : String
  pub members : List ClanMember
  pub applicants : List ClanApplicant
  pub records : ClanRecord
  pub created_at : Time

abbrev pub no_clan : Clan
no_clan = record {
  name = "";
  mark = record { first = 0; second = 0; third = 0 };
  mark_extra = 0;
  level = 0;
  member_capacity = 0;
  master = "";
  members = [];
  applicants = [];
  records = no_clan_record;
  created_at = 0;
}

abbrev pub clan_rank_master : ℕ
clan_rank_master = 1

abbrev pub clan_rank_manager : ℕ
clan_rank_manager = 2

abbrev pub clan_rank_member : ℕ
clan_rank_member = 8

abbrev pub clan_rank_associate : ℕ
clan_rank_associate = 9

abbrev pub default_clan_member_capacity : ℕ
default_clan_member_capacity = 50

unfoldable pub can_review_clan_applications : ℕ → Bool
can_review_clan_applications rank = rank == clan_rank_master || rank == clan_rank_manager

unfoldable pub is_assignable_clan_rank : ℕ → Bool
is_assignable_clan_rank rank =
    rank == clan_rank_manager || (rank == clan_rank_member || rank == clan_rank_associate)

unfoldable pub member : Clan → String → Option ClanMember
member c steam_id = find_by (λ m. m.steam_id =ₛ steam_id) c.members

unfoldable pub member_by_id : Clan → ℕ → Option ClanMember
member_by_id c id = find_by (λ m. m.member_id == id) c.members

unfoldable pub applicant : Clan → ℕ → Option ClanApplicant
applicant c id = find_by (λ a. a.applicant_id == id) c.applicants

unfoldable pub capacity : Clan → ℕ
capacity c = if c.member_capacity == 0 then default_clan_member_capacity else c.member_capacity

unfoldable pub is_full : Clan → Bool
unfolding capacity
is_full c = leb (capacity c) (length c.members)

-- The removed entry with the clan that is left, if there is such an entry.
abbrev removed_member : Clan → Option (ClanMember × List ClanMember) → Option (ClanMember × Clan)
removed_member c none = none
removed_member c (some (m, rest)) = some (m, record c { members = rest })

unfoldable pub remove_member : Clan → ℕ → Option (ClanMember × Clan)
remove_member c id = removed_member c (remove_by (λ m. m.member_id == id) c.members)

abbrev removed_applicant :
    Clan → Option (ClanApplicant × List ClanApplicant) → Option (ClanApplicant × Clan)
removed_applicant c none = none
removed_applicant c (some (a, rest)) = some (a, record c { applicants = rest })

unfoldable pub remove_applicant : Clan → ℕ → Option (ClanApplicant × Clan)
remove_applicant c id = removed_applicant c (remove_by (λ a. a.applicant_id == id) c.applicants)

-- Whether there is such a member, and the clan afterwards.
unfoldable pub set_rank : Clan → ℕ → ℕ → Bool × Clan
set_rank c id rank = (
  any_by (λ m. m.member_id == id) c.members,
  record c {
    members = update_by (λ m. m.member_id == id) (λ m. record m { rank = rank }) c.members;
  },
)
