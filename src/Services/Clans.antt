-- ===== src/Services/Clans.antt =====
-- clan_service.go and clan_membership.go. The clock is an argument of each method that reads it.
pub mod Request
pub mod Failure
pub mod Authority
pub mod Stored
pub mod Keeps
pub mod Numbers
mod Runs
use fear_online_server.Prelude.{
  ℕ, zero, ◌+◌, ◌%◌, ◌^◌, String, Bool, true, false, not, ◌&&◌, ◌||◌, ltb, leb, ◌==◌, ◌=ₛ◌,
  if◌then◌else◌, List, [], ◌∷◌, ◌++◌, length, Option, none, some, find_by, any_by,
}
use fear_online_server.Models.Item.{Time}
use fear_online_server.Models.Player.{Player}
use fear_online_server.Models.Clan.{
  Clan, ClanMember, ClanApplicant, Mark, no_clan_record, clan_rank_master, clan_rank_manager,
  clan_rank_member, default_clan_member_capacity, can_review_clan_applications,
  is_assignable_clan_rank, member, member_by_id, is_full, remove_member, remove_applicant, set_rank,
}
use fear_online_server.Repositories.Exec.{
  Exec, pure, raise, ◌>>=◌, ◌>>◌, or_raise, raise_if, clan_not_found, already_member,
  already_in_clan, not_in_clan, not_allowed, member_not_found, applicant_not_found, clan_full,
  no_application, invalid_rank, master_must_transfer, mark_taken,
}
use fear_online_server.Repositories.Interface.{PlayerRepository, ClanRepository}

-- The two loops of nextApplicantID.
unfoldable pub highest_member : ℕ → List ClanMember → ℕ
highest_member highest [] = highest
highest_member highest (m ∷ ms) =
    highest_member (if ltb highest m.member_id then m.member_id else highest) ms

unfoldable pub highest_applicant : ℕ → List ClanApplicant → ℕ
highest_applicant highest [] = highest
highest_applicant highest (a ∷ xs) =
    highest_applicant (if ltb highest a.applicant_id then a.applicant_id else highest) xs

-- The sum is a uint16.
unfoldable pub next_applicant_id : Clan → ℕ
unfolding highest_member highest_applicant
next_applicant_id c = (highest_applicant (highest_member 0 c.members) c.applicants + 1) % 2 ^ 16

unfoldable pub new_applicant : Clan → Player → Time → ClanApplicant
unfolding next_applicant_id
new_applicant c p now = record {
  applicant_id = next_applicant_id c;
  steam_id = p.steam_id;
  name = p.name;
  level = p.level;
  message = "";
  applied_at = now;
}

unfoldable pub new_member : ClanApplicant → ClanMember
new_member a = record {
  member_id = a.applicant_id;
  steam_id = a.steam_id;
  name = a.name;
  rank = clan_rank_member;
  records = no_clan_record;
}

unfoldable pub new_clan : String → String → String → Mark → ℕ → Time → Clan
new_clan steam_id player_name clan_name mark mark_extra now = record {
  name = clan_name;
  mark = mark;
  mark_extra = mark_extra;
  level = 1;
  member_capacity = default_clan_member_capacity;
  master = steam_id;
  members =
      record {
        member_id = 1;
        steam_id = steam_id;
        name = player_name;
        rank = clan_rank_master;
        records = no_clan_record;
      }
      ∷ [];
  applicants = [];
  records = no_clan_record;
  created_at = now;
}

-- RemoveApplicant's result is not looked at.
abbrev pub without_applicant : Clan → Option (ClanApplicant × Clan) → Clan
without_applicant clan none = clan
without_applicant clan (some (a, rest)) = rest

-- The loop leaves the zero value where no applicant is the actor.
abbrev pub withdrawn : String → Option ClanApplicant → ClanApplicant
withdrawn steam_id (some a) = a
withdrawn steam_id none = record {
  applicant_id = 0;
  steam_id = "";
  name = "";
  level = 0;
  message = "";
  applied_at = 0;
}

abbrev pub without_member : Clan → Option (ClanMember × Clan) → Clan
without_member clan none = clan
without_member clan (some (m, rest)) = rest

module _ {S : Type 0} (clans : ClanRepository S) (players : PlayerRepository S) where
  unfoldable pub actor_clan : Player → Exec S (Clan × ClanMember)
  unfolding member
  actor_clan actor = do
    raise_if (actor.clan_name =ₛ "") not_in_clan
    found ← clans.find actor.clan_name
    clan ← or_raise found clan_not_found
    m ← or_raise (member clan actor.steam_id) not_in_clan
    pure (clan, m)

  unfoldable pub reviewer_clan : Player → Exec S (Clan × ClanMember)
  unfolding actor_clan can_review_clan_applications
  reviewer_clan actor = do
    (clan, m) ← actor_clan actor
    raise_if (not (can_review_clan_applications m.rank)) not_allowed
    pure (clan, m)

  unfoldable pub name_available : String → Exec S Bool
  name_available name = do
    found ← clans.find name
    pure (elim found [ none ↦ true | some c ↦ false ])

  unfoldable pub mark_available : Player → Mark → Exec S Bool
  mark_available actor mark = do
    found ← clans.find_by_mark mark actor.clan_name
    pure (elim found [ none ↦ true | some c ↦ false ])

  unfoldable pub change_mark : Player → Mark → ℕ → Exec S Clan
  unfolding actor_clan
  change_mark actor mark mark_extra = do
    (clan, m) ← actor_clan actor
    raise_if (not (m.rank == clan_rank_master)) not_allowed
    taken ← clans.find_by_mark mark clan.name
    raise_if (elim taken [ none ↦ false | some c ↦ true ]) mark_taken
    clans.save_mark clan.name mark mark_extra
    pure (record clan { mark = mark; mark_extra = mark_extra })

  unfoldable pub request_join : Player → String → Time → Exec S Clan
  unfolding new_applicant
  request_join player clan_name now = do
    raise_if (not (player.clan_name =ₛ "")) already_in_clan
    found ← clans.find clan_name
    clan ← or_raise found clan_not_found
    raise_if (any_by (λ m. m.steam_id =ₛ player.steam_id) clan.members) already_member
    if any_by (λ a. a.steam_id =ₛ player.steam_id) clan.applicants then pure clan else do
      let clan' = record clan {
        applicants = clan.applicants ++ (new_applicant clan player now ∷ []);
      }
      clans.save_applicants clan'.name clan'.applicants
      pure clan'

  unfoldable pub create : String → String → String → Mark → ℕ → Time → Exec S Clan
  unfolding new_clan
  create steam_id player_name clan_name mark mark_extra now = do
    let clan = new_clan steam_id player_name clan_name mark mark_extra now
    clans.create clan
    players.set_clan_name steam_id clan_name
    pure clan

  unfoldable pub accept_application : Player → ℕ → Exec S (Clan × ClanMember)
  unfolding reviewer_clan remove_applicant is_full new_member
  accept_application actor applicant_id = do
    (clan, m) ← reviewer_clan actor
    (a, clan) ← or_raise (remove_applicant clan applicant_id) applicant_not_found
    raise_if (is_full clan) clan_full
    let joined = record clan { members = clan.members ++ (new_member a ∷ []) }
    clans.save_roster joined.name joined.members joined.applicants
    players.set_clan_name a.steam_id joined.name
    pure (joined, new_member a)

  unfoldable pub reject_application : Player → ℕ → Exec S (Clan × ClanApplicant)
  unfolding reviewer_clan remove_applicant
  reject_application actor applicant_id = do
    (clan, m) ← reviewer_clan actor
    (a, clan) ← or_raise (remove_applicant clan applicant_id) applicant_not_found
    clans.save_applicants clan.name clan.applicants
    pure (clan, a)

  unfoldable pub cancel_application : Player → Exec S (Clan × ClanApplicant)
  unfolding remove_applicant
  cancel_application actor = do
    found ← clans.find_by_applicant actor.steam_id
    clan ← or_raise found no_application
    let a = withdrawn actor.steam_id (find_by (λ a. a.steam_id =ₛ actor.steam_id) clan.applicants)
    let rest = without_applicant clan (remove_applicant clan a.applicant_id)
    clans.save_applicants rest.name rest.applicants
    pure (rest, a)

  unfoldable pub detach : Clan → ClanMember → Exec S (Unit {0})
  detach clan m = do clans.save_members clan.name clan.members; players.set_clan_name m.steam_id ""

  unfoldable pub kick_member : Player → ℕ → Exec S (Clan × ClanMember)
  unfolding reviewer_clan member_by_id remove_member detach
  kick_member actor member_id = do
    (clan, by) ← reviewer_clan actor
    target ← or_raise (member_by_id clan member_id) member_not_found
    raise_if (target.rank == clan_rank_master || target.member_id == by.member_id) not_allowed
    raise_if (by.rank == clan_rank_manager && target.rank == clan_rank_manager) not_allowed
    let rest = without_member clan (remove_member clan member_id)
    detach rest target
    pure (rest, target)

  unfoldable pub leave : Player → Exec S (Clan × ClanMember)
  unfolding actor_clan remove_member detach
  leave actor = do
    (clan, m) ← actor_clan actor
    raise_if (m.rank == clan_rank_master && ltb 1 (length clan.members)) master_must_transfer
    let rest = without_member clan (remove_member clan m.member_id)
    detach rest m
    pure (rest, m)

  unfoldable pub change_position : Player → ℕ → ℕ → Exec S (Clan × ClanMember)
  unfolding actor_clan is_assignable_clan_rank member_by_id set_rank
  change_position actor member_id rank = do
    (clan, by) ← actor_clan actor
    raise_if (not (by.rank == clan_rank_master)) not_allowed
    raise_if (not (is_assignable_clan_rank rank)) invalid_rank
    target ← or_raise (member_by_id clan member_id) member_not_found
    raise_if (target.member_id == by.member_id) not_allowed
    let clan' = (set_rank clan member_id rank).1
    clans.save_members clan'.name clan'.members
    pure (clan', record target { rank = rank })

  unfoldable pub change_master : Player → ℕ → Exec S (Clan × ClanMember × ClanMember)
  unfolding actor_clan member_by_id set_rank
  change_master actor member_id = do
    (clan, by) ← actor_clan actor
    raise_if (not (by.rank == clan_rank_master)) not_allowed
    target ← or_raise (member_by_id clan member_id) member_not_found
    raise_if (target.member_id == by.member_id) member_not_found
    let risen = (set_rank clan target.member_id clan_rank_master).1
    let fallen = (set_rank risen by.member_id clan_rank_manager).1
    let clan' = record fallen { master = target.steam_id }
    clans.save_leadership clan'.name clan'.master clan'.members
    pure (clan', record target { rank = clan_rank_master }, record by { rank = clan_rank_manager })

  unfoldable pub release_members : List ClanMember → Exec S (Unit {0})
  release_members [] = pure tt
  release_members (m ∷ ms) = players.set_clan_name m.steam_id "" >> release_members ms

  unfoldable pub disband : Player → Exec S Clan
  unfolding actor_clan release_members
  disband actor = do
    (clan, m) ← actor_clan actor
    raise_if (not (m.rank == clan_rank_master)) not_allowed
    clans.delete clan.name
    release_members clan.members
    pure clan
