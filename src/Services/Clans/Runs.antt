-- ===== src/Services/Clans/Runs.antt =====
-- Clan requests on a clan of two.
use fear_online_server.Prelude.{◌≡◌, ◌≤◌, ◌<◌, refl, arith, inl, inr, map, length, [], ◌∷◌}
use fear_online_server.Models.Player.{Player, no_player}
use fear_online_server.Models.Clan.{
  Clan, ClanMember, capacity, member, no_clan_record, clan_rank_member, clan_rank_manager,
  clan_rank_master,
}
use fear_online_server.Models.Clan.Roster.{IsClan}
use fear_online_server.Repositories.Exec.{ok, not_allowed}
use fear_online_server.Repositories.Memory.{
  Store, memory_clans, memory_players, update_clan, update_player,
}
use fear_online_server.Services.Clans.{
  kick_member, accept_application, highest_member, highest_applicant,
}
use fear_online_server.Services.Clans.Request.{Fails, perform, kicks, rises}
use fear_online_server.Services.Clans.Failure.{perform_unchanged}
use fear_online_server.Services.Clans.Stored.{AllClans}
use fear_online_server.Services.Clans.Keeps.{perform-AllClans}
use fear_online_server.Services.Clans.Authority.{kick_member_below, accept_application-le-capacity}

abbrev owls : Clan
owls = record {
  name = "owls";
  mark = record { first = 1; second = 2; third = 3 };
  mark_extra = 0;
  level = 1;
  member_capacity = 50;
  master = "7";
  members =
      record {
        member_id = 1;
        steam_id = "7";
        name = "ada";
        rank = clan_rank_master;
        records = no_clan_record;
      }
      ∷ record {
        member_id = 2;
        steam_id = "8";
        name = "bob";
        rank = clan_rank_member;
        records = no_clan_record;
      }
      ∷ [];
  applicants =
      record {
        applicant_id = 3;
        steam_id = "9";
        name = "cy";
        level = 1;
        message = "";
        applied_at = 1;
      }
      ∷ [];
  records = no_clan_record;
  created_at = 1;
}

abbrev ada : Player
ada = record no_player { steam_id = "7"; name = "ada"; clan_name = "owls" }

abbrev bob : Player
bob = record no_player { steam_id = "8"; name = "bob"; clan_name = "owls" }

abbrev cy : Player
cy = record no_player { steam_id = "9"; name = "cy" }

abbrev town : Store
town = record { players = ("7", ada) ∷ ("8", bob) ∷ ("9", cy) ∷ []; clans = ("owls", owls) ∷ [] }

bob-Fails : Fails not_allowed (perform (kicks bob 1) town)
unfolding perform
bob-Fails = refl

perform_unchanged_example : (perform (kicks bob 1) town).1 ≡ town
perform_unchanged_example = perform_unchanged (kicks bob 1) town not_allowed bob-Fails

town-AllClans : AllClans town.clans
town-AllClans = (refl, owls-IsClan, tt, tt)
  where
    owls-IsClan : IsClan owls
    owls-IsClan = record {
      led = inr (inl (refl, refl, (ground arith, tt)));
      members_distinct = ((ground arith, tt), (tt, tt));
      applicants_distinct = (tt, tt);
      disjoint = ((ground arith, (ground arith, tt)), tt);
    }

perform-AllClans_example : AllClans (perform (rises ada 2) town).1.clans
unfolding highest_member highest_applicant
perform-AllClans_example = perform-AllClans (rises ada 2) town town-AllClans (omega arith, tt)

abbrev bob_member : ClanMember
bob_member = record {
  member_id = 2;
  steam_id = "8";
  name = "bob";
  rank = clan_rank_member;
  records = no_clan_record;
}

abbrev ada_member : ClanMember
ada_member = record {
  member_id = 1;
  steam_id = "7";
  name = "ada";
  rank = clan_rank_master;
  records = no_clan_record;
}

-- Ada hands the clan over to Bob and becomes a manager.
rises_bob :
    map (λ e. e.1.members) (perform (rises ada 2) town).1.clans
    ≡ (record ada_member { rank = clan_rank_manager }
        ∷ record bob_member { rank = clan_rank_master }
        ∷ [])
      ∷ []
unfolding perform update_clan
rises_bob = refl

kicks_bob :
    (kick_member memory_clans memory_players ada 2 town).0
    ≡ ok (record owls { members = ada_member ∷ [] }, bob_member)
unfolding kick_member update_clan update_player
kicks_bob = refl

kick_member_below_example : clan_rank_master < clan_rank_member
unfolding member
kick_member_below_example =
    kick_member_below ada 2 town owls (record owls { members = ada_member ∷ [] }) ada_member
      bob_member refl refl (ground arith) kicks_bob

abbrev cy_member : ClanMember
cy_member = record {
  member_id = 3;
  steam_id = "9";
  name = "cy";
  rank = clan_rank_member;
  records = no_clan_record;
}

abbrev owls_of_three : Clan
owls_of_three = record owls { members = ada_member ∷ bob_member ∷ cy_member ∷ []; applicants = [] }

accepts_cy :
    (accept_application memory_clans memory_players ada 3 town).0 ≡ ok (owls_of_three, cy_member)
unfolding accept_application update_clan update_player
accepts_cy = refl

accept_application-le-capacity_example :
    (length owls_of_three.members ≤ capacity owls_of_three)
    × (cy_member.member_id ≡ 3)
    × (cy_member.rank ≡ clan_rank_member)
accept_application-le-capacity_example =
    accept_application-le-capacity ada 3 town owls_of_three cy_member accepts_cy
