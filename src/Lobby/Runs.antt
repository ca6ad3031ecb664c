-- ===== src/Lobby/Runs.antt =====
-- The counts of a clan of three.
use fear_online_server.Prelude.{ℕ, ◌≤◌, ◌≡◌, arith, leb, [], ◌∷◌}
use fear_online_server.Models.Clan.{Clan, ClanMember, no_clan, no_clan_record, is_full}
use fear_online_server.Lobby.Members.{make_clan_member_counts}
use fear_online_server.Lobby.Members.Counts.{make_clan_member_counts_lem}

abbrev one_of : ℕ → ClanMember
one_of rank = record {
  member_id = 1;
  steam_id = "7";
  name = "ada";
  rank = rank;
  records = no_clan_record;
}

abbrev owls : Clan
owls = record no_clan { members = one_of 1 ∷ one_of 2 ∷ one_of 2 ∷ [] }

make_clan_member_counts_lem_example :
    let c = make_clan_member_counts owls in
    (c.managers ≡ 2)
    × (c.members ≡ 0)
    × (c.associates ≡ 0)
    × (c.current_total ≡ 3)
    × (c.current_total ≤ c.room_for)
    × (leb c.room_for c.current_total ≡ is_full owls)
make_clan_member_counts_lem_example = make_clan_member_counts_lem owls (omega arith)
