-- ===== src/Lobby/Members/Counts.antt =====
-- What the counts of a clan tell a client.
use fear_online_server.Prelude.{
  ℕ, ◌+◌, ◌≤◌, ◌≡◌, arith, ltb, leb, ◌==◌, if◌then◌else◌, List, [], ◌∷◌, length,
}
use fear_online_server.Prelude.Int.{pos}
use fear_online_server.Models.Clan.{
  Clan, ClanMember, clan_rank_manager, clan_rank_member, clan_rank_associate, capacity, is_full,
}
use fear_online_server.Rooms.Payloads.{clamp_byte}
use fear_online_server.Lobby.Members.{increment_byte, ranked, make_clan_member_counts}

-- How many members have a rank.
abbrev pub count_rank : ℕ → List ClanMember → ℕ
count_rank rank [] = 0
count_rank rank (m ∷ ms) = (if m.rank == rank then 1 else 0) + count_rank rank ms

ranked_lem :
    (rank n : ℕ) (ms : List ClanMember)
    → n + count_rank rank ms ≤ 0xFF
    → ranked rank n ms ≡ n + count_rank rank ms
unfolding ranked
ranked_lem rank n [] h = omega arith
ranked_lem rank n (m ∷ ms) h =
    ground (arith, ranked_lem rank (if m.rank == rank then increment_byte n else n) ms)

ranked-count :
    (rank : ℕ) (ms : List ClanMember)
    → count_rank rank ms ≤ 0xFF
    → ranked rank 0 ms ≡ count_rank rank ms
ranked-count rank ms h = omega (arith, ranked_lem rank 0 ms (omega (arith, h)))

ranks-le-length :
    (ms : List ClanMember)
    → count_rank clan_rank_manager ms
        + count_rank clan_rank_member ms
        + count_rank clan_rank_associate ms
      ≤ length ms
ranks-le-length [] = omega arith
ranks-le-length (m ∷ ms) = ground (arith, ranks-le-length ms)

clamp_small : (n : ℕ) → n ≤ 0xFF → clamp_byte (pos n) ≡ n
clamp_small n h = ground arith

seen_full :
    (limit total : ℕ)
    → (total ≤ (if ltb limit total then total else limit))
      × (leb (if ltb limit total then total else limit) total ≡ leb limit total)
seen_full limit total = ground arith

-- For a clan of at most 255 members, the row of counts says how many managers, members and associates there
-- are and how many in all, and its last byte is never below the total and equals it exactly when IsFull
-- turns applicants away.
pub make_clan_member_counts_lem :
    (clan : Clan)
    → length clan.members ≤ 0xFF
    → let c = make_clan_member_counts clan in
      (c.managers ≡ count_rank clan_rank_manager clan.members)
      × (c.members ≡ count_rank clan_rank_member clan.members)
      × (c.associates ≡ count_rank clan_rank_associate clan.members)
      × (c.current_total ≡ length clan.members)
      × (c.current_total ≤ c.room_for)
      × (leb c.room_for c.current_total ≡ is_full clan)
unfolding make_clan_member_counts is_full
make_clan_member_counts_lem clan h =
    let small = ranks-le-length clan.members in
    let full = seen_full (capacity clan) (length clan.members) in
    (
      ranked-count clan_rank_manager clan.members (omega (arith, small, h)),
      ranked-count clan_rank_member clan.members (omega (arith, small, h)),
      ranked-count clan_rank_associate clan.members (omega (arith, small, h)),
      clamp_small (length clan.members) h,
      rw (clamp_small (length clan.members) h) full.0,
      rw (clamp_small (length clan.members) h) full.1,
    )
