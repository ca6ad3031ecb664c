-- ===== src/Services/Clans/Authority.antt =====
-- Who may do what to whom in a clan.
use fear_online_server.Prelude.{
  ℕ, ◌≡◌, ◌<◌, ◌≤◌, ◌⊎◌, inl, inr, arith, List, [], ◌∷◌, length, length-append, some, Option-cases,
  remove_by, ◌==◌,
}
use fear_online_server.Models.Player.{Player}
use fear_online_server.Models.Clan.{
  Clan, ClanMember, ClanApplicant, clan_rank_master, clan_rank_manager, clan_rank_member,
  clan_rank_associate, member, member_by_id, capacity, is_full, can_review_clan_applications,
  remove_applicant,
}
use fear_online_server.Repositories.Exec.{ok}
use fear_online_server.Repositories.Table.{lookup}
use fear_online_server.Repositories.Memory.{
  Store, memory_clans, memory_players, update_clan, update_player,
}
use fear_online_server.Services.Clans.{
  actor_clan, reviewer_clan, detach, kick_member, accept_application, new_member,
}

-- The ranks that the server gives out.
abbrev pub IsRank : ℕ → Type 0
IsRank n =
    (n ≡ clan_rank_master)
    ⊎ (n ≡ clan_rank_manager)
    ⊎ (n ≡ clan_rank_member)
    ⊎ (n ≡ clan_rank_associate)

-- A kick that succeeds hits a member of a lower position than the actor's: a position is the lower the
-- larger its number. The target's rank is one that the server gives out.
pub kick_member_below :
    (p : Player) (id : ℕ) (s : Store) (c rest : Clan) (by target : ClanMember)
    → lookup p.clan_name s.clans ≡ some c
    → member c p.steam_id ≡ some by
    → IsRank target.rank
    → (kick_member memory_clans memory_players p id s).0 ≡ ok (rest, target)
    → by.rank < target.rank
unfolding kick_member actor_clan reviewer_clan detach can_review_clan_applications update_clan
    update_player
kick_member_below p id s c rest by target q f r e = elim (Option-cases (member_by_id c id)) [
  | inl g ↦ ground (arith, q, f, g)
  | inr (t, g) ↦ ground (arith, q, f, g, r)
]

number-remove_by :
    (id : ℕ) (xs : List ClanApplicant) (a : ClanApplicant) (rest : List ClanApplicant)
    → remove_by (λ a. a.applicant_id == id) xs ≡ some (a, rest)
    → a.applicant_id ≡ id
number-remove_by id [] a rest e = absurd (cc)
number-remove_by id (x ∷ xs) a rest e =
    elim (Option-cases (remove_by (λ a. a.applicant_id == id) xs)) [
      | inl r ↦ ground (arith, r)
      | inr ((b, left), r) ↦ ground (arith, r, number-remove_by id xs b left r)
    ]

-- A clan that accepts an application has no more members afterwards than its capacity, and the new
-- member has the number of the application and the plain member's rank.
pub accept_application-le-capacity :
    (p : Player) (id : ℕ) (s : Store) (c : Clan) (m : ClanMember)
    → (accept_application memory_clans memory_players p id s).0 ≡ ok (c, m)
    → (length c.members ≤ capacity c) × (m.member_id ≡ id) × (m.rank ≡ clan_rank_member)
unfolding accept_application actor_clan reviewer_clan can_review_clan_applications update_clan
    update_player is_full capacity remove_applicant new_member
accept_application-le-capacity p id s c m e = elim (Option-cases (lookup p.clan_name s.clans)) [
  | inl q ↦ ground (arith, q)
  | inr (d, q) ↦ elim (Option-cases (remove_by (λ a. a.applicant_id == id) d.applicants)) [
    | inl r ↦ ground (arith, q, r)
    | inr ((a, rest), r) ↦ ground (
      arith,
      q,
      r,
      number-remove_by id d.applicants a rest r,
      length-append d.members (new_member a ∷ []),
    )
  ]
]
