-- ===== src/Services/Clans/Keeps/Ranks.antt =====
-- Requests about members and their ranks keep every stored clan well formed.
use fear_online_server.Prelude.{
  ℕ, ◌≡◌, subst, sym, ap, arith, List, [], ◌∷◌, some, Option-cases, inl, inr, find_by, update_by,
  remove_by,
}
use fear_online_server.Models.Player.{Player}
use fear_online_server.Models.Clan.{
  ClanMember, clan_rank_master, clan_rank_manager, is_assignable_clan_rank,
  can_review_clan_applications, member, member_by_id, remove_member, set_rank,
}
use fear_online_server.Models.Clan.Leader.{by_id, by_account, with_rank, find-by_id, find-OneMaster}
use fear_online_server.Models.Clan.Roster.{find-remove, find-remove_none}
use fear_online_server.Models.Clan.Roster.Changes.{
  led_by, empty-IsRoster, drop-IsRoster, place-IsRoster, hand_over-IsRoster,
}
use fear_online_server.Repositories.Table.{lookup}
use fear_online_server.Repositories.Memory.{Store, update_clan, update_player}
use fear_online_server.Services.Clans.{
  actor_clan, reviewer_clan, detach, kick_member, leave, change_position, change_master,
}
use fear_online_server.Services.Clans.Stored.{AllClans, lookup-AllClans, insert-AllClans}
use fear_online_server.Services.Clans.Request.{perform, kicks, rises, leaves, places}

-- A member that is found by its number has it.
number-find_by :
    (id : ℕ) (ms : List ClanMember) (t : ClanMember)
    → find_by (by_id id) ms ≡ some t
    → t.member_id ≡ id
number-find_by id [] t e = absurd (cc)
number-find_by id (x ∷ ms) t e = ground (arith, number-find_by id ms t)

module _ (s : Store) (h : AllClans s.clans) where
  pub kick_keeps : (p : Player) (id : ℕ) → AllClans (perform (kicks p id) s).1.clans
  unfolding perform actor_clan reviewer_clan detach kick_member member member_by_id remove_member
      update_clan update_player can_review_clan_applications
  kick_keeps p id = elim (Option-cases (lookup p.clan_name s.clans)) [
    | inl q ↦ ground (arith, q)
    | inr (c, q) ↦
        let (name, roster) = lookup-AllClans s.clans p.clan_name c h q in
        elim (Option-cases (find_by (by_account p.steam_id) c.members)) [
          | inl f ↦ ground (arith, q, f)
          | inr (b, f) ↦ elim (Option-cases (remove_by (by_id id) c.members)) [
            | inl r ↦ ground (arith, q, f, r, find-remove_none (by_id id) c.members r)
            | inr ((t, rest), r) ↦ ground (
              arith,
              q,
              f,
              r,
              name,
              find-remove (by_id id) c.members t rest r,
              drop-IsRoster c.master c.members c.applicants roster id t rest r,
              insert-AllClans s.clans p.clan_name (record c { members = rest }) h name,
            )
          ]
        ]
  ]

  pub leave_keeps : (p : Player) → AllClans (perform (leaves p) s).1.clans
  unfolding perform actor_clan detach leave member remove_member update_clan update_player
  leave_keeps p = elim (Option-cases (lookup p.clan_name s.clans)) [
    | inl q ↦ ground (arith, q)
    | inr (c, q) ↦
        let (name, roster) = lookup-AllClans s.clans p.clan_name c h q in
        elim (Option-cases (find_by (by_account p.steam_id) c.members)) [
          | inl f ↦ ground (arith, q, f)
          | inr (m, f) ↦
              let g = find-by_id p.steam_id c.members m roster.members_distinct f in
              elim (Option-cases (remove_by (by_id m.member_id) c.members)) [
                | inl r ↦
                    absurd (ground (arith, r, g, find-remove_none (by_id m.member_id) c.members r))
                | inr ((t, rest), r) ↦ ground (
                  arith,
                  q,
                  f,
                  r,
                  name,
                  g,
                  find-remove (by_id m.member_id) c.members t rest r,
                  drop-IsRoster c.master c.members c.applicants roster m.member_id t rest r,
                  empty-IsRoster c.master c.members c.applicants roster m.member_id t rest r,
                  insert-AllClans s.clans p.clan_name (record c { members = rest }) h name,
                )
              ]
        ]
  ]

  pub place_keeps : (p : Player) (id rank : ℕ) → AllClans (perform (places p id rank) s).1.clans
  unfolding perform actor_clan change_position member member_by_id set_rank update_clan
      is_assignable_clan_rank
  place_keeps p id rank = elim (Option-cases (lookup p.clan_name s.clans)) [
    | inl q ↦ ground (arith, q)
    | inr (c, q) ↦
        let (name, roster) = lookup-AllClans s.clans p.clan_name c h q in
        elim (Option-cases (find_by (by_account p.steam_id) c.members)) [
          | inl f ↦ ground (arith, q, f)
          | inr (b, f) ↦ elim (Option-cases (find_by (by_id id) c.members)) [
            | inl g ↦ ground (arith, q, f, g)
            | inr (t, g) ↦
                let o = led_by c.master c.members c.applicants roster (by_id id) t g in
                ground (
                  arith,
                  q,
                  f,
                  g,
                  name,
                  λ (a : t.rank ≡ clan_rank_master) (d : b.rank ≡ clan_rank_master).
                      ap (λ m. m.member_id)
                        (find-OneMaster c.master (by_id id) (by_account p.steam_id) c.members t b o
                          g f a d),
                  place-IsRoster c.master c.members c.applicants roster id rank t g,
                  insert-AllClans s.clans p.clan_name
                      (record c { members = update_by (by_id id) (with_rank rank) c.members }) h
                      name,
                )
          ]
        ]
  ]

  pub rise_keeps : (p : Player) (id : ℕ) → AllClans (perform (rises p id) s).1.clans
  unfolding perform actor_clan change_master member member_by_id set_rank update_clan
  rise_keeps p id = elim (Option-cases (lookup p.clan_name s.clans)) [
    | inl q ↦ ground (arith, q)
    | inr (c, q) ↦
        let (name, roster) = lookup-AllClans s.clans p.clan_name c h q in
        elim (Option-cases (find_by (by_account p.steam_id) c.members)) [
          | inl f ↦ ground (arith, q, f)
          | inr (b, f) ↦ elim (Option-cases (find_by (by_id id) c.members)) [
            | inl g ↦ ground (arith, q, f, g)
            | inr (t, g) ↦
                let number = number-find_by id c.members t g in
                ground (
                  arith,
                  q,
                  f,
                  g,
                  name,
                  number,
                  hand_over-IsRoster c.master c.members c.applicants roster t.member_id b.member_id
                      t b,
                  find-by_id p.steam_id c.members b roster.members_distinct f,
                  subst (λ i. find_by (by_id i) c.members ≡ some t) (sym number) g,
                  insert-AllClans s.clans p.clan_name
                      (record c {
                        master = t.steam_id;
                        members =
                            update_by (by_id b.member_id) (with_rank clan_rank_manager) (
                              update_by (by_id t.member_id) (with_rank clan_rank_master) c.members);
                      })
                      h name,
                )
          ]
        ]
  ]
