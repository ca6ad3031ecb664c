-- ===== src/Services/Clans/Keeps/Whole.antt =====
-- Founding, painting and disbanding keep every stored clan well formed.
use fear_online_server.Prelude.{
  ℕ, ◌≡◌, refl, ◌∙◌, String, arith, List, [], ◌∷◌, Option-cases, inl, inr,
}
use fear_online_server.Models.Item.{Time}
use fear_online_server.Models.Player.{Player}
use fear_online_server.Models.Clan.{ClanMember, Mark, member}
use fear_online_server.Repositories.Table.{lookup, delete}
use fear_online_server.Repositories.Memory.{
  Store, update_clan, update_player, memory_clans, memory_players,
}
use fear_online_server.Services.Clans.{
  actor_clan, create, change_mark, disband, release_members, new_clan,
}
use fear_online_server.Services.Clans.Stored.{
  AllClans, lookup-AllClans, insert-AllClans, delete-AllClans,
}
use fear_online_server.Services.Clans.Request.{perform, creates, disbands, paints}

-- Releasing members does not touch the clans.
clans-release_members :
    (ms : List ClanMember) (s : Store)
    → (release_members memory_clans memory_players ms s).1.clans ≡ s.clans
unfolding release_members update_player
clans-release_members [] s = refl
clans-release_members (m ∷ ms) s =
    clans-release_members ms (update_player m.steam_id (λ p. record p { clan_name = "" }) s).1
    ∙ ground arith

module _ (s : Store) (h : AllClans s.clans) where
  pub create_keeps :
      (id player name : String) (mark : Mark) (extra : ℕ) (now : Time)
      → AllClans (perform (creates id player name mark extra now) s).1.clans
  unfolding perform create new_clan update_player
  create_keeps id player name mark extra now = ground (
    arith,
    insert-AllClans s.clans name (new_clan id player name mark extra now) h refl (record {
      led = inr (inl (refl, refl, tt));
      members_distinct = (tt, tt);
      applicants_distinct = tt;
      disjoint = tt;
    }),
  )

  pub paint_keeps :
      (p : Player) (mark : Mark) (extra : ℕ) → AllClans (perform (paints p mark extra) s).1.clans
  unfolding perform change_mark actor_clan update_clan member
  paint_keeps p mark extra = elim (Option-cases (lookup p.clan_name s.clans)) [
    | inl q ↦ ground (arith, q)
    | inr (c, q) ↦
        let (name, roster) = lookup-AllClans s.clans p.clan_name c h q in
        ground (
          arith,
          q,
          name,
          insert-AllClans s.clans p.clan_name (record c { mark = mark; mark_extra = extra }) h name
              roster,
        )
  ]

  pub disband_keeps : (p : Player) → AllClans (perform (disbands p) s).1.clans
  unfolding perform disband actor_clan member
  disband_keeps p = elim (Option-cases (lookup p.clan_name s.clans)) [
    | inl q ↦ ground (arith, q)
    | inr (c, q) ↦ ground (
      arith,
      q,
      delete-AllClans s.clans c.name h,
      clans-release_members c.members (record s { clans = delete c.name s.clans }),
    )
  ]
