-- ===== src/Services/Clans/Failure.antt =====
-- A clan request that fails leaves the in-memory stores as they were.
use fear_online_server.Prelude.{◌≡◌, refl, arith, List, [], ◌∷◌, Option-cases, inl, inr}
use fear_online_server.Repositories.Table.{lookup, delete}
use fear_online_server.Models.Clan.{ClanMember}
use fear_online_server.Repositories.Exec.{Error, ok}
use fear_online_server.Repositories.Memory.{
  Store, memory_clans, memory_players, update_clan, update_player,
}
use fear_online_server.Services.Clans.{
  change_mark, request_join, create, accept_application, reject_application, cancel_application,
  kick_member, leave, change_position, change_master, disband, release_members, detach,
}
use fear_online_server.Services.Clans.Request.{
  Fails, Request, perform, joins, creates, accepts, rejects, kicks, rises, cancels, leaves,
  disbands, places, paints,
}

-- Releasing the members of a disbanded clan does not fail.
release_members-ok :
    (ms : List ClanMember) (s : Store)
    → (release_members memory_clans memory_players ms s).0 ≡ ok tt
unfolding release_members update_player
release_members-ok [] s = refl
release_members-ok (m ∷ ms) s =
    release_members-ok ms (update_player m.steam_id (λ p. record p { clan_name = "" }) s).1

-- A clan request that answers an error has not changed the in-memory stores: every check stands
-- before the first write.
pub perform_unchanged :
    (r : Request) (s : Store) (e : Error) → Fails e (perform r s) → (perform r s).1 ≡ s
unfolding perform request_join create accept_application reject_application cancel_application
    kick_member leave change_position change_master change_mark disband detach update_clan
    update_player
perform_unchanged (joins p name now) s e h = ground arith
perform_unchanged (creates id player name mark extra now) s e h = ground arith
perform_unchanged (accepts p id) s e h = ground arith
perform_unchanged (rejects p id) s e h = ground arith
perform_unchanged (kicks p id) s e h = ground arith
perform_unchanged (rises p id) s e h = ground arith
perform_unchanged (cancels p) s e h = ground arith
perform_unchanged (leaves p) s e h = ground arith
perform_unchanged (disbands p) s e h = elim (Option-cases (lookup p.clan_name s.clans)) [
  | inl q ↦ ground (arith, q)
  | inr (c, q) ↦
      ground (arith, q, release_members-ok c.members (record s { clans = delete c.name s.clans }))
]
perform_unchanged (places p id rank) s e h = ground arith
perform_unchanged (paints p mark extra) s e h = ground arith
